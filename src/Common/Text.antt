-- ===== src/Common/Text.antt =====
-- Go strings as lists of bytes: literals, equality, ASCII case folding, trimming and joining.
use Prim.Native.Nat.{ℕ, ◌+◌}
use Prim.Native.Char.{code}
use Prim.Native.String.{String}
use mathlib.Core.Path.{◌≡◌, refl}
use mathlib.Core.Logic.{◌↔◌}
use mathlib.Core.Bool.{Bool, true, false, ◌&&◌, ◌||◌}
use mathlib.Core.List.{List, [], ◌∷◌, ◌++◌, reverse}
use native.Mathlib.Omega.{arith}
use ileap_go.Common.Tests.{ltb, leb, ◌==◌, if◌then◌else◌}

abbrev pub Bytes : Type 0
Bytes = List ℕ

-- The code points of a literal: its bytes, since every literal of the source is ASCII.
abbrev pub codes : String → Bytes
codes String.[] = []
codes (String.◌∷◌ c s) = code c ∷ codes s

-- `a == b` on Go strings.
unfoldable pub bytes_eq : Bytes → Bytes → Bool
bytes_eq [] [] = true
bytes_eq (x ∷ xs) (y ∷ ys) = x == y && bytes_eq xs ys
bytes_eq _ _ = false

pub bytes_eq_iff : (a b : Bytes) → (bytes_eq a b ≡ true) ↔ (a ≡ b)
unfolding bytes_eq
bytes_eq_iff (x ∷ a) (y ∷ b) = ground (arith, bytes_eq_iff a b)
bytes_eq_iff _ _ = ground arith

abbrev pub fold : ℕ → ℕ
fold c = if leb b'A' c && leb c b'Z' then c + 32 else c

-- `strings.EqualFold` on ASCII texts: every byte alike but for its case.
unfoldable pub equal_fold : Bytes → Bytes → Bool
equal_fold [] [] = true
equal_fold (x ∷ xs) (y ∷ ys) = fold x == fold y && equal_fold xs ys
equal_fold _ _ = false

pub equal_fold_refl : (a : Bytes) → equal_fold a a ≡ true
unfolding equal_fold
equal_fold_refl [] = refl
equal_fold_refl (x ∷ xs) = ground (arith, equal_fold_refl xs)

-- `strings.Join`.
unfoldable pub join : Bytes → List Bytes → Bytes
join sep [] = []
join sep (x ∷ []) = x
join sep (x ∷ y ∷ xs) = x ++ (sep ++ join sep (y ∷ xs))

-- No byte is a part of a longer encoding.
abbrev pub is_ascii : Bytes → Bool
is_ascii [] = true
is_ascii (c ∷ s) = ltb c 128 && is_ascii s

-- The white space of `unicode.IsSpace` in UTF-8: one byte, two bytes, three bytes.
abbrev pub is_space : ℕ → Bool
is_space c = c == b' ' || (leb 9 c && leb c 13)

abbrev pub is_space₂ : ℕ → ℕ → Bool
is_space₂ c d = c == 0xC2 && (d == 0x85 || d == 0xA0)

abbrev pub is_space₃ : ℕ → ℕ → ℕ → Bool
is_space₃ c d e =
    (c == 0xE1 && d == 0x9A && e == 0x80)
    || (c == 0xE2
        && d == 0x80
        && ((leb 0x80 e && leb e 0x8A) || e == 0xA8 || e == 0xA9 || e == 0xAF))
    || (c == 0xE2 && d == 0x81 && e == 0x9F)
    || (c == 0xE3 && d == 0x80 && e == 0x80)

-- Drops white space from the front; the two tests say which pairs and triples of bytes are one.
unfoldable pub trim_by : (ℕ → ℕ → Bool) → (ℕ → ℕ → ℕ → Bool) → Bytes → Bytes
trim_by two three [] = []
trim_by two three (c ∷ []) = if is_space c then [] else c ∷ []
trim_by two three (c ∷ d ∷ []) = elim (is_space c) [
  | true ↦ trim_by two three (d ∷ [])
  | false ↦ if two c d then [] else c ∷ d ∷ []
]
trim_by two three (c ∷ d ∷ e ∷ r) = elim (is_space c) [
  | true ↦ trim_by two three (d ∷ e ∷ r)
  | false ↦ elim (two c d) [
    | true ↦ trim_by two three (e ∷ r)
    | false ↦ elim (three c d e) [ true ↦ trim_by two three r | false ↦ c ∷ d ∷ e ∷ r ]
  ]
]

abbrev pub trim_space_left : Bytes → Bytes
trim_space_left = trim_by is_space₂ is_space₃

-- The same from the other end, on the reversed text with the encodings reversed.
abbrev pub trim_space_right : Bytes → Bytes
trim_space_right s = reverse (trim_by (λ d c. is_space₂ c d) (λ e d c. is_space₃ c d e) (reverse s))

-- `strings.TrimSpace`.
unfoldable pub trim_space : Bytes → Bytes
unfolding trim_by
trim_space s = trim_space_right (trim_space_left s)

-- The byte in front of what is left of a text.
abbrev pub trim_last : ℕ → ℕ → Bytes → Bytes
trim_last c x [] = if x == c then [] else x ∷ []
trim_last c x (y ∷ s) = x ∷ y ∷ s

-- `strings.TrimRight`, of one byte.
unfoldable pub trim_right : ℕ → Bytes → Bytes
trim_right c [] = []
trim_right c (x ∷ s) = trim_last c x (trim_right c s)

-- Whether a text ends in the byte.
abbrev pub ends_with : ℕ → Bytes → Bool
ends_with c [] = false
ends_with c (x ∷ []) = x == c
ends_with c (x ∷ y ∷ s) = ends_with c (y ∷ s)

ends_with-trim_last :
    (c x : ℕ) (s : Bytes) → ends_with c s ≡ false → ends_with c (trim_last c x s) ≡ false
ends_with-trim_last c x [] e = ground arith
ends_with-trim_last c x (y ∷ s) e = e

pub ends_with-trim_right : (c : ℕ) (s : Bytes) → ends_with c (trim_right c s) ≡ false
unfolding trim_right
ends_with-trim_right c [] = refl
ends_with-trim_right c (x ∷ s) = ends_with-trim_last c x (trim_right c s) (ends_with-trim_right c s)

-- Nothing is trimmed from a text that does not end in the byte.
pub trim_right_id : (c : ℕ) (s : Bytes) → ends_with c s ≡ false → trim_right c s ≡ s
unfolding trim_right
trim_right_id c [] e = refl
trim_right_id c (x ∷ []) e = rw e refl
trim_right_id c (x ∷ y ∷ s) e = rw (trim_right_id c (y ∷ s) e) refl
