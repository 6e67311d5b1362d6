-- ===== src/Common/Int.antt =====
-- Signed machine integers: their values, Go's conversions to `int32` and `int`, comparison, and
-- the decimal texts of `strconv.Atoi` and `%d`.
use Prim.Native.Nat.{ℕ, zero, suc, ◌+◌, ◌-◌, ◌*◌, ◌/◌, ◌%◌, ◌^◌, ◌<◌}
use mathlib.Core.Logic.{inl, inr}
use mathlib.Core.Path.{◌≡◌, refl, ◌∙◌}
use mathlib.Core.Bool.{Bool, true, false, ◌&&◌}
use mathlib.Core.Option.{Option, none, some}
use mathlib.Core.List.{[], ◌∷◌}
use native.Mathlib.Nat.{pow-suc}
use native.Mathlib.Omega.{arith}
use ileap_go.Common.Tests.{ltb, leb, ◌==◌, if◌then◌else◌, if_elim, ltb→lt, Bool-cases}
use ileap_go.Common.Lists.{All}
use ileap_go.Common.Text.{Bytes}

-- `negsuc n` is -(n + 1).
pub data ℤ : Type 0 where
  pos : ℕ → ℤ
  negsuc : ℕ → ℤ

-- The value of a natural number kept in `w` bits, two's complement.
abbrev pub wrap : ℕ → ℕ → ℤ
wrap w n = if ltb (n % 2 ^ w) (2 ^ (w - 1)) then pos (n % 2 ^ w) else negsuc (2 ^ w - 1 - n % 2 ^ w)

-- `int32(n)` and the result of a sum of `int`.
abbrev pub int32 : ℕ → ℤ
int32 = wrap 32

abbrev pub int64 : ℕ → ℤ
int64 = wrap 64

pub int32_small : (n : ℕ) → n < 2147483648 → int32 n ≡ pos n
int32_small n h = ground arith

pub int64_small : (n : ℕ) → n < 9223372036854775808 → int64 n ≡ pos n
int64_small n h = ground arith

-- `a < b`
abbrev pub ltb_ℤ : ℤ → ℤ → Bool
ltb_ℤ (pos a) (pos b) = ltb a b
ltb_ℤ (pos a) (negsuc b) = false
ltb_ℤ (negsuc a) (pos b) = true
ltb_ℤ (negsuc a) (negsuc b) = ltb b a

abbrev pub is_digit : ℕ → Bool
is_digit c = leb b'0' c && leb c b'9'

-- The value of a text of digits behind the value `acc`.
unfoldable pub digits_value : ℕ → Bytes → Option ℕ
digits_value acc [] = some acc
digits_value acc (c ∷ cs) =
    let rest = digits_value (acc * 10 + (c - b'0')) cs in if is_digit c then rest else none

digits_value_nil : (n : ℕ) → digits_value n [] ≡ some n
unfolding digits_value
digits_value_nil n = refl

abbrev nonempty_digits : Bytes → Option ℕ
nonempty_digits [] = none
nonempty_digits (c ∷ cs) = digits_value 0 (c ∷ cs)

abbrev in_range : ℕ → (ℕ → ℤ) → Option ℕ → Option ℤ
in_range bound sign none = none
in_range bound sign (some n) = if leb n bound then some (sign n) else none

-- `-n`
abbrev negate : ℕ → ℤ
negate zero = pos 0
negate (suc n) = negsuc n

-- `strconv.Atoi`, for an `int` of 64 bits, less the text of its error.
unfoldable pub atoi : Bytes → Option ℤ
atoi [] = none
atoi (c ∷ cs) =
    if c == b'-'
    then in_range (2 ^ 63) negate (nonempty_digits cs)
    else if c == b'+'
    then in_range (2 ^ 63 - 1) pos (nonempty_digits cs)
    else in_range (2 ^ 63 - 1) pos (nonempty_digits (c ∷ cs))

-- The decimal digits of a number, in front of a text; the fuel bounds their count.
unfoldable pub digits_onto : ℕ → ℕ → Bytes → Bytes
digits_onto zero n out = out
digits_onto (suc fuel) n out =
    let rest = digits_onto fuel (n / 10) ((b'0' + n % 10) ∷ out) in
    if ltb n 10 then (b'0' + n) ∷ out else rest

-- `%d` of a number of 64 bits, which has 20 digits at most.
unfoldable pub itoa : ℤ → Bytes
itoa (pos n) = digits_onto 20 n []
itoa (negsuc n) = b'-' ∷ digits_onto 20 (suc n) []

-- Reading digits back: what stands behind them is read on from their value.
digits_value-digits_onto :
    (fuel n : ℕ) (out : Bytes)
    → n < 10 ^ suc fuel
    → digits_value 0 (digits_onto (suc fuel) n out) ≡ digits_value n out
unfolding digits_value digits_onto
digits_value-digits_onto zero n out h = ground (arith, pow-suc 10 0)
digits_value-digits_onto (suc fuel) n out h = elim (Bool-cases (ltb n 10)) [
  | inl small ↦ rw small (ground arith)
  | inr large ↦ rw large (
      digits_value-digits_onto fuel (n / 10) _ (omega (arith, pow-suc 10 (suc fuel)))
      ∙ ground arith)
]

digits_onto_head :
    (fuel n : ℕ) (out : Bytes)
    → (c : ℕ) × (cs : Bytes) × (digits_onto (suc fuel) n out ≡ c ∷ cs) × (is_digit c ≡ true)
unfolding digits_onto
digits_onto_head zero n out = elim (Bool-cases (ltb n 10)) [
  | inl small ↦ rw small (b'0' + n, out, refl, ground arith)
  | inr large ↦ rw large (b'0' + n % 10, out, refl, ground arith)
]
digits_onto_head (suc fuel) n out = elim (Bool-cases (ltb n 10)) [
  | inl small ↦ rw small (b'0' + n, out, refl, ground arith)
  | inr large ↦ rw large (digits_onto_head fuel (n / 10) _)
]

pub itoa_cons : (n : ℕ) → (c : ℕ) × (cs : Bytes) × (itoa (pos n) ≡ c ∷ cs)
unfolding itoa
itoa_cons n = let (c, cs, e, _) = digits_onto_head 19 n [] in (c, cs, e)

atoi_digits :
    (n c : ℕ) (cs : Bytes)
    → is_digit c ≡ true
    → digits_value 0 (c ∷ cs) ≡ some n
    → n < 2 ^ 63
    → atoi (c ∷ cs) ≡ some (pos n)
unfolding atoi
atoi_digits n c cs d v h = ground arith

-- `Atoi` reads back what `%d` prints.
pub atoi-itoa : (n : ℕ) → n < 2 ^ 63 → atoi (itoa (pos n)) ≡ some (pos n)
unfolding itoa
atoi-itoa n h =
    let (c, cs, e, d) = digits_onto_head 19 n [] in
    let v : digits_value 0 (digits_onto 20 n []) ≡ some n =
      digits_value-digits_onto 19 n [] (omega arith) ∙ digits_value_nil n in
    rw e (atoi_digits n c cs d (rw e at v) h)

-- What holds of every digit holds of all that `%d` prints of a natural number.
digits_onto-All :
    (P : ℕ → Type 0)
    → ((d : ℕ) → d < 10 → P (b'0' + d))
    → (fuel n : ℕ) (out : Bytes) → All P out
    → All P (digits_onto fuel n out)
unfolding digits_onto
digits_onto-All P digit zero n out h = h
digits_onto-All P digit (suc fuel) n out h =
    if_elim (All P) (ltb n 10) (λ small. (digit n (ltb→lt n 10 small), h))
      (λ large. digits_onto-All P digit fuel (n / 10) _ (digit (n % 10) (omega arith), h))

pub itoa-All : (P : ℕ → Type 0) → ((d : ℕ) → d < 10 → P (b'0' + d)) → (n : ℕ) → All P (itoa (pos n))
unfolding itoa
itoa-All P digit n = digits_onto-All P digit 20 n [] tt
