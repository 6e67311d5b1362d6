-- ===== src/Odata/Clause/Solid.antt =====
-- Texts that begin and end with a visible ASCII byte: `strings.TrimSpace` leaves them as they are.
use mathlib.Core.List.{reverse, reverse-append, reverse-reverse}
use ileap_go.Common.{
  ℕ, zero, suc, Bool, true, false, List, [], ◌∷◌, ◌++◌, ◌≡◌, refl, arith, append-nil, ltb, is_space,
  is_space₂, is_space₃, trim_by, trim_space, Bytes, codes, replicate, All,
}
use ileap_go.Filter.{Operator}
use ileap_go.Odata.Quote.{escape}
use ileap_go.Odata.Lexer.{is_ident_start}
use ileap_go.Odata.Clause.{
  Target, field, any_of, Clause, path_text, segments_text, operator_text, comparison_text,
  body_text, clause_text, filters_text, IsIdent, IsTarget, IsClause,
}

-- A visible ASCII byte.
abbrev IsVisible : ℕ → Type 0
IsVisible c = (is_space c ≡ false) × (ltb c 128 ≡ true)

abbrev pub Begins : Bytes → Type 0
Begins [] = ⊥
Begins (c ∷ _) = IsVisible c

-- A text with a visible byte at both ends.
pub record Solid (x : Bytes) : Type 0 where
  pub front : Begins x
  pub back : Begins (reverse x)

Begins-append : (x y : Bytes) → Begins x → Begins (x ++ y)
Begins-append [] y h = absurd h
Begins-append (c ∷ x) y h = h

pub back-append : (x y : Bytes) → Begins (reverse y) → Begins (reverse (x ++ y))
back-append x y h = rw (reverse-append x y) (Begins-append (reverse y) (reverse x) h)

trim_by-visible :
    (two : ℕ → ℕ → Bool) (three : ℕ → ℕ → ℕ → Bool) (c : ℕ) (r : Bytes)
    → is_space c ≡ false
    → ((d : ℕ) → two c d ≡ false)
    → ((d e : ℕ) → three c d e ≡ false)
    → trim_by two three (c ∷ r) ≡ c ∷ r
unfolding trim_by
trim_by-visible two three c [] h k l = rw (h, trim_by) refl
trim_by-visible two three c (d ∷ []) h k l = rw (h, k d, trim_by) refl
trim_by-visible two three c (d ∷ e ∷ r) h k l = rw (h, k d, l d e, trim_by) refl

trim_by-space :
    (two : ℕ → ℕ → Bool) (three : ℕ → ℕ → ℕ → Bool) (r : Bytes)
    → trim_by two three (b' ' ∷ r) ≡ trim_by two three r
unfolding trim_by
trim_by-space two three [] = refl
trim_by-space two three (d ∷ []) = refl
trim_by-space two three (d ∷ e ∷ r) = refl

ascii_front :
    (c : ℕ)
    → ltb c 128 ≡ true
    → ((d : ℕ) → is_space₂ c d ≡ false) × ((d e : ℕ) → is_space₃ c d e ≡ false)
ascii_front c h = (λ d. ground arith, λ d e. ground arith)

ascii_back :
    (c : ℕ)
    → ltb c 128 ≡ true
    → ((d : ℕ) → is_space₂ d c ≡ false) × ((d e : ℕ) → is_space₃ e d c ≡ false)
ascii_back c h = (λ d. ground arith, λ d e. ground arith)

trim_front : (x : Bytes) → Begins x → trim_by is_space₂ is_space₃ x ≡ x
trim_front [] h = absurd h
trim_front (c ∷ x) (s, a) =
    let (k, l) = ascii_front c a in trim_by-visible is_space₂ is_space₃ c x s k l

trim_back : (x : Bytes) → Begins x → trim_by (λ d c. is_space₂ c d) (λ e d c. is_space₃ c d e) x ≡ x
trim_back [] h = absurd h
trim_back (c ∷ x) (s, a) = let (k, l) = ascii_back c a in trim_by-visible _ _ c x s k l

pub trim_space-Solid : (x : Bytes) → Solid x → trim_space x ≡ x
unfolding trim_space
trim_space-Solid x h = rw (trim_front x h.front, trim_back (reverse x) h.back) (reverse-reverse x)

pub trim_space-before : (x : Bytes) → trim_space (b' ' ∷ x) ≡ trim_space x
unfolding trim_space
trim_space-before x = rw (trim_by-space is_space₂ is_space₃ x) refl

pub trim_space-after : (x : Bytes) → Solid x → trim_space (x ++ b' ' ∷ []) ≡ x
unfolding trim_space
trim_space-after x h =
    rw
      (
        trim_front (x ++ b' ' ∷ []) (Begins-append x (b' ' ∷ []) h.front),
        reverse-append x (b' ' ∷ []),
        trim_by-space (λ d c. is_space₂ c d) (λ e d c. is_space₃ c d e) (reverse x),
        trim_back (reverse x) h.back,
      )
      (reverse-reverse x)

ident_start-IsVisible : (c : ℕ) → is_ident_start c ≡ true → IsVisible c
unfolding is_ident_start
ident_start-IsVisible c h = ground arith

ident-Begins : (x : Bytes) → IsIdent x → Begins x
ident-Begins [] h = absurd h
ident-Begins (c ∷ x) (p, _) = ident_start-IsVisible c p

path-Begins : (first : Bytes) (more : List Bytes) → IsIdent first → Begins (path_text first more)
path-Begins first more h = Begins-append first (segments_text more) (ident-Begins first h)

body-Begins : (t : Target) (o : Operator) (v : Bytes) → IsTarget t → Begins (body_text t o v)
body-Begins (field first more) o v (p, _, _) =
    Begins-append (path_text first more) _ (path-Begins first more p)
body-Begins (any_of first more alias inner) o v (p, _, _, _, _) =
    Begins-append (path_text first more ++ codes "/any") _
      (Begins-append (path_text first more) (codes "/any") (path-Begins first more p))

comparison-back : (o : Operator) (v : Bytes) → Begins (reverse (comparison_text o v))
comparison-back o v =
    back-append (b' ' ∷ operator_text o) _
      (back-append (b' ' ∷ b'\'' ∷ escape v) (b'\'' ∷ []) (refl, refl))

close-back : (n : ℕ) → Begins (reverse (replicate (suc n) b')'))
close-back zero = (refl, refl)
close-back (suc n) = back-append (b')' ∷ []) (replicate (suc n) b')') (close-back n)

body-back : (t : Target) (o : Operator) (v : Bytes) → Begins (reverse (body_text t o v))
body-back (field first more) o v = back-append (path_text first more) _ (comparison-back o v)
body-back (any_of first more alias inner) o v =
    back-append (path_text first more ++ codes "/any") _ (
      back-append (b'(' ∷ alias) _ (
        back-append (b':' ∷ b'(' ∷ path_text alias inner) _
          (back-append (comparison_text o v) (replicate 2 b')') (close-back 1))))

clause-Solid :
    (n : ℕ) (t : Target) (o : Operator) (v : Bytes)
    → IsTarget t
    → Solid (replicate n b'(' ++ (body_text t o v ++ replicate n b')'))
clause-Solid zero t o v h =
    rw append-nil (record { front = body-Begins t o v h; back = body-back t o v })
clause-Solid (suc n) t o v h = record {
  front = (refl, refl);
  back = back-append (replicate (suc n) b'(') _ (back-append (body_text t o v) _ (close-back n));
}

pub clause_text-Solid : (c : Clause) → IsClause c → Solid (clause_text c)
clause_text-Solid c h = clause-Solid c.parens c.target c.operator c.value h.target

pub filters_text-Solid :
    (c : Clause) (cs : List Clause) → IsClause c → All IsClause cs → Solid (filters_text c cs)
filters_text-Solid c [] h hs = clause_text-Solid c h
filters_text-Solid c (d ∷ cs) h (k, hs) = record {
  front = Begins-append (clause_text c) _ (clause_text-Solid c h).front;
  back =
      back-append (clause_text c) _
        (back-append (codes " and ") (filters_text d cs) (filters_text-Solid d cs k hs).back);
}
