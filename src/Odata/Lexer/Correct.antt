-- ===== src/Odata/Lexer/Correct.antt =====
-- `lexClause` reads exactly the tokens of the grammar, and its fuel suffices.
use ileap_go.Common.{
  ℕ, zero, suc, ◌≤◌, ◌<◌, true, false, List, [], ◌∷◌, ◌++◌, ◌≡◌, refl, sym, ap, subst₂, ◌∙◌, ◌↔◌,
  inl, inr, Option, none, some, arith, length, Bytes, Bool-cases, Option-cases, append_assoc,
  append-nil,
}
use ileap_go.Odata.Lexer.{
  TokenKind, eof, ident, string, Token, is_ident_start, is_ident_part, is_blank, punctuation,
  read_string_literal, ident_span, lex_from, lex_clause,
}
use ileap_go.Odata.Lexer.Grammar.{
  token, StopsAt, is_quote, Quoted, close, doubled, plain, Spans, stop, part, Lexes, done, blank,
  mark, literal, name,
}

read_string_literal-Quoted :
    (text b : Bytes) {value next : Bytes}
    → Quoted text value next
    → read_string_literal b text ≡ some (b ++ value, next)
unfolding read_string_literal
read_string_literal-Quoted text b (close {next = []} e s) =
    rw (e, read_string_literal) (rw append-nil refl)
read_string_literal-Quoted text b (close {next = d ∷ next} e s) =
    rw (e, read_string_literal) (rw (s, read_string_literal) (rw append-nil refl))
read_string_literal-Quoted text b (doubled {p} {q} {rest} {value} {next} e f r) =
    rw (e, read_string_literal)
      (rw (f, read_string_literal)
        (read_string_literal-Quoted rest (b ++ b'\'' ∷ []) r ∙ rw append_assoc refl))
read_string_literal-Quoted text b (plain {rest = []} e r) = elim r [ ]
read_string_literal-Quoted text b (plain {c} {rest = d ∷ rest} e r) =
    rw (e, read_string_literal)
      (read_string_literal-Quoted (d ∷ rest) (b ++ c ∷ []) r ∙ rw append_assoc refl)

-- What a read literal is, with the bytes read before it.
abbrev Reads : Bytes → Bytes → Bytes → Bytes → Type 0
Reads b text value next = (v : Bytes) × (value ≡ b ++ v) × Quoted text v next

Reads-close :
    (b : Bytes) (c : ℕ) (next : Bytes)
    → is_quote c ≡ true
    → StopsAt is_quote next
    → Reads b (c ∷ next) b next
Reads-close b c next e s = ([], sym (append-nil b), close e s)

Reads-eq :
    (b text : Bytes) {value next value' next' : Bytes}
    → ◌≡◌ {A = Option (Bytes × Bytes)} (some (value, next)) (some (value', next'))
    → Reads b text value next
    → Reads b text value' next'
Reads-eq b text e r =
    let v : _ = ap (λ (p : Option (Bytes × Bytes)). elim p [ none ↦ [] | some (x, _) ↦ x ]) e in
    let n : _ = ap (λ (p : Option (Bytes × Bytes)). elim p [ none ↦ [] | some (_, x) ↦ x ]) e in
    subst₂ (Reads b text) v n r

Quoted-read_string_literal :
    (text b : Bytes) {value next : Bytes}
    → read_string_literal b text ≡ some (value, next)
    → Reads b text value next
unfolding read_string_literal
Quoted-read_string_literal [] b h = cc
Quoted-read_string_literal (c ∷ []) b {value} {next} h = elim (Bool-cases (is_quote c)) [
  | inl e ↦ Reads-eq b (c ∷ []) (rw (e, read_string_literal) at h) (Reads-close b c [] e tt)
  | inr e ↦ absurd (cc (rw (e, read_string_literal) at h))
]
Quoted-read_string_literal (c ∷ d ∷ rest) b {value} {next} h = elim (Bool-cases (is_quote c)) [
  | inr e ↦
      let (v, same, q) =
        Quoted-read_string_literal (d ∷ rest) (b ++ c ∷ []) (rw (e, read_string_literal) at h) in
      (c ∷ v, same ∙ append_assoc b (c ∷ []) v, plain e q)
  | inl e ↦ elim (Bool-cases (is_quote d)) [
    | inl f ↦
        let (v, same, q) =
          Quoted-read_string_literal rest (b ++ b'\'' ∷ []) (rw (e, f, read_string_literal) at h) in
        (b'\'' ∷ v, same ∙ append_assoc b (b'\'' ∷ []) v, doubled e f q)
    | inr f ↦
        Reads-eq b (c ∷ d ∷ rest) (rw (e, f, read_string_literal) at h)
          (Reads-close b c (d ∷ rest) e f)
  ]
]

ident_span-Spans :
    (text : Bytes) {run next : Bytes} → Spans text run next → ident_span text ≡ (run, next)
unfolding ident_span
ident_span-Spans text (stop {next = []} s) = refl
ident_span-Spans text (stop {next = c ∷ next} s) = rw (s, ident_span) refl
ident_span-Spans text (part {c} {rest} e r) = rw (e, ident_span) (rw (ident_span-Spans rest r) refl)

Spans-ident_span : (text : Bytes) → Spans text (ident_span text).0 (ident_span text).1
unfolding ident_span
Spans-ident_span [] = stop tt
Spans-ident_span (c ∷ rest) = elim (Bool-cases (is_ident_part c)) [
  | inl e ↦ rw (e, ident_span) (part e (Spans-ident_span rest))
  | inr e ↦ rw (e, ident_span) (stop e)
]

punctuation_not_blank : (c : ℕ) {k : TokenKind} → punctuation c ≡ some k → is_blank c ≡ false
unfolding punctuation
punctuation_not_blank c e = ground arith

quote_not_mark : (c : ℕ) → is_quote c ≡ true → (is_blank c ≡ false) × (punctuation c ≡ none)
unfolding punctuation
quote_not_mark c e = ground arith

ident_not_mark :
    (c : ℕ)
    → is_ident_start c ≡ true
    → (is_blank c ≡ false) × (punctuation c ≡ none) × (is_quote c ≡ false)
unfolding punctuation is_ident_start
ident_not_mark c e = ground arith

length-Quoted : {text value next : Bytes} → Quoted text value next → length next < length text
length-Quoted (close e s) = omega arith
length-Quoted (doubled e f q) = omega (arith, length-Quoted q)
length-Quoted (plain e q) = omega (arith, length-Quoted q)

length-Spans : {text run next : Bytes} → Spans text run next → length next ≤ length text
length-Spans (stop s) = omega arith
length-Spans (part e r) = omega (arith, length-Spans r)

lex_from-Lexes :
    (fuel : ℕ) (tokens : List Token) {input : Bytes} {ts : List Token}
    → Lexes input ts
    → length input < fuel
    → lex_from fuel tokens input ≡ some (tokens ++ ts)
unfolding lex_from
lex_from-Lexes zero tokens l h = absurd (omega arith)
lex_from-Lexes (suc fuel) tokens done h = refl
lex_from-Lexes (suc fuel) tokens (blank e l) h =
    rw (e, lex_from) (lex_from-Lexes fuel tokens l (omega arith))
lex_from-Lexes (suc fuel) tokens (mark {c} e l) h =
    rw (punctuation_not_blank c e, lex_from)
      (rw (e, lex_from) (lex_from-Lexes fuel _ l (omega arith) ∙ rw append_assoc refl))
lex_from-Lexes (suc fuel) tokens (literal {q} {rest} e r l) h =
    let (not_blank, not_mark) = quote_not_mark q e in
    rw (not_blank, lex_from)
      (rw (not_mark, lex_from)
        (rw (e, lex_from)
          (rw (read_string_literal-Quoted rest [] r, lex_from)
            (lex_from-Lexes fuel _ l (omega (arith, length-Quoted r)) ∙ rw append_assoc refl))))
lex_from-Lexes (suc fuel) tokens (name {c} {rest} e r l) h =
    let (not_blank, not_mark, not_quote) = ident_not_mark c e in
    rw (not_blank, lex_from)
      (rw (not_mark, lex_from)
        (rw (not_quote, lex_from)
          (rw (e, lex_from)
            (rw (ident_span-Spans rest r, lex_from)
              (lex_from-Lexes fuel _ l (omega (arith, length-Spans r)) ∙ rw append_assoc refl)))))

-- What was read behind `tokens`.
abbrev Extends : List Token → Bytes → List Token → Type 0
Extends tokens input out = (ts : List Token) × (out ≡ tokens ++ ts) × Lexes input ts

Lexes-lex_from :
    (fuel : ℕ) (tokens : List Token) (input : Bytes) {out : List Token}
    → lex_from fuel tokens input ≡ some out
    → Extends tokens input out
unfolding lex_from
Lexes-lex_from zero tokens input e = cc
Lexes-lex_from (suc fuel) tokens [] e = (token eof [] ∷ [], cc, done)
Lexes-lex_from (suc fuel) tokens (c ∷ rest) e = elim (Bool-cases (is_blank c)) [
  | inl b ↦
      let (ts, same, l) = Lexes-lex_from fuel tokens rest (rw (b, lex_from) at e) in
      (ts, same, blank b l)
  | inr b ↦ elim (Option-cases (punctuation c)) [
    | inr (k, m) ↦
        let (ts, same, l) = Lexes-lex_from fuel _ rest (rw (b, m, lex_from) at e) in
        (token k (c ∷ []) ∷ ts, same ∙ append_assoc tokens _ ts, mark m l)
    | inl m ↦ elim (Bool-cases (is_quote c)) [
      | inl q ↦ elim (Option-cases (read_string_literal [] rest)) [
        | inl r ↦ absurd (cc (rw (b, m, q, r, lex_from) at e))
        | inr ((value, next), r) ↦
            let (v, same_v, quoted) = Quoted-read_string_literal rest [] r in
            let (ts, same, l) = Lexes-lex_from fuel _ next (rw (b, m, q, r, lex_from) at e) in
            (
              token string value ∷ ts,
              same ∙ append_assoc tokens _ ts,
              literal q (rw same_v quoted) l,
            )
      ]
      | inr q ↦ elim (Bool-cases (is_ident_start c)) [
        | inl s ↦
            let (ts, same, l) =
              Lexes-lex_from fuel _ (ident_span rest).1 (rw (b, m, q, s, lex_from) at e) in
            (
              token ident (c ∷ (ident_span rest).0) ∷ ts,
              same ∙ append_assoc tokens _ ts,
              name s (Spans-ident_span rest) l,
            )
        | inr s ↦ absurd (cc (rw (b, m, q, s, lex_from) at e))
      ]
    ]
  ]
]

-- `lexClause` succeeds with a list of tokens exactly when the grammar gives the text that list;
-- its loop always comes to an end.
pub lex_clause_iff :
    (input : Bytes) (ts : List Token) → (lex_clause input ≡ some ts) ↔ Lexes input ts
unfolding lex_clause
lex_clause_iff input ts = (
  (λ e. let (ts', same, l) = Lexes-lex_from (suc (length input)) [] input e in rw same l),
  (λ l. lex_from-Lexes (suc (length input)) [] l (omega arith)),
)
