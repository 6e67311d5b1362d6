-- ===== src/Odata/Clause/Lexed.antt =====
-- The tokens of a clause's text.
use ileap_go.Common.{
  ℕ, zero, suc, true, List, [], ◌∷◌, ◌++◌, ◌≡◌, ◌≢◌, refl, subst, inl, inr, arith, Bool-cases, All,
  Bytes, codes, append_assoc, append-nil, replicate,
}
use ileap_go.Filter.{Operator, unspecified, eq, ne, lt, le, gt, ge}
use ileap_go.Odata.Lexer.{
  eof, ident, string, slash, l_paren, r_paren, colon, Token, is_ident_part, punctuation,
}
use ileap_go.Odata.Lexer.Grammar.{
  token, StopsAt, is_quote, Quoted, close, doubled, plain, Spans, stop, part, Lexes, done, blank,
  mark, literal, name,
}
use ileap_go.Odata.Quote.{escape}
use ileap_go.Odata.Clause.{
  Target, field, any_of, Clause, segments_text, path_text, operator_text, comparison_text,
  body_text, clause_text, IsIdent, IsTarget, IsClause,
}

abbrev Tokens : Type 0
Tokens = List Token

abbrev pub repeat_tokens : ℕ → Token → Tokens → Tokens
repeat_tokens zero t ts = ts
repeat_tokens (suc n) t ts = t ∷ repeat_tokens n t ts

abbrev pub segment_tokens : List Bytes → Tokens → Tokens
segment_tokens [] ts = ts
segment_tokens (x ∷ xs) ts = token slash (codes "/") ∷ token ident x ∷ segment_tokens xs ts

abbrev pub open_token : Token
open_token = token l_paren (codes "(")

abbrev pub close_token : Token
close_token = token r_paren (codes ")")

abbrev pub comparison_tokens : Operator → Bytes → Tokens → Tokens
comparison_tokens o v ts = token ident (operator_text o) ∷ token string v ∷ ts

abbrev pub body_tokens : Target → Operator → Bytes → Tokens → Tokens
body_tokens (field first more) o v ts =
    token ident first ∷ segment_tokens more (comparison_tokens o v ts)
body_tokens (any_of first more alias inner) o v ts =
    token ident first
    ∷ segment_tokens more (
        token slash (codes "/")
        ∷ token ident (codes "any")
        ∷ open_token
        ∷ token ident alias
        ∷ token colon (codes ":")
        ∷ open_token
        ∷ token ident alias
        ∷ segment_tokens inner (comparison_tokens o v (close_token ∷ close_token ∷ ts)))

abbrev pub clause_tokens : Clause → Tokens
clause_tokens c = repeat_tokens c.parens open_token (
    body_tokens c.target c.operator c.value
      (repeat_tokens c.parens close_token (token eof [] ∷ [])))

Spans-append :
    (cs : Bytes) {rest : Bytes}
    → All (λ d. is_ident_part d ≡ true) cs
    → StopsAt is_ident_part rest
    → Spans (cs ++ rest) cs rest
Spans-append [] h s = stop s
Spans-append (c ∷ cs) (p, h) s = part p (Spans-append cs h s)

Lexes-ident :
    (x : Bytes) {rest : Bytes} {ts : Tokens}
    → IsIdent x
    → StopsAt is_ident_part rest
    → Lexes rest ts
    → Lexes (x ++ rest) (token ident x ∷ ts)
Lexes-ident [] h s l = absurd h
Lexes-ident (c ∷ cs) (p, h) s l = name p (Spans-append cs h s) l

segments_stop :
    (xs : List Bytes) (rest : Bytes)
    → StopsAt is_ident_part rest
    → StopsAt is_ident_part (segments_text xs ++ rest)
unfolding is_ident_part
segments_stop [] rest s = s
segments_stop (x ∷ xs) rest s = refl

Lexes-segments :
    (xs : List Bytes) {rest : Bytes} {ts : Tokens}
    → All IsIdent xs
    → StopsAt is_ident_part rest
    → Lexes rest ts
    → Lexes (segments_text xs ++ rest) (segment_tokens xs ts)
unfolding punctuation
Lexes-segments [] h s l = l
Lexes-segments (x ∷ xs) {rest} (p, h) s l =
    mark refl
      (rw append_assoc (Lexes-ident x p (segments_stop xs rest s) (Lexes-segments xs h s l)))

Lexes-path :
    (first : Bytes) (more : List Bytes) {rest : Bytes} {ts : Tokens}
    → IsIdent first
    → All IsIdent more
    → StopsAt is_ident_part rest
    → Lexes rest ts
    → Lexes (path_text first more ++ rest) (token ident first ∷ segment_tokens more ts)
Lexes-path first more {rest} p h s l =
    rw append_assoc (Lexes-ident first p (segments_stop more rest s) (Lexes-segments more h s l))

Quoted-escape :
    (v : Bytes) {rest : Bytes} → StopsAt is_quote rest → Quoted (escape v ++ b'\'' ∷ rest) v rest
Quoted-escape [] s = close refl s
Quoted-escape (c ∷ cs) {rest} s = elim (Bool-cases (is_quote c)) [
  | inl e ↦
      let same : b'\'' ≡ c = ground arith in
      subst (λ x. Quoted (escape (x ∷ cs) ++ b'\'' ∷ rest) (x ∷ cs) rest) same
        (doubled refl refl (Quoted-escape cs s))
  | inr e ↦ rw e (plain e (Quoted-escape cs s))
]

operator_text-IsIdent : (o : Operator) → o ≢ unspecified → IsIdent (operator_text o)
unfolding is_ident_part
operator_text-IsIdent unspecified h = absurd (h refl)
operator_text-IsIdent eq h = (refl, (refl, tt))
operator_text-IsIdent ne h = (refl, (refl, tt))
operator_text-IsIdent lt h = (refl, (refl, tt))
operator_text-IsIdent le h = (refl, (refl, tt))
operator_text-IsIdent gt h = (refl, (refl, tt))
operator_text-IsIdent ge h = (refl, (refl, tt))

Lexes-comparison :
    (o : Operator) (v : Bytes) {rest : Bytes} {ts : Tokens}
    → o ≢ unspecified
    → StopsAt is_quote rest
    → Lexes rest ts
    → Lexes (comparison_text o v ++ rest) (comparison_tokens o v ts)
unfolding is_ident_part
Lexes-comparison o v h s l = blank refl (
    rw append_assoc (
      Lexes-ident (operator_text o) (operator_text-IsIdent o h) refl
        (blank refl (literal refl (rw append_assoc (Quoted-escape v s)) l))))

Lexes-open :
    (n : ℕ) {rest : Bytes} {ts : Tokens}
    → Lexes rest ts
    → Lexes (replicate n b'(' ++ rest) (repeat_tokens n open_token ts)
unfolding punctuation
Lexes-open zero l = l
Lexes-open (suc n) l = mark refl (Lexes-open n l)

Lexes-close :
    (n : ℕ) {rest : Bytes} {ts : Tokens}
    → Lexes rest ts
    → Lexes (replicate n b')' ++ rest) (repeat_tokens n close_token ts)
unfolding punctuation
Lexes-close zero l = l
Lexes-close (suc n) l = mark refl (Lexes-close n l)

close_stop : (n : ℕ) → StopsAt is_quote (replicate n b')')
close_stop zero = tt
close_stop (suc n) = refl

Lexes-body :
    (t : Target) (o : Operator) (v : Bytes) {rest : Bytes} {ts : Tokens}
    → IsTarget t
    → o ≢ unspecified
    → StopsAt is_quote rest
    → Lexes rest ts
    → Lexes (body_text t o v ++ rest) (body_tokens t o v ts)
unfolding is_ident_part punctuation
Lexes-body (field first more) o v (p, h, _) ho s l =
    rw append_assoc (Lexes-path first more p h refl (Lexes-comparison o v ho s l))
Lexes-body (any_of first more alias inner) o v {rest} (p, h, _, a, i) ho s l = rw append_assoc (
    rw append_assoc (
      Lexes-path first more p h refl (
        mark refl (
          Lexes-ident (codes "any") (refl, (refl, (refl, tt))) refl
            (mark refl (
              rw append_assoc (
                Lexes-ident alias a refl (
                  mark refl (
                    mark refl (
                      rw append_assoc (
                        Lexes-path alias inner a i refl (
                          rw append_assoc
                            (Lexes-comparison o v ho refl (mark refl (mark refl l)))))))))))))))

-- The text of a clause lexes to its tokens.
pub Lexes-clause : (c : Clause) → IsClause c → Lexes (clause_text c) (clause_tokens c)
Lexes-clause c h = Lexes-open c.parens (
    Lexes-body c.target c.operator c.value h.target h.operator (close_stop c.parens)
      (rw append-nil at (Lexes-close c.parens done)))
