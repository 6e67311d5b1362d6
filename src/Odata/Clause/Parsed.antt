-- ===== src/Odata/Clause/Parsed.antt =====
-- Parsing the tokens of a clause gives the filter that the clause means.
use ileap_go.Common.{
  ℕ, zero, suc, ◌+◌, true, false, List, [], ◌∷◌, ◌++◌, ◌≡◌, ◌≢◌, refl, ap, ◌∙◌, Option, none, some,
  arith, All, Bytes, codes, equal_fold, equal_fold_refl, join, append_assoc, append-nil,
}
use ileap_go.Filter.{Operator, unspecified, eq, ne, lt, le, gt, ge, Filter}
use ileap_go.Odata.Lexer.{eof, ident, string, slash}
use ileap_go.Odata.Lexer.Grammar.{token}
use ileap_go.Odata.Parser.{
  Tokens, match_kind, match_keyword, match_ident, match_operator, match_string, path_loop,
  parse_path, parse_simple, parse_any_eq, consume_closing, open_parens, closed, parse, ◌>>=◌,
  Parser,
}
use ileap_go.Odata.Parser.NoOpen.{NoOpen, parse_any_eq-NoOpen}
use ileap_go.Odata.Clause.{
  Target, field, any_of, Clause, operator_text, target_path, clause_filter, NotAny, IsTarget,
  IsClause,
}
use ileap_go.Odata.Clause.Lexed.{
  repeat_tokens, segment_tokens, open_token, close_token, body_tokens, clause_tokens,
}

open_parens-repeat_tokens :
    (m n : ℕ) (x : Bytes) (ts : Tokens)
    → open_parens m (repeat_tokens n open_token (token ident x ∷ ts)) ≡ (m + n, token ident x ∷ ts)
unfolding open_parens
open_parens-repeat_tokens m zero x ts = ap (λ k. (k, token ident x ∷ ts)) (omega arith)
open_parens-repeat_tokens m (suc n) x ts =
    open_parens-repeat_tokens (suc m) n x ts ∙ ap (λ k. (k, token ident x ∷ ts)) (omega arith)

-- A path ends in front of an identifier.
path_loop-ident :
    (segments xs : List Bytes) (y : Bytes) (ts : Tokens)
    → path_loop false segments (segment_tokens xs (token ident y ∷ ts))
      ≡ some (segments ++ xs, token ident y ∷ ts)
unfolding path_loop
path_loop-ident segments [] y [] = rw append-nil
path_loop-ident segments [] y (t ∷ ts) = rw append-nil
path_loop-ident segments (x ∷ xs) y ts =
    path_loop-ident (segments ++ x ∷ []) xs y ts ∙ rw append_assoc

-- The path of a collection ends in front of `/any`.
path_loop-any :
    (segments xs : List Bytes) (ts : Tokens)
    → All NotAny xs
    → path_loop true segments
        (segment_tokens xs (token slash (codes "/") ∷ token ident (codes "any") ∷ ts))
      ≡ some (segments ++ xs, token slash (codes "/") ∷ token ident (codes "any") ∷ ts)
unfolding path_loop equal_fold
path_loop-any segments [] ts h = rw append-nil
path_loop-any segments (x ∷ xs) ts (p, h) =
    rw (p, path_loop) (path_loop-any (segments ++ x ∷ []) xs ts h ∙ rw append_assoc)

parse_path-ident :
    (first : Bytes) (more : List Bytes) (y : Bytes) (ts : Tokens)
    → parse_path false (token ident first ∷ segment_tokens more (token ident y ∷ ts))
      ≡ some (first ∷ more, token ident y ∷ ts)
unfolding parse_path match_ident
parse_path-ident first more y ts = path_loop-ident (first ∷ []) more y ts

parse_path-any :
    (first : Bytes) (more : List Bytes) (ts : Tokens)
    → All NotAny more
    → parse_path true (
        token ident first
        ∷ segment_tokens more (token slash (codes "/") ∷ token ident (codes "any") ∷ ts))
      ≡ some (first ∷ more, token slash (codes "/") ∷ token ident (codes "any") ∷ ts)
unfolding parse_path match_ident
parse_path-any first more ts h = path_loop-any (first ∷ []) more ts h

match_operator-text :
    (o : Operator) (ts : Tokens)
    → o ≢ unspecified
    → match_operator (token ident (operator_text o) ∷ ts) ≡ some (o, ts)
unfolding match_operator
match_operator-text unspecified ts h = absurd (h refl)
match_operator-text eq ts h = refl
match_operator-text ne ts h = refl
match_operator-text lt ts h = refl
match_operator-text le ts h = refl
match_operator-text gt ts h = refl
match_operator-text ge ts h = refl

parse_simple-field :
    (first : Bytes) (more : List Bytes) (o : Operator) (v : Bytes) (ts : Tokens)
    → o ≢ unspecified
    → parse_simple (body_tokens (field first more) o v ts)
      ≡ some (record { field_path = join (codes ".") (first ∷ more); operator = o; value = v }, ts)
unfolding parse_simple match_string
parse_simple-field first more o v ts h =
    rw (parse_path-ident first more (operator_text o) (token string v ∷ ts), parse_simple, ◌>>=◌)
      (rw (match_operator-text o (token string v ∷ ts) h, parse_simple, ◌>>=◌) refl)

consume_closing-repeat_tokens :
    (n : ℕ) (ts : Tokens) → consume_closing n (repeat_tokens n close_token ts) ≡ some (tt, ts)
unfolding consume_closing match_kind
consume_closing-repeat_tokens zero ts = refl
consume_closing-repeat_tokens (suc n) ts = consume_closing-repeat_tokens n ts

closed-some :
    (body : Parser Filter) (n : ℕ) (mark : Tokens) (f : Filter)
    → body mark ≡ some (f, repeat_tokens n close_token (token eof [] ∷ []))
    → closed body n mark ≡ some f
unfolding closed
closed-some body n mark f e =
    rw (e, closed) (rw (consume_closing-repeat_tokens n (token eof [] ∷ []), closed) refl)

parse_any_eq-any_of :
    (first : Bytes) (more : List Bytes) (alias : Bytes) (inner : List Bytes) (o : Operator)
    (v : Bytes) (ts : Tokens)
    → All NotAny more
    → o ≢ unspecified
    → parse_any_eq (body_tokens (any_of first more alias inner) o v ts)
      ≡ some (
        record {
          field_path = join (codes ".") (target_path (any_of first more alias inner));
          operator = o;
          value = v;
        },
        ts,
      )
unfolding parse_any_eq match_ident match_string match_kind match_keyword
parse_any_eq-any_of first more alias inner o v ts h ho =
    rw (parse_path-any first more _ h, parse_any_eq, ◌>>=◌)
      (rw (parse_path-ident alias inner (operator_text o) _, parse_any_eq, ◌>>=◌)
        (rw (equal_fold_refl alias, parse_any_eq, ◌>>=◌)
          (rw (match_operator-text o _ ho, parse_any_eq, ◌>>=◌) refl)))

segment_tokens-NoOpen : (xs : List Bytes) (ts : Tokens) → NoOpen ts → NoOpen (segment_tokens xs ts)
segment_tokens-NoOpen [] ts h = h
segment_tokens-NoOpen (x ∷ xs) ts h = (refl, (refl, segment_tokens-NoOpen xs ts h))

close-NoOpen : (n : ℕ) → NoOpen (repeat_tokens n close_token (token eof [] ∷ []))
close-NoOpen zero = (refl, tt)
close-NoOpen (suc n) = (refl, close-NoOpen n)

closed-none :
    (body : Parser Filter) (n : ℕ) (mark : Tokens) → body mark ≡ none → closed body n mark ≡ none
unfolding closed
closed-none body n mark e = rw (e, closed) refl

-- What `parse` does behind the opening parentheses.
abbrev attempts : ℕ × Tokens → Option Filter
attempts (n, mark) = elim (closed parse_any_eq n mark) [
  | some filter ↦ some filter
  | none ↦ closed parse_simple n mark
]

parse_of_any :
    (ts : Tokens) {n : ℕ} {mark : Tokens} {f : Filter}
    → open_parens 0 ts ≡ (n, mark)
    → closed parse_any_eq n mark ≡ some f
    → parse ts ≡ some f
unfolding parse
parse_of_any ts e h = ap attempts e ∙ rw (h, attempts) refl

parse_of_simple :
    (ts : Tokens) {n : ℕ} {mark : Tokens} {f : Filter}
    → open_parens 0 ts ≡ (n, mark)
    → closed parse_any_eq n mark ≡ none
    → closed parse_simple n mark ≡ some f
    → parse ts ≡ some f
unfolding parse
parse_of_simple ts e h k = ap attempts e ∙ rw (h, attempts) k

opened :
    (n : ℕ) (x : Bytes) (ts : Tokens)
    → open_parens 0 (repeat_tokens n open_token (token ident x ∷ ts)) ≡ (n, token ident x ∷ ts)
opened n x ts = open_parens-repeat_tokens 0 n x ts ∙ ap (λ k. (k, token ident x ∷ ts)) (omega arith)

abbrev closing : ℕ → Tokens
closing n = repeat_tokens n close_token (token eof [] ∷ [])

parse-body :
    (n : ℕ) (t : Target) (o : Operator) (v : Bytes)
    → IsTarget t
    → o ≢ unspecified
    → parse (repeat_tokens n open_token (body_tokens t o v (closing n)))
      ≡ some (clause_filter (record { parens = n; target = t; operator = o; value = v }))
parse-body n (field first more) o v ht ho =
    let body = body_tokens (field first more) o v (closing n) in
    parse_of_simple (repeat_tokens n open_token body) (opened n first _)
      (closed-none parse_any_eq n body (
        parse_any_eq-NoOpen body
          (refl, segment_tokens-NoOpen more _ (refl, (refl, close-NoOpen n)))))
      (closed-some parse_simple n body _ (parse_simple-field first more o v (closing n) ho))
parse-body n (any_of first more alias inner) o v ht ho =
    let body = body_tokens (any_of first more alias inner) o v (closing n) in
    parse_of_any (repeat_tokens n open_token body) (opened n first _) (
      closed-some parse_any_eq n body _
        (parse_any_eq-any_of first more alias inner o v (closing n) ht.2 ho))

-- The tokens of a clause parse to the filter that it means.
pub parse-clause_tokens :
    (c : Clause) → IsClause c → parse (clause_tokens c) ≡ some (clause_filter c)
parse-clause_tokens c h = parse-body c.parens c.target c.operator c.value h.target h.operator
