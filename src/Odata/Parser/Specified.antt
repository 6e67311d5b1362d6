-- ===== src/Odata/Parser/Specified.antt =====
-- internal/odata/parse.go: every filter that `ParseFilter` gives has one of the six operators.
use ileap_go.Common.{
  true, false, ◌≡◌, ◌≢◌, Option, none, some, Option-cases, inl, inr, Bytes, codes, if_elim,
  Bool-cases, not, ℕ, subst, equal_fold,
}
use ileap_go.Filter.{Operator, unspecified, Filter}
use ileap_go.Odata.Lexer.{ident, slash, l_paren, r_paren, colon, lex_clause}
use ileap_go.Odata.Parser.{
  Tokens, Parser, ◌>>=◌, ◌>>◌, succeed, operator_from_token, match_operator, parse_simple,
  parse_any_eq, consume_closing, open_parens, at_end, closed, parse, parse_clause, peek, same_kind,
  parse_path, match_kind, match_keyword, match_ident, match_string, require, starts_with_alias,
}

-- Whatever a parser gives satisfies `P`.
pub record Yields {A : Type 0} (P : A → Type 0) (m : Parser A) : Type 0 where
  pub given : (ts : Tokens) (a : A) (rest : Tokens) → m ts ≡ some (a, rest) → P a

abbrev IsSpecified : Operator → Type 0
IsSpecified o = o ≢ unspecified

abbrev pub HasOperator : Filter → Type 0
HasOperator f = f.operator ≢ unspecified

Yields-bind :
    {A B : Type 0} {Q : A → Type 0} {P : B → Type 0} {m : Parser A} {k : A → Parser B}
    → Yields Q m
    → ((a : A) → Q a → Yields P (k a))
    → Yields P (m >>= k)
Yields-bind {m = m} h j = record {
  given = λ ts b rest e. elim (Option-cases (m ts)) [
    | inl n ↦ absurd (cc (rw (n, ◌>>=◌) at e))
    | inr ((a, ts'), x) ↦ (j a (h.given ts a ts' x)).given ts' b rest (rw (x, ◌>>=◌) at e)
  ];
}

Yields-any : {A : Type 0} (m : Parser A) → Yields (λ a. Unit {0}) m
Yields-any m = record { given = λ ts a rest e. tt }

Yields-then :
    {A B : Type 0} {P : B → Type 0} (m : Parser A) {k : A → Parser B}
    → ((a : A) → Yields P (k a))
    → Yields P (m >>= k)
Yields-then m h = Yields-bind (Yields-any m) (λ a _. h a)

Yields-succeed : {A : Type 0} {P : A → Type 0} (a : A) → P a → Yields P (succeed a)
Yields-succeed {P = P} a p = record {
  given = λ ts b rest e. let same : a ≡ b = cc e in subst P same p;
}

-- What `operatorFromToken` gives.
Chosen : Option Operator → Type 0
Chosen none = Unit {0}
Chosen (some o) = IsSpecified o

operator_from_token-Chosen : (raw : Bytes) → Chosen (operator_from_token raw)
unfolding operator_from_token Chosen
operator_from_token-Chosen raw =
    if_elim Chosen (equal_fold raw (codes "eq")) (λ _ e. cc e)
      (λ _.
        if_elim Chosen (equal_fold raw (codes "ne")) (λ _ e. cc e)
          (λ _.
            if_elim Chosen (equal_fold raw (codes "lt")) (λ _ e. cc e)
              (λ _.
                if_elim Chosen (equal_fold raw (codes "le")) (λ _ e. cc e)
                  (λ _.
                    if_elim Chosen (equal_fold raw (codes "gt")) (λ _ e. cc e)
                      (λ _.
                        if_elim Chosen (equal_fold raw (codes "ge")) (λ _ e. cc e) (λ _. tt))))))

match_operator-Yields : Yields IsSpecified match_operator
unfolding match_operator Chosen
match_operator-Yields = record {
  given = λ ts o rest e. elim (Bool-cases (not (same_kind (peek ts).kind ident))) [
    | inl b ↦ absurd (cc (rw (b, match_operator) at e))
    | inr b ↦ elim (Option-cases (operator_from_token (peek ts).text)) [
      | inl n ↦ absurd (cc (rw (b, n, match_operator) at e))
      | inr (o', x) ↦
          let same : o' ≡ o = cc (rw (b, x, match_operator) at e) in
          subst IsSpecified same (rw x at (operator_from_token-Chosen (peek ts).text))
    ]
  ];
}

parse_simple-Yields : Yields HasOperator parse_simple
unfolding parse_simple
parse_simple-Yields = Yields-then (parse_path false) (λ path.
    Yields-bind match_operator-Yields (λ o h. Yields-then match_string (λ v. Yields-succeed _ h)))

parse_any_eq-Yields : Yields HasOperator parse_any_eq
unfolding parse_any_eq
parse_any_eq-Yields = Yields-then (parse_path true) (λ collection.
    Yields-then (match_kind slash) (λ _. Yields-then (match_keyword (codes "any")) (λ _.
      Yields-then (match_kind l_paren) (λ _. Yields-then match_ident (λ alias.
        Yields-then (match_kind colon) (λ _. Yields-then (match_kind l_paren) (λ _.
          Yields-then (parse_path false) (λ inner.
            Yields-then (require (starts_with_alias alias.text inner)) (λ _.
              Yields-bind match_operator-Yields (λ o h. Yields-then match_string (λ v.
                Yields-then (match_kind r_paren)
                  (λ _. Yields-then (match_kind r_paren) (λ _. Yields-succeed _ h)))))))))))))

-- What a parser of filters gives, if it gives one.
Good : Option Filter → Type 0
Good none = Unit {0}
Good (some f) = HasOperator f

closed-Good :
    (body : Parser Filter) (n : ℕ) (ts : Tokens) → Yields HasOperator body → Good (closed body n ts)
unfolding closed Good
closed-Good body n ts h =
    elim (Option-cases ((do filter ← body; consume_closing n; succeed filter) ts)) [
      | inl x ↦ rw (x, closed) tt
      | inr ((f, rest), x) ↦
          rw (x, closed)
            (if_elim Good (at_end rest)
              (λ _.
                (Yields-bind h
                    (λ f p. Yields-then (consume_closing n) (λ _. Yields-succeed f p))).given
                  ts f rest x)
              (λ _. tt))
    ]

parse-Good : (ts : Tokens) → Good (parse ts)
unfolding parse Good
parse-Good ts =
    let (n, mark) = open_parens 0 ts in
    elim (Option-cases (closed parse_any_eq n mark)) [
      | inr (f, x) ↦ rw (x, parse) (rw x at (closed-Good parse_any_eq n mark parse_any_eq-Yields))
      | inl x ↦ rw (x, parse) (closed-Good parse_simple n mark parse_simple-Yields)
    ]

pub parse_clause-HasOperator :
    (clause : Bytes) (f : Filter) → parse_clause clause ≡ some f → HasOperator f
unfolding parse_clause Good
parse_clause-HasOperator clause f e = elim (Option-cases (lex_clause clause)) [
  | inl n ↦ absurd (cc (rw (n, parse_clause) at e))
  | inr (tokens, x) ↦ rw (rw (x, parse_clause) at e) at (parse-Good tokens)
]
