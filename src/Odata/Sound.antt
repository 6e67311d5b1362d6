-- ===== src/Odata/Sound.antt =====
-- internal/odata/parse.go, `ParseFilter`, on every text.
use ileap_go.Common.{List, [], ◌∷◌, ◌≡◌, refl, Option-cases, inl, inr, All, Bytes, trim_space}
use ileap_go.Odata.Split.{split_top_level_and_clauses}
use ileap_go.Odata.Parser.{parse_clause}
use ileap_go.Odata.Parser.Specified.{HasOperator, parse_clause-HasOperator}
use ileap_go.Odata.Parse.{parse_clauses, parse_filter}

-- What the loop does with a clause whose trimmed text is `t`.
trimmed-HasOperator :
    (t clause : Bytes) (clauses : List Bytes)
    → trim_space clause ≡ t
    → All HasOperator (parse_clauses clauses)
    → All HasOperator (parse_clauses (clause ∷ clauses))
unfolding parse_clauses
trimmed-HasOperator [] clause clauses e h = rw (e, parse_clauses) h
trimmed-HasOperator (c ∷ t) clause clauses e h = elim (Option-cases (parse_clause (c ∷ t))) [
  | inl n ↦ rw (e, n, parse_clauses) h
  | inr (f, p) ↦ rw (e, p, parse_clauses) (parse_clause-HasOperator (c ∷ t) f p, h)
]

parse_clauses-HasOperator : (clauses : List Bytes) → All HasOperator (parse_clauses clauses)
unfolding parse_clauses
parse_clauses-HasOperator [] = tt
parse_clauses-HasOperator (clause ∷ clauses) =
    trimmed-HasOperator (trim_space clause) clause clauses refl (parse_clauses-HasOperator clauses)

text-HasOperator : (t raw : Bytes) → trim_space raw ≡ t → All HasOperator (parse_filter raw)
unfolding parse_filter
text-HasOperator [] raw e = rw (e, parse_filter) tt
text-HasOperator (c ∷ t) raw e =
    rw (e, parse_filter) (parse_clauses-HasOperator (split_top_level_and_clauses (c ∷ t)))

-- Whatever the text, every filter that `ParseFilter` gives has an operator: the value
-- OPERATOR_UNSPECIFIED is never among them.
pub parse_filter-HasOperator : (raw : Bytes) → All HasOperator (parse_filter raw)
parse_filter-HasOperator raw = text-HasOperator (trim_space raw) raw refl
