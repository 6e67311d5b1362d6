-- ===== src/Odata/Parse.antt =====
-- internal/odata/parse.go, `ParseFilter`.
use ileap_go.Common.{List, [], ◌∷◌, none, some, Bytes, trim_space}
use ileap_go.Filter.{Filter}
use ileap_go.Odata.Split.{split_top_level_and_clauses}
use ileap_go.Odata.Parser.{parse_clause}

-- The loop over the clauses: an empty clause, or one that does not parse, is passed over.
unfoldable pub parse_clauses : List Bytes → List Filter
unfolding parse_clause trim_space
parse_clauses [] = []
parse_clauses (clause ∷ clauses) = elim (trim_space clause) [
  | [] ↦ parse_clauses clauses
  | c ∷ cs ↦ elim (parse_clause (c ∷ cs)) [
    | none ↦ parse_clauses clauses
    | some filter ↦ filter ∷ parse_clauses clauses
  ]
]

unfoldable pub parse_filter : Bytes → List Filter
unfolding parse_clauses split_top_level_and_clauses
parse_filter raw = elim (trim_space raw) [
  | [] ↦ []
  | c ∷ cs ↦ parse_clauses (split_top_level_and_clauses (c ∷ cs))
]
