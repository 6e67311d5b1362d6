-- ===== src/Odata/RoundTrip.antt =====
-- internal/odata/parse.go, `ParseFilter`, on the text of filters.
use ileap_go.Common.{
  ℕ, false, List, [], ◌∷◌, ◌++◌, ◌≡◌, refl, sym, ap, ◌∙◌, map, some, append-nil, append_assoc,
  trim_space, Bytes, codes, All,
}
use ileap_go.Filter.{Filter}
use ileap_go.Odata.Split.{Scan, scan, split_top_level_and_clauses}
use ileap_go.Odata.Split.Steps.{at, scan-and}
use ileap_go.Odata.Lexer.Correct.{lex_clause_iff}
use ileap_go.Odata.Parser.{parse_clause}
use ileap_go.Odata.Parse.{parse_clauses, parse_filter}
use ileap_go.Odata.Clause.{Clause, clause_text, filters_text, clause_filter, IsClause}
use ileap_go.Odata.Clause.Lexed.{clause_tokens, Lexes-clause}
use ileap_go.Odata.Clause.Parsed.{parse-clause_tokens}
use ileap_go.Odata.Clause.Scanned.{Moves-clause}
use ileap_go.Odata.Clause.Solid.{
  Begins, trim_space-Solid, trim_space-before, trim_space-after, clause_text-Solid,
  filters_text-Solid,
}

-- The text of one clause is parsed to the filter that it means; the names of the clause are
-- identifiers, a field is not the word and, behind the first name of a collection no name is the
-- word any, and there is an operator.
pub parse_clause-clause_text :
    (c : Clause) → IsClause c → parse_clause (clause_text c) ≡ some (clause_filter c)
unfolding parse_clause
parse_clause-clause_text c h =
    rw ((lex_clause_iff (clause_text c) (clause_tokens c)).1 (Lexes-clause c h), parse_clause)
      (parse-clause_tokens c h)

-- What the splitter cuts the text of filters into, when it has read `lead` of the first clause.
abbrev padded : Bytes → Clause → List Clause → List Bytes
padded lead c [] = (lead ++ clause_text c) ∷ []
padded lead c (d ∷ cs) = ((lead ++ clause_text c) ++ b' ' ∷ []) ∷ padded (b' ' ∷ []) d cs

abbrev clauses_of : Scan → List Bytes
clauses_of s = s.clauses ++ s.clause ∷ []

scan-filters_text :
    (cs : List Clause) (c : Clause) (read : List Bytes) (lead : Bytes) (before : ℕ)
    → IsClause c
    → All IsClause cs
    → clauses_of (scan (at read lead before 0 false) (filters_text c cs)) ≡ read ++ padded lead c cs
unfolding scan
scan-filters_text [] c read lead before h hs =
    let (b, e) = (Moves-clause c before [] h refl).moves read lead in
    ap clauses_of (ap (scan _) (sym (append-nil (clause_text c))) ∙ e)
scan-filters_text (d ∷ cs) c read lead before h (k, hs) =
    let (b, e) =
      (Moves-clause c before (codes " and " ++ filters_text d cs) h refl).moves read lead in
    ap clauses_of (e ∙ scan-and read (lead ++ clause_text c) b (filters_text d cs))
    ∙ scan-filters_text cs d (read ++ ((lead ++ clause_text c) ++ b' ' ∷ []) ∷ []) (b' ' ∷ []) b' '
        k hs
    ∙ append_assoc read _ _

split-filters_text :
    (c : Clause) (cs : List Clause)
    → IsClause c
    → All IsClause cs
    → split_top_level_and_clauses (filters_text c cs) ≡ padded [] c cs
unfolding split_top_level_and_clauses
split-filters_text c cs h hs = scan-filters_text cs c [] [] b' ' h hs

parse_clauses-next :
    (t : Bytes) (ts : List Bytes) (x : Bytes) (f : Filter)
    → trim_space t ≡ x
    → Begins x
    → parse_clause x ≡ some f
    → parse_clauses (t ∷ ts) ≡ f ∷ parse_clauses ts
unfolding parse_clauses
parse_clauses-next t ts [] f e h p = absurd h
parse_clauses-next t ts (a ∷ x) f e h p = rw (e, p, parse_clauses) refl

-- A clause of the text, with what stands before and behind it.
parse_clauses-clause :
    (t : Bytes) (ts : List Bytes) (c : Clause)
    → IsClause c
    → trim_space t ≡ clause_text c
    → parse_clauses (t ∷ ts) ≡ clause_filter c ∷ parse_clauses ts
parse_clauses-clause t ts c h e =
    parse_clauses-next t ts (clause_text c) (clause_filter c) e (clause_text-Solid c h).front
      (parse_clause-clause_text c h)

parse_clauses-rest :
    (c : Clause) (cs : List Clause)
    → IsClause c
    → All IsClause cs
    → parse_clauses (padded (b' ' ∷ []) c cs) ≡ map clause_filter (c ∷ cs)
unfolding parse_clauses
parse_clauses-rest c [] h hs =
    parse_clauses-clause (b' ' ∷ clause_text c) [] c h
      (trim_space-before (clause_text c) ∙ trim_space-Solid (clause_text c) (clause_text-Solid c h))
parse_clauses-rest c (d ∷ cs) h (k, hs) =
    parse_clauses-clause (b' ' ∷ (clause_text c ++ b' ' ∷ [])) (padded (b' ' ∷ []) d cs) c h (
      trim_space-before (clause_text c ++ b' ' ∷ [])
      ∙ trim_space-after (clause_text c) (clause_text-Solid c h))
    ∙ ap (λ fs. clause_filter c ∷ fs) (parse_clauses-rest d cs k hs)

parse_clauses-padded :
    (c : Clause) (cs : List Clause)
    → IsClause c
    → All IsClause cs
    → parse_clauses (padded [] c cs) ≡ map clause_filter (c ∷ cs)
unfolding parse_clauses
parse_clauses-padded c [] h hs =
    parse_clauses-clause (clause_text c) [] c h
      (trim_space-Solid (clause_text c) (clause_text-Solid c h))
parse_clauses-padded c (d ∷ cs) h (k, hs) =
    parse_clauses-clause (clause_text c ++ b' ' ∷ []) (padded (b' ' ∷ []) d cs) c h
      (trim_space-after (clause_text c) (clause_text-Solid c h))
    ∙ ap (λ fs. clause_filter c ∷ fs) (parse_clauses-rest d cs k hs)

parse_filter-next :
    (x : Bytes)
    → Begins x
    → trim_space x ≡ x
    → parse_filter x ≡ parse_clauses (split_top_level_and_clauses x)
unfolding parse_filter
parse_filter-next [] h e = absurd h
parse_filter-next (a ∷ x) h e = rw (e, parse_filter) refl

-- The text of any clauses joined by " and ", each in any number of parentheses and with any value,
-- is parsed to the filters that the clauses mean, in order; the names of a clause are identifiers,
-- a field is not the word and, behind the first name of a collection no name is the word any, and
-- there is an operator.
pub parse_filter-filters_text :
    (c : Clause) (cs : List Clause)
    → IsClause c
    → All IsClause cs
    → parse_filter (filters_text c cs) ≡ map clause_filter (c ∷ cs)
parse_filter-filters_text c cs h hs =
    let s = filters_text-Solid c cs h hs in
    parse_filter-next (filters_text c cs) s.front (trim_space-Solid (filters_text c cs) s)
    ∙ ap parse_clauses (split-filters_text c cs h hs)
    ∙ parse_clauses-padded c cs h hs
