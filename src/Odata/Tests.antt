-- ===== src/Odata/Tests.antt =====
-- Runs of the parser on inputs like those of internal/odata/parse_test.go, and instances of the
-- theorems about it.
use Prim.Native.String.{String}
use ileap_go.Common.{All, ◌≡◌, refl, ◌≢◌, ◌↔◌, List, [], ◌∷◌, map, some, Bytes, codes}
use ileap_go.Filter.{Operator, unspecified, eq, ne, gt, Filter}
use ileap_go.Odata.Split.{split_top_level_and_clauses}
use ileap_go.Odata.Split.Cuts.{Cuts, split-Cuts}
use ileap_go.Odata.Lexer.{lex_clause, Token, TokenKind}
use ileap_go.Odata.Lexer.Grammar.{Lexes}
use ileap_go.Odata.Lexer.Correct.{lex_clause_iff}
use ileap_go.Odata.Parse.{parse_filter}
use ileap_go.Odata.Clause.{Clause, field, any_of, filters_text, clause_filter, IsClause}
use ileap_go.Odata.Parser.Specified.{HasOperator}
use ileap_go.Odata.Sound.{parse_filter-HasOperator}
use ileap_go.Odata.RoundTrip.{parse_filter-filters_text}

abbrev item : String → Operator → String → Filter
item p o v = record { field_path = codes p; operator = o; value = codes v }

simple_and :
    parse_filter (codes " a.b eq 'x''y' AND (created gt '2') and bad")
    ≡ item "a.b" eq "x'y" ∷ item "created" gt "2" ∷ []
unfolding parse_filter
simple_and = refl

any_lambda : parse_filter (codes "(ids/any(p:(p eq 'urn and x')))") ≡ item "ids" eq "urn and x" ∷ []
unfolding parse_filter
any_lambda = refl

-- `(pcf/geo eq 'it''s and')` and `ids/any(c:(c/urn ne 'x'))`.
abbrev geo : Clause
geo = record {
  parens = 1;
  target = field (codes "pcf") (codes "geo" ∷ []);
  operator = eq;
  value = codes "it's and";
}

abbrev ids : Clause
ids = record {
  parens = 0;
  target = any_of (codes "ids") [] (codes "c") (codes "urn" ∷ []);
  operator = ne;
  value = codes "x";
}

eq-specified : eq ≢ unspecified
eq-specified e = absurd (cc e)

ne-specified : ne ≢ unspecified
ne-specified e = absurd (cc e)

geo-IsClause : IsClause geo
unfolding parse_filter
geo-IsClause = record {
  target = ((refl, (refl, (refl, tt))), ((refl, (refl, (refl, tt))), tt), refl);
  operator = eq-specified;
}

ids-IsClause : IsClause ids
unfolding parse_filter
ids-IsClause = record {
  target = ((refl, (refl, (refl, tt))), tt, tt, (refl, tt), ((refl, (refl, (refl, tt))), tt));
  operator = ne-specified;
}

parse_filter-filters_text_example :
    parse_filter (filters_text geo (ids ∷ [])) ≡ map clause_filter (geo ∷ ids ∷ [])
parse_filter-filters_text_example =
    parse_filter-filters_text geo (ids ∷ []) geo-IsClause (ids-IsClause, tt)

abbrev two_clauses : Bytes
two_clauses = codes "a eq 'x and y' and (b gt '2')"

split-Cuts_example : Cuts (split_top_level_and_clauses two_clauses) two_clauses
split-Cuts_example = split-Cuts two_clauses

abbrev eq_tokens : List Token
eq_tokens =
    record { kind = TokenKind.ident; text = (codes "a") }
    ∷ record { kind = TokenKind.ident; text = (codes "eq") }
    ∷ record { kind = TokenKind.string; text = (codes "it's") }
    ∷ record { kind = TokenKind.eof; text = [] }
    ∷ []

lex_clause_iff_example :
    (lex_clause (codes "a eq 'it''s'") ≡ some eq_tokens) ↔ Lexes (codes "a eq 'it''s'") eq_tokens
lex_clause_iff_example = lex_clause_iff (codes "a eq 'it''s'") eq_tokens

parse_filter-HasOperator_example : All HasOperator (parse_filter (codes "a eq 'x' and b in 'y'"))
parse_filter-HasOperator_example = parse_filter-HasOperator (codes "a eq 'x' and b in 'y'")
