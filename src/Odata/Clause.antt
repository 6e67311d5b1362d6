-- ===== src/Odata/Clause.antt =====
-- The filters that a client may write, and their text: the part of OData that
-- internal/odata/parse.go reads.
pub mod Lexed
pub mod Scanned
pub mod Solid
pub mod Parsed
use ileap_go.Common.{
  ℕ, zero, suc, Bool, true, false, not, List, [], ◌∷◌, ◌++◌, ◌≡◌, ◌≢◌, ◌==◌, if◌then◌else◌, All,
  Bytes, codes, equal_fold, join, replicate,
}
use ileap_go.Filter.{Operator, unspecified, eq, ne, lt, le, gt, ge, Filter}
use ileap_go.Odata.Quote.{escape}
use ileap_go.Odata.Lexer.{is_ident_start, is_ident_part}

-- What a clause compares: a field, or some member of a collection, named by an alias.
pub data Target : Type 0 where
  field : Bytes → List Bytes → Target
  any_of : Bytes → List Bytes → Bytes → List Bytes → Target

-- A comparison in `parens` pairs of parentheses.
pub record Clause : Type 0 where
  pub parens : ℕ
  pub target : Target
  pub operator : Operator
  pub value : Bytes

abbrev pub segments_text : List Bytes → Bytes
segments_text [] = []
segments_text (x ∷ xs) = b'/' ∷ (x ++ segments_text xs)

abbrev pub path_text : Bytes → List Bytes → Bytes
path_text first more = first ++ segments_text more

abbrev pub operator_text : Operator → Bytes
operator_text unspecified = []
operator_text eq = codes "eq"
operator_text ne = codes "ne"
operator_text lt = codes "lt"
operator_text le = codes "le"
operator_text gt = codes "gt"
operator_text ge = codes "ge"

abbrev pub comparison_text : Operator → Bytes → Bytes
comparison_text o v = b' ' ∷ (operator_text o ++ (b' ' ∷ b'\'' ∷ (escape v ++ b'\'' ∷ [])))

abbrev pub body_text : Target → Operator → Bytes → Bytes
body_text (field first more) o v = path_text first more ++ comparison_text o v
body_text (any_of first more alias inner) o v =
    (path_text first more ++ codes "/any")
    ++ (b'('
        ∷ (alias
            ++ (b':'
                ∷ b'('
                ∷ (path_text alias inner ++ (comparison_text o v ++ replicate 2 b')')))))

abbrev pub clause_text : Clause → Bytes
clause_text c =
    replicate c.parens b'(' ++ (body_text c.target c.operator c.value ++ replicate c.parens b')')

abbrev pub filters_text : Clause → List Clause → Bytes
filters_text c [] = clause_text c
filters_text c (d ∷ cs) = clause_text c ++ (codes " and " ++ filters_text d cs)

-- The filter that a clause means.
abbrev pub target_path : Target → List Bytes
target_path (field first more) = first ∷ more
target_path (any_of first more alias inner) = (first ∷ more) ++ inner

abbrev pub clause_filter : Clause → Filter
clause_filter c = record {
  field_path = join (codes ".") (target_path c.target);
  operator = c.operator;
  value = c.value;
}

abbrev pub IsIdent : Bytes → Type 0
IsIdent [] = ⊥
IsIdent (c ∷ cs) = (is_ident_start c ≡ true) × All (λ d. is_ident_part d ≡ true) cs

-- A segment that is not the keyword `any`.
abbrev pub NotAny : Bytes → Type 0
NotAny x = equal_fold x (codes "any") ≡ false

-- Names are identifiers; a field is not the word `and`; behind the first name of a collection no
-- name is the word `any`.
abbrev pub IsTarget : Target → Type 0
IsTarget (field first more) =
    IsIdent first × All IsIdent more × (equal_fold (path_text first more) (codes "and") ≡ false)
IsTarget (any_of first more alias inner) =
    IsIdent first × All IsIdent more × All NotAny more × IsIdent alias × All IsIdent inner

pub record IsClause (c : Clause) : Type 0 where
  pub target : IsTarget c.target
  pub operator : c.operator ≢ unspecified
