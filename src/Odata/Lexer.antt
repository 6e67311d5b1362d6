-- ===== src/Odata/Lexer.antt =====
-- internal/odata/parse.go, `lexClause` and `readStringLiteral`: the tokens of one clause.
pub mod Grammar
pub mod Correct
use ileap_go.Common.{
  ℕ, zero, suc, Bool, true, false, not, ◌&&◌, ◌||◌, List, [], ◌∷◌, ◌++◌, Option, none, some, leb,
  ◌==◌, if◌then◌else◌, Bytes, length,
}

-- `tokenKind`, in the order of its `iota`.
pub data TokenKind : Type 0 where
  invalid eof ident string slash dot l_paren r_paren colon : TokenKind

pub record Token : Type 0 where
  pub kind : TokenKind
  pub text : Bytes

unfoldable pub is_ident_start : ℕ → Bool
is_ident_start ch =
    (leb b'a' ch && leb ch b'z')
    || (leb b'A' ch && leb ch b'Z')
    || (leb b'0' ch && leb ch b'9')
    || ch == b'_'

unfoldable pub is_ident_part : ℕ → Bool
unfolding is_ident_start
is_ident_part ch = is_ident_start ch || ch == b'-'

-- The loop of `readStringLiteral`, behind the opening quote. The result is the text with each
-- doubled quote made one, and what follows the closing quote.
unfoldable pub read_string_literal : Bytes → Bytes → Option (Bytes × Bytes)
read_string_literal b [] = none
read_string_literal b (c ∷ []) = if not (c == b'\'') then none else some (b, [])
read_string_literal b (c ∷ d ∷ rest) = elim (c == b'\'') [
  | false ↦ read_string_literal (b ++ c ∷ []) (d ∷ rest)
  | true ↦ elim (d == b'\'') [
    | true ↦ read_string_literal (b ++ b'\'' ∷ []) rest
    | false ↦ some (b, d ∷ rest)
  ]
]

-- `for i < len(input) && isIdentPart(input[i]) { i++ }`: what it passes over, and the rest.
unfoldable pub ident_span : Bytes → Bytes × Bytes
unfolding is_ident_part
ident_span [] = ([], [])
ident_span (c ∷ rest) =
    let (part, after) = ident_span rest in
    if is_ident_part c then (c ∷ part, after) else ([], c ∷ rest)

abbrev pub is_blank : ℕ → Bool
is_blank ch = ch == b' ' || ch == b'\t' || ch == b'\n' || ch == b'\r'

-- The kind of a token of one byte, if `ch` is one.
unfoldable pub punctuation : ℕ → Option TokenKind
punctuation ch =
    if ch == b'/'
    then some slash
    else if ch == b'.'
    then some dot
    else if ch == b'('
    then some l_paren
    else if ch == b')'
    then some r_paren
    else if ch == b':'
    then some colon
    else none

-- The outer loop, over what is left of the input. Each round reads at least one byte, so the
-- fuel is the length of the input and one more for the end.
unfoldable pub lex_from : ℕ → List Token → Bytes → Option (List Token)
lex_from zero tokens input = none
lex_from (suc fuel) tokens [] = some (tokens ++ record { kind = eof; text = [] } ∷ [])
lex_from (suc fuel) tokens (ch ∷ rest) = elim (is_blank ch) [
  | true ↦ lex_from fuel tokens rest
  | false ↦ elim (punctuation ch) [
    | some k ↦ lex_from fuel (tokens ++ record { kind = k; text = ch ∷ [] } ∷ []) rest
    | none ↦ elim (ch == b'\'') [
      | true ↦ elim (read_string_literal [] rest) [
        | none ↦ none
        | some (value, next) ↦
            lex_from fuel (tokens ++ record { kind = string; text = value } ∷ []) next
      ]
      | false ↦ elim (is_ident_start ch) [
        | true ↦
            let (part, next) = ident_span rest in
            lex_from fuel (tokens ++ record { kind = ident; text = ch ∷ part } ∷ []) next
        | false ↦ none
      ]
    ]
  ]
]

unfoldable pub lex_clause : Bytes → Option (List Token)
unfolding lex_from punctuation read_string_literal ident_span is_ident_start
lex_clause input = lex_from (suc (length input)) [] input
