-- ===== src/Odata/Parser.antt =====
-- internal/odata/parse.go, `clauseParser`: recursive descent over the tokens of one clause. The
-- state is `tokens[pos:]`; a failed method of the source leaves `pos` where it is, and `parse`
-- alone goes on after one, from its mark.
pub mod NoOpen
pub mod Specified
use ileap_go.Common.{
  ℕ, zero, suc, Bool, true, false, not, ◌&&◌, ◌||◌, List, [], ◌∷◌, ◌++◌, Option, none, some, ◌==◌,
  if◌then◌else◌, Bytes, codes, equal_fold, join,
}
use ileap_go.Filter.{Operator, eq, ne, lt, le, gt, ge, Filter}
use ileap_go.Odata.Lexer.{
  TokenKind, invalid, eof, ident, string, slash, dot, l_paren, r_paren, colon, Token, lex_clause,
}

abbrev pub Tokens : Type 0
Tokens = List Token

abbrev pub Parser : Type 0 → Type 0
Parser A = Tokens → Option (A × Tokens)

infixl 5 ◌>>=◌ ◌>>◌
abbrev pub ◌>>=◌ : {A B : Type 0} → Parser A → (A → Parser B) → Parser B
◌>>=◌ m f ts = elim (m ts) [ none ↦ none | some (a, rest) ↦ f a rest ]

abbrev pub ◌>>◌ : {B : Type 0} → Parser (Unit {0}) → Parser B → Parser B
m >> k = m >>= λ _. k

abbrev pub succeed : {A : Type 0} → A → Parser A
succeed a ts = some (a, ts)

abbrev pub fail : {A : Type 0} → Parser A
fail ts = none

-- A test in a chain of `||`: the parser fails where it is false.
abbrev pub require : Bool → Parser (Unit {0})
require b ts = if b then some (tt, ts) else none

-- The value of the source's constant.
abbrev pub kind_number : TokenKind → ℕ
kind_number invalid = 0
kind_number eof = 1
kind_number ident = 2
kind_number string = 3
kind_number slash = 4
kind_number dot = 5
kind_number l_paren = 6
kind_number r_paren = 7
kind_number colon = 8

abbrev pub same_kind : TokenKind → TokenKind → Bool
same_kind a b = kind_number a == kind_number b

-- `peek`: the next token, or the end.
abbrev pub peek : Tokens → Token
peek [] = record { kind = eof; text = [] }
peek (t ∷ _) = t

-- `p.pos++`
abbrev pub advance : Tokens → Tokens
advance [] = []
advance (_ ∷ ts) = ts

unfoldable pub match_kind : TokenKind → Parser (Unit {0})
match_kind k ts = if not (same_kind (peek ts).kind k) then none else some (tt, advance ts)

unfoldable pub match_keyword : Bytes → Parser (Unit {0})
unfolding equal_fold
match_keyword keyword ts =
    if not (same_kind (peek ts).kind ident) || not (equal_fold (peek ts).text keyword)
    then none
    else some (tt, advance ts)

unfoldable pub match_ident : Parser Token
match_ident ts = if not (same_kind (peek ts).kind ident) then none else some (peek ts, advance ts)

unfoldable pub match_string : Parser Token
match_string ts = if not (same_kind (peek ts).kind string) then none else some (peek ts, advance ts)

unfoldable pub operator_from_token : Bytes → Option Operator
unfolding equal_fold
operator_from_token raw =
    if equal_fold raw (codes "eq")
    then some eq
    else if equal_fold raw (codes "ne")
    then some ne
    else if equal_fold raw (codes "lt")
    then some lt
    else if equal_fold raw (codes "le")
    then some le
    else if equal_fold raw (codes "gt")
    then some gt
    else if equal_fold raw (codes "ge")
    then some ge
    else none

unfoldable pub match_operator : Parser Operator
unfolding operator_from_token
match_operator ts =
    if not (same_kind (peek ts).kind ident)
    then none
    else elim (operator_from_token (peek ts).text) [
      | none ↦ none
      | some operator ↦ some (operator, advance ts)
    ]

-- `stopBeforeAny && next.kind == tokenSlash`, with the keyword `any` behind the slash.
abbrev pub stops_before_any : Bool → Token → Tokens → Bool
stops_before_any stop next after =
    stop
    && same_kind next.kind slash
    && (same_kind (peek after).kind ident && equal_fold (peek after).text (codes "any"))

-- The loop of `parsePath`.
unfoldable pub path_loop : Bool → List Bytes → Parser (List Bytes)
path_loop stop segments [] = some (segments, [])
path_loop stop segments (next ∷ []) =
    if not (same_kind next.kind slash) && not (same_kind next.kind dot)
    then some (segments, next ∷ [])
    else none
path_loop stop segments (next ∷ part ∷ after) =
    let rest = path_loop stop (segments ++ part.text ∷ []) after in
    if not (same_kind next.kind slash) && not (same_kind next.kind dot)
    then some (segments, next ∷ part ∷ after)
    else if stops_before_any stop next (part ∷ after)
    then some (segments, next ∷ part ∷ after)
    else if not (same_kind part.kind ident)
    then none
    else rest

unfoldable pub parse_path : Bool → Parser (List Bytes)
parse_path stop = do first ← match_ident; path_loop stop (first.text ∷ [])

unfoldable pub parse_simple : Parser Filter
parse_simple = do
  path ← parse_path false
  operator ← match_operator
  value_token ← match_string
  succeed
      (record { field_path = join (codes ".") path; operator = operator; value = value_token.text })

-- `len(innerPath) == 0 || !EqualFold(innerPath[0], alias)`, negated.
abbrev pub starts_with_alias : Bytes → List Bytes → Bool
starts_with_alias alias [] = false
starts_with_alias alias (first ∷ _) = equal_fold first alias

-- `innerPath[1:]`
abbrev pub rest_of : List Bytes → List Bytes
rest_of [] = []
rest_of (_ ∷ xs) = xs

unfoldable pub parse_any_eq : Parser Filter
parse_any_eq = do
  collection_path ← parse_path true
  match_kind slash
  match_keyword (codes "any")
  match_kind l_paren
  alias ← match_ident
  match_kind colon
  match_kind l_paren
  inner_path ← parse_path false
  require (starts_with_alias alias.text inner_path)
  operator ← match_operator
  value_token ← match_string
  match_kind r_paren
  match_kind r_paren
  succeed (record {
    field_path = join (codes ".") (collection_path ++ rest_of inner_path);
    operator = operator;
    value = value_token.text;
  })

unfoldable pub consume_closing : ℕ → Parser (Unit {0})
consume_closing zero = succeed tt
consume_closing (suc n) = do match_kind r_paren; consume_closing n

-- `for p.matchKind(tokenLParen) { openParens++ }`
unfoldable pub open_parens : ℕ → Tokens → ℕ × Tokens
open_parens n [] = (n, [])
open_parens n (t ∷ ts) =
    let rest = open_parens (suc n) ts in if same_kind t.kind l_paren then rest else (n, t ∷ ts)

abbrev pub at_end : Tokens → Bool
at_end ts = same_kind (peek ts).kind eof

-- `ok && p.consumeClosing(openParens) && p.peek().kind == tokenEOF`
unfoldable pub closed : Parser Filter → ℕ → Tokens → Option Filter
closed body n mark = elim ((do filter ← body; consume_closing n; succeed filter) mark) [
  | none ↦ none
  | some (filter, rest) ↦ if at_end rest then some filter else none
]

unfoldable pub parse : Tokens → Option Filter
parse tokens =
    let (n, mark) = open_parens 0 tokens in
    elim (closed parse_any_eq n mark) [
      | some filter ↦ some filter
      | none ↦ closed parse_simple n mark
    ]

-- All that `parse` calls, under one name: a run of the parser unfolds it.
unfoldable pub parser_run : Unit {0}
unfolding parse open_parens closed consume_closing parse_any_eq parse_simple parse_path path_loop
    match_kind match_keyword match_ident match_operator match_string join equal_fold
parser_run = tt

unfoldable pub parse_clause : Bytes → Option Filter
unfolding parser_run lex_clause
parse_clause clause = elim (lex_clause clause) [ none ↦ none | some tokens ↦ parse tokens ]
