-- ===== src/Odata/Lexer/Grammar.antt =====
-- The tokens of a clause as a relation, with no loop and no index: what `lexClause` of
-- internal/odata/parse.go should read.
use ileap_go.Common.{ℕ, Bool, true, false, List, [], ◌∷◌, ◌≡◌, some, Bytes, ◌==◌}
use ileap_go.Odata.Lexer.{
  TokenKind, eof, ident, string, Token, is_ident_start, is_ident_part, is_blank, punctuation,
}

abbrev pub token : TokenKind → Bytes → Token
token k t = record { kind = k; text = t }

-- The text does not begin with a byte that passes the test.
abbrev pub StopsAt : (ℕ → Bool) → Bytes → Type 0
StopsAt test [] = Unit
StopsAt test (c ∷ _) = test c ≡ false

abbrev pub is_quote : ℕ → Bool
is_quote c = c == b'\''

-- Behind an opening quote: the text, the value of the literal, and what follows the literal.
pub data Quoted : Bytes → Bytes → Bytes → Type 0 where
  close :
      {q : ℕ} {next : Bytes} → is_quote q ≡ true → StopsAt is_quote next → Quoted (q ∷ next) [] next
  doubled :
      {p q : ℕ} {rest value next : Bytes}
      → is_quote p ≡ true
      → is_quote q ≡ true
      → Quoted rest value next
      → Quoted (p ∷ q ∷ rest) (b'\'' ∷ value) next
  plain :
      {c : ℕ} {rest value next : Bytes}
      → is_quote c ≡ false
      → Quoted rest value next
      → Quoted (c ∷ rest) (c ∷ value) next

-- The longest run of bytes of an identifier, and what follows it.
pub data Spans : Bytes → Bytes → Bytes → Type 0 where
  stop : {next : Bytes} → StopsAt is_ident_part next → Spans next [] next
  part :
      {c : ℕ} {rest name next : Bytes}
      → is_ident_part c ≡ true
      → Spans rest name next
      → Spans (c ∷ rest) (c ∷ name) next

pub data Lexes : Bytes → List Token → Type 0 where
  done : Lexes [] (token eof [] ∷ [])
  blank :
      {c : ℕ} {rest : Bytes} {ts : List Token}
      → is_blank c ≡ true
      → Lexes rest ts
      → Lexes (c ∷ rest) ts
  mark :
      {c : ℕ} {rest : Bytes} {k : TokenKind} {ts : List Token}
      → punctuation c ≡ some k
      → Lexes rest ts
      → Lexes (c ∷ rest) (token k (c ∷ []) ∷ ts)
  literal :
      {q : ℕ} {rest value next : Bytes} {ts : List Token}
      → is_quote q ≡ true
      → Quoted rest value next
      → Lexes next ts
      → Lexes (q ∷ rest) (token string value ∷ ts)
  name :
      {c : ℕ} {rest text next : Bytes} {ts : List Token}
      → is_ident_start c ≡ true
      → Spans rest text next
      → Lexes next ts
      → Lexes (c ∷ rest) (token ident (c ∷ text) ∷ ts)
