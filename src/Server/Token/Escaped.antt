-- ===== src/Server/Token/Escaped.antt =====
-- `url.QueryEscape`, with which OAuth clients write their credentials, and how server.go reads it.
use ileap_go.Common.{
  ℕ, ◌+◌, ◌*◌, ◌/◌, ◌%◌, ◌<◌, Bool, true, false, ◌&&◌, ◌||◌, [], ◌∷◌, ◌≡◌, refl, ap, ap₂, ◌∙◌, some,
  arith, ltb, leb, ◌==◌, if◌then◌else◌, Bool-cases, inl, inr, All, Bytes,
}
use ileap_go.Server.Token.{is_hex, unhex, plain, prepend, query_unescape, unescaped_or_raw}

abbrev pub is_unreserved : ℕ → Bool
is_unreserved c =
    (leb b'a' c && leb c b'z')
    || (leb b'A' c && leb c b'Z')
    || (leb b'0' c && leb c b'9')
    || c == b'-'
    || c == b'_'
    || c == b'.'
    || c == b'~'

abbrev pub hex_digit : ℕ → ℕ
hex_digit n = if ltb n 10 then b'0' + n else 55 + n

unfoldable pub query_escape : Bytes → Bytes
query_escape [] = []
query_escape (c ∷ s) = elim (is_unreserved c) [
  | true ↦ c ∷ query_escape s
  | false ↦ elim (c == b' ') [
    | true ↦ b'+' ∷ query_escape s
    | false ↦ b'%' ∷ hex_digit (c / 16) ∷ hex_digit (c % 16) ∷ query_escape s
  ]
]

-- A number of eight bits.
abbrev pub IsByte : ℕ → Type 0
IsByte c = c < 256

query_unescape-plain :
    (c : ℕ) (t : Bytes)
    → (c == b'%') ≡ false
    → query_unescape (c ∷ t) ≡ prepend (plain c) (query_unescape t)
unfolding query_unescape
query_unescape-plain c [] h = rw (h, query_unescape) refl
query_unescape-plain c (d ∷ []) h = rw (h, query_unescape) refl
query_unescape-plain c (d ∷ e ∷ t) h = rw (h, query_unescape) refl

hex_digit_lem : (n : ℕ) → n < 16 → (is_hex (hex_digit n) ≡ true) × (unhex (hex_digit n) ≡ n)
unfolding is_hex unhex
hex_digit_lem n h = ground arith

query_unescape-percent :
    (d e : ℕ) (t : Bytes)
    → is_hex d ≡ true
    → is_hex e ≡ true
    → query_unescape (b'%' ∷ d ∷ e ∷ t) ≡ prepend (unhex d * 16 + unhex e) (query_unescape t)
unfolding query_unescape
query_unescape-percent d e t p q = rw (p, q, query_unescape) refl

query_unescape-hex :
    (h l : ℕ) (t : Bytes)
    → h < 16
    → l < 16
    → query_unescape (b'%' ∷ hex_digit h ∷ hex_digit l ∷ t)
      ≡ prepend (h * 16 + l) (query_unescape t)
query_unescape-hex h l t p q =
    let (a, b) = hex_digit_lem h p in
    let (c, d) = hex_digit_lem l q in
    query_unescape-percent (hex_digit h) (hex_digit l) t a c
    ∙ ap (λ n. prepend n (query_unescape t)) (ap₂ (λ x y. x * 16 + y) b d)

-- An escaped text is read back.
pub query_unescape-query_escape :
    (s : Bytes) → All IsByte s → query_unescape (query_escape s) ≡ some s
unfolding query_unescape query_escape
query_unescape-query_escape [] h = refl
query_unescape-query_escape (c ∷ s) (p, h) = elim (Bool-cases (is_unreserved c)) [
  | inl u ↦
      rw (u, query_escape)
        (query_unescape-plain c (query_escape s) (ground arith)
          ∙ ap₂ prepend (ground arith) (query_unescape-query_escape s h))
  | inr u ↦ elim (Bool-cases (c == b' ')) [
    | inl e ↦
        rw (u, e, query_escape)
          (query_unescape-plain b'+' (query_escape s) refl
            ∙ ap₂ prepend (ground arith) (query_unescape-query_escape s h))
    | inr e ↦
        rw (u, e, query_escape)
          (query_unescape-hex (c / 16) (c % 16) (query_escape s) (omega arith) (omega arith)
            ∙ ap₂ prepend (omega arith) (query_unescape-query_escape s h))
  ]
]

pub unescaped_or_raw-query_escape :
    (s : Bytes) → All IsByte s → unescaped_or_raw (query_escape s) ≡ s
unescaped_or_raw-query_escape s h = rw (query_unescape-query_escape s h, unescaped_or_raw) refl

-- What holds of every byte that `QueryEscape` writes.
pub query_escape-All :
    (P : ℕ → Type 0)
    → ((c : ℕ) → is_unreserved c ≡ true → P c)
    → ((n : ℕ) → n < 16 → P (hex_digit n))
    → P b'+'
    → P b'%'
    → (s : Bytes) → All IsByte s
    → All P (query_escape s)
unfolding query_escape
query_escape-All P kept digit plus percent [] h = tt
query_escape-All P kept digit plus percent (c ∷ s) (p, h) =
    let rest = query_escape-All P kept digit plus percent s h in
    elim (Bool-cases (is_unreserved c)) [
      | inl u ↦ rw (u, query_escape) (kept c u, rest)
      | inr u ↦ elim (Bool-cases (c == b' ')) [
        | inl e ↦ rw (u, e, query_escape) (plus, rest)
        | inr e ↦
            rw (u, e, query_escape)
              (percent, (digit (c / 16) (omega arith), (digit (c % 16) (omega arith), rest)))
      ]
    ]
