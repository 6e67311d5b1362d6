-- ===== src/Clerk/Validation/Split.antt =====
-- handlers/ileapclerk/auth_handler.go, `ValidateToken`: `strings.Split` of a token at its dots, and the
-- text of its parts.
use ileap_go.Common.{
  ℕ, List, [], ◌∷◌, ◌++◌, ◌≡◌, refl, sym, ap, subst, ◌∙◌, Bool-cases, inl, inr, All, Bytes, codes,
  join, ◌==◌, arith, some,
}
use ileap_go.Server.Auth.{split}
use ileap_go.Url.Parsed.{Other, split_part}
use ileap_go.Clerk.Validation.{Parts, three_parts}

abbrev pub NoDot : Bytes → Type 0
NoDot = All (Other b'.')

split-cons :
    (sep : ℕ) (s : Bytes) → (part : Bytes) × (parts : List Bytes) × (split sep s ≡ part ∷ parts)
unfolding split
split-cons sep [] = ([], [], refl)
split-cons sep (c ∷ s) = elim (Bool-cases (c == sep)) [
  | inl b ↦ ([], split sep s, rw b refl)
  | inr b ↦ let (part, parts, e) = split-cons sep s in (c ∷ part, parts, rw (b, e) refl)
]

join_longer :
    (sep : Bytes) (c : ℕ) (part : Bytes) (parts : List Bytes)
    → join sep ((c ∷ part) ∷ parts) ≡ c ∷ join sep (part ∷ parts)
unfolding join
join_longer sep c part [] = refl
join_longer sep c part (next ∷ parts) = refl

-- The parts, joined at the byte, are the text again.
pub join-split : (sep : ℕ) (s : Bytes) → join (sep ∷ []) (split sep s) ≡ s
unfolding split join
join-split sep [] = refl
join-split sep (c ∷ s) =
    let (part, parts, e) = split-cons sep s in
    let rest : join (sep ∷ []) (part ∷ parts) ≡ s =
      ap (join (sep ∷ [])) (sym e) ∙ join-split sep s in
    elim (Bool-cases (c == sep)) [
      | inl b ↦
          let same : sep ≡ c = ground arith in
          rw (b, e) (ap (λ t. sep ∷ t) rest ∙ ap (λ d. d ∷ s) same)
      | inr b ↦ rw (b, e) (join_longer (sep ∷ []) c part parts ∙ ap (λ t. c ∷ t) rest)
    ]

All-split : (sep : ℕ) (s : Bytes) → All (All (Other sep)) (split sep s)
unfolding split
All-split sep [] = (tt, tt)
All-split sep (c ∷ s) =
    let (part, parts, e) = split-cons sep s in
    elim (Bool-cases (c == sep)) [
      | inl b ↦ rw b (tt, All-split sep s)
      | inr b ↦ let (h, hs) = rw e at (All-split sep s) in rw (b, e) ((b, h), hs)
    ]

split-NoDot : (s : Bytes) → NoDot s → split b'.' s ≡ s ∷ []
unfolding split
split-NoDot [] h = refl
split-NoDot (c ∷ s) (d, h) = rw (d, split-NoDot s h) refl

-- The token is three texts without dots, with dots between them.
pub record Cut (token : Bytes) (p : Parts) : Type 0 where
  pub text : token ≡ p.header ++ (codes "." ++ (p.body ++ (codes "." ++ p.signature)))
  pub header_plain : NoDot p.header
  pub body_plain : NoDot p.body
  pub signature_plain : NoDot p.signature

pub three_parts-Cut :
    (token : Bytes) (p : Parts) → three_parts (split b'.' token) ≡ some p → Cut token p
unfolding join
three_parts-Cut token p e =
    by_parts (split b'.' token) (join-split b'.' token) (All-split b'.' token) e
  where
    by_parts :
        (parts : List Bytes)
        → join (b'.' ∷ []) parts ≡ token
        → All NoDot parts
        → three_parts parts ≡ some p
        → Cut token p
    by_parts [] j a f = absurd (cc f)
    by_parts (h ∷ []) j a f = absurd (cc f)
    by_parts (h ∷ b ∷ []) j a f = absurd (cc f)
    by_parts (h ∷ b ∷ s ∷ []) j (x, (y, (z, _))) f =
        let same : record { header = h; body = b; signature = s } ≡ p = cc f in
        subst (Cut token) same
          (record { text = sym j; header_plain = x; body_plain = y; signature_plain = z })
    by_parts (h ∷ b ∷ s ∷ t ∷ ts) j a f = absurd (cc f)

pub Cut-three_parts :
    (token : Bytes) (p : Parts) → Cut token p → three_parts (split b'.' token) ≡ some p
Cut-three_parts token p c =
    ap (λ t. three_parts (split b'.' t)) c.text
    ∙ ap three_parts (
        split_part b'.' p.header (p.body ++ (codes "." ++ p.signature)) c.header_plain
        ∙ ap (λ parts. p.header ∷ parts)
            (split_part b'.' p.body p.signature c.body_plain
              ∙ ap (λ parts. p.body ∷ parts) (split-NoDot p.signature c.signature_plain)))
