-- ===== src/Conformance/Links.antt =====
-- ileaptest/conformance.go, PACT_TC05, and server.go, `listFootprints`: the URL of a header `Link` is
-- found in it.
use ileap_go.Common.{
  trim_last, trim_right, ◌⊎◌, not, ◌||◌, all, ==_self, ℕ, ◌+◌, Bool, true, [], ◌∷◌, ◌++◌, ◌≡◌, refl,
  sym, ap, ◌∙◌, Option, none, some, Bytes, codes, ◌==◌, All, All-append, arith, inl, inr,
  Bool-cases, itoa, itoa-All, pos, append_assoc,
}
use ileap_go.Server.Lists.{link_value}
use ileap_go.Url.Parsed.{Other, split_part}
use ileap_go.Url.Digits.{page_text, tads_text}
use ileap_go.Conformance.Checks.{
  Verdict, passed, skipped, contains, found, next_url, trim_left, first_part,
}
use ileap_go.Conformance.Listed.{All-map}

-- A test that does not fail.
abbrev pub IsFine : Verdict → Type 0
IsFine v = (v ≡ passed) ⊎ (v ≡ skipped)

-- A byte that ends no URL in a header `Link`.
abbrev pub IsClean : ℕ → Type 0
IsClean c = Other b';' c × (Other b'<' c × Other b'>' c)

found-true : (o : Option Bytes) → found true o ≡ true
found-true none = refl
found-true (some s) = refl

contains-append : (part s t : Bytes) → contains part t ≡ true → contains part (s ++ t) ≡ true
unfolding contains
contains-append part [] t e = e
contains-append part (c ∷ s) t e = rw (contains-append part s t e) (found-true _)

trim_left-Other : (c : ℕ) (s : Bytes) → All (Other c) s → trim_left c s ≡ s
unfolding trim_left
trim_left-Other c [] h = refl
trim_left-Other c (x ∷ s) (o, h) = rw o refl

-- The end of a text that does not end in the byte.
kept : (c x : ℕ) (s : Bytes) → Other c x → trim_last c x s ≡ x ∷ s
kept c x [] o = rw o refl
kept c x (y ∷ s) o = refl

trim_right-Other : (c : ℕ) (s : Bytes) → All (Other c) s → trim_right c (s ++ (c ∷ [])) ≡ s
unfolding trim_right
trim_right-Other c [] h = rw (==_self c) refl
trim_right-Other c (x ∷ s) (o, h) = ap (trim_last c x) (trim_right-Other c s h) ∙ kept c x s o

module _ (url : Bytes) (clean : All IsClean url) where
  before_semicolon : All (Other b';') (codes "<" ++ (url ++ codes ">"))
  before_semicolon =
      (refl, All-append (Other b';') url (codes ">") (All-map (λ c p. p.0) url clean) (refl, tt))

  before_less : All (Other b'<') (url ++ codes ">")
  before_less =
      All-append (Other b'<') url (codes ">") (All-map (λ c p. p.1.0) url clean) (refl, tt)

  link_value_lem :
      link_value url ≡ (codes "<" ++ (url ++ codes ">")) ++ (b';' ∷ codes " rel=\"next\"")
  link_value_lem = ap (λ r. b'<' ∷ r) (sym (append_assoc url (codes ">") _))

  pub next_url-link_value : next_url (link_value url) ≡ url
  unfolding next_url trim_left
  next_url-link_value =
      ap next_url link_value_lem
      ∙ ap (λ parts. trim_right b'>' (trim_left b'<' (first_part parts)))
          (split_part b';' (codes "<" ++ (url ++ codes ">")) (codes " rel=\"next\"")
            before_semicolon)
      ∙ ap (trim_right b'>') (trim_left-Other b'<' (url ++ codes ">") before_less)
      ∙ trim_right-Other b'>' url (All-map (λ c p. p.1.1) url clean)

  rel_next : contains (codes "rel=\"next\"") (codes ">; rel=\"next\"") ≡ true
  unfolding contains
  rel_next = refl

  pub contains-link_value : contains (codes "rel=\"next\"") (link_value url) ≡ true
  contains-link_value =
      contains-append (codes "rel=\"next\"") (codes "<") (url ++ codes ">; rel=\"next\"")
        (contains-append (codes "rel=\"next\"") url (codes ">; rel=\"next\"") rel_next)

abbrev is_clean : ℕ → Bool
is_clean c = not (c == b';' || c == b'<' || c == b'>')

IsClean-byte : (c : ℕ) → is_clean c ≡ true → IsClean c
IsClean-byte c h = (ground arith, (ground arith, ground arith))

-- A literal of clean bytes, by computing.
pub IsClean-text : (s : Bytes) → all is_clean s ≡ true → All IsClean s
IsClean-text [] h = tt
IsClean-text (c ∷ s) h = elim (Bool-cases (is_clean c)) [
  | inl b ↦ (IsClean-byte c b, IsClean-text s (rw b at h))
  | inr b ↦ absurd (cc (rw b at h))
]

IsClean-itoa : (n : ℕ) → All IsClean (itoa (pos n))
IsClean-itoa = itoa-All IsClean (λ d h. IsClean-byte (b'0' + d) (ground arith))

pub IsClean-page_text : (limit offset : ℕ) → All IsClean (page_text limit offset)
IsClean-page_text limit offset =
    All-append IsClean (codes "limit=") _ (IsClean-text (codes "limit=") refl) (
      All-append IsClean (itoa (pos limit)) _ (IsClean-itoa limit) (
        All-append IsClean (codes "&offset=") _ (IsClean-text (codes "&offset=") refl)
          (IsClean-itoa offset)))

pub IsClean-tads_text : (limit offset : ℕ) → All IsClean (tads_text limit offset)
IsClean-tads_text limit offset =
    All-append IsClean (codes "offset=") _ (IsClean-text (codes "offset=") refl) (
      All-append IsClean (itoa (pos offset)) _ (IsClean-itoa offset) (
        All-append IsClean (codes "&limit=") _ (IsClean-text (codes "&limit=") refl)
          (IsClean-itoa limit)))
