-- ===== src/Clerk/Validation/Valid.antt =====
-- handlers/ileapclerk/auth_handler.go, `ValidateToken`: which tokens are valid.
use ileap_go.Common.{
  ℕ, Bool, true, false, [], ◌∷◌, ◌++◌, ◌≡◌, ◌≢◌, refl, sym, ap, subst, ◌∙◌, ◌↔◌, Option, none, some,
  Option-cases, Bool-cases, inl, inr, Bytes, codes, bytes_eq, bytes_eq_iff, ℤ, ltb_ℤ, atoi,
}
use ileap_go.Service.{ok}
use ileap_go.Server.Auth.{Json, number, text, null_json, other_json, split, claim}
use ileap_go.Clerk.Keys.{KeyCache, PublicKey, Fetches, find_key}
use ileap_go.Clerk.Validation.{
  Claims, Crypto, Parts, at, three_parts, extract_unix_claim, time_fault, unix_claim, subject_of,
  read_claims, signing_key, signed_by, validate_token,
}
use ileap_go.Clerk.Validation.Steps.{validate_token-Passes_iff}
use ileap_go.Clerk.Validation.Split.{Cut, three_parts-Cut, Cut-three_parts}

-- A time claim, where there is one, is a number, or a text that reads as one, that is in time.
abbrev pub Timely : (ℤ → Bool) → Option Json → Type 0
Timely late none = Unit
Timely late (some (number n)) = late n ≡ false
Timely late (some (text s)) = (n : ℤ) × (atoi s ≡ some n) × (late n ≡ false)
Timely late (some null_json) = ⊥
Timely late (some other_json) = ⊥

module _ (late : ℤ → Bool) where
  fault_iff : (n : ℤ) → (time_fault late (at n) ≡ none) ↔ (late n ≡ false)
  fault_iff n = elim (Bool-cases (late n)) [
    | inl b ↦ rw b ((λ e. absurd (cc e)), (λ e. absurd (cc e)))
    | inr b ↦ rw b ((λ e. refl), (λ e. refl))
  ]

  text_iff :
      (s : Bytes)
      → (time_fault late (unix_claim (some (text s))) ≡ none) ↔ Timely late (some (text s))
  text_iff s = elim (Option-cases (atoi s)) [
    | inl e ↦ ((λ f. absurd (cc (rw e at f))), (λ (n, f, _). absurd (cc (sym f ∙ e))))
    | inr (n, e) ↦
        ((λ f. (n, e, (fault_iff n).0 (rw e at f))), (λ (m, f, l). rw f ((fault_iff m).1 l)))
  ]

  Timely_iff : (v : Option Json) → (time_fault late (unix_claim v) ≡ none) ↔ Timely late v
  Timely_iff none = ((λ e. tt), (λ h. refl))
  Timely_iff (some (number n)) = fault_iff n
  Timely_iff (some (text s)) = text_iff s
  Timely_iff (some null_json) = ((λ e. absurd (cc e)), (λ h. absurd h))
  Timely_iff (some other_json) = ((λ e. absurd (cc e)), (λ h. absurd h))

subject_iff :
    (v : Option Json) (s : Bytes) → (subject_of v ≡ some s) ↔ ((v ≡ some (text s)) × (s ≢ []))
subject_iff none s = ((λ e. absurd (cc e)), (λ (e, n). absurd (cc e)))
subject_iff (some (number n)) s = ((λ e. absurd (cc e)), (λ (e, n). absurd (cc e)))
subject_iff (some (text [])) s = ((λ e. absurd (cc e)), (λ (e, n). absurd (n (cc e))))
subject_iff (some (text (c ∷ cs))) s = ((λ e. (cc e, λ n. absurd (cc (e, n)))), (λ (e, n). cc e))
subject_iff (some null_json) s = ((λ e. absurd (cc e)), (λ (e, n). absurd (cc e)))
subject_iff (some other_json) s = ((λ e. absurd (cc e)), (λ (e, n). absurd (cc e)))

module _ (crypto : Crypto) (ttl : ℕ) where
  -- The token has three parts, the second of which is the JSON of the claims in base64.
  pub record Reads (token : Bytes) (p : Parts) (claims : Claims) : Type 0 where
    pub cut : Cut token p
    pub payload_bytes : Bytes
    pub decoded : crypto.decode_raw_url p.body ≡ some payload_bytes
    pub unmarshalled : crypto.unmarshal_claims payload_bytes ≡ some claims

  read_claims-Reads :
      (token : Bytes) (p : Parts) (claims : Claims)
      → read_claims crypto ttl token ≡ some (p, claims)
      → Reads token p claims
  unfolding read_claims
  read_claims-Reads token p claims e = elim (Option-cases (three_parts (split b'.' token))) [
    | inl n ↦ absurd (cc (rw (n, read_claims) at e))
    | inr (q, c) ↦ elim (Option-cases (crypto.decode_raw_url q.body)) [
      | inl n ↦ absurd (cc (rw (c, n, read_claims) at e))
      | inr (payload, d) ↦ elim (Option-cases (crypto.unmarshal_claims payload)) [
        | inl n ↦ absurd (cc (rw (c, d, n, read_claims) at e))
        | inr (found, u) ↦
            let same_parts : q ≡ p = cc (rw (c, d, u, read_claims) at e) in
            let same_claims : found ≡ claims = cc (rw (c, d, u, read_claims) at e) in
            record {
              cut = subst (Cut token) same_parts (three_parts-Cut token q c);
              payload_bytes = payload;
              decoded = ap (λ (x : Parts). crypto.decode_raw_url x.body) (sym same_parts) ∙ d;
              unmarshalled = u ∙ ap some same_claims;
            }
      ]
    ]
  ]

  Reads-read_claims :
      (token : Bytes) (p : Parts) (claims : Claims)
      → Reads token p claims
      → read_claims crypto ttl token ≡ some (p, claims)
  unfolding read_claims
  Reads-read_claims token p claims h =
      rw (Cut-three_parts token p h.cut, h.decoded, h.unmarshalled, read_claims) refl

  -- The header names the algorithm RS256 and a key that `findKey` gives, and the signature is that
  -- of the key on the first two parts.
  pub record Signed (fetches : Fetches) (cache : KeyCache) (p : Parts) : Type 0 where
    pub header_bytes : Bytes
    pub kid : Bytes
    pub pub_key : PublicKey
    pub sig_bytes : Bytes
    pub header_decoded : crypto.decode_raw_url p.header ≡ some header_bytes
    pub header_unmarshalled : crypto.unmarshal_header header_bytes ≡ some (kid, codes "RS256")
    pub key_found : (find_key crypto.decode_raw_url ttl fetches kid cache).0 ≡ some pub_key
    pub signature_decoded : crypto.decode_raw_url p.signature ≡ some sig_bytes
    pub verified : crypto.verify pub_key (p.header ++ (codes "." ++ p.body)) sig_bytes ≡ true

  signed_by-Verified :
      (key : Option PublicKey) (p : Parts)
      → signed_by crypto ttl key p ≡ true
      → (pub_key : PublicKey) × (sig_bytes : Bytes) × (key ≡ some pub_key)
        × (crypto.decode_raw_url p.signature ≡ some sig_bytes)
        × (crypto.verify pub_key (p.header ++ (codes "." ++ p.body)) sig_bytes ≡ true)
  unfolding signed_by
  signed_by-Verified none p e = absurd (cc e)
  signed_by-Verified (some pub_key) p e = elim (Option-cases (crypto.decode_raw_url p.signature)) [
    | inl n ↦ absurd (cc (rw (n, signed_by) at e))
    | inr (sig_bytes, d) ↦ (pub_key, sig_bytes, refl, d, rw (d, signed_by) at e)
  ]

  module _ (fetches : Fetches) (cache : KeyCache) (p : Parts) where
    -- The key of a header that gives one.
    signing_key-found :
        (pub_key : PublicKey)
        → (signing_key crypto ttl fetches p cache).0 ≡ some pub_key
        → (header_bytes : Bytes) × (kid : Bytes) × (crypto.decode_raw_url p.header
            ≡ some header_bytes)
          × (crypto.unmarshal_header header_bytes ≡ some (kid, codes "RS256"))
          × ((find_key crypto.decode_raw_url ttl fetches kid cache).0 ≡ some pub_key)
    unfolding signing_key
    signing_key-found pub_key e = elim (Option-cases (crypto.decode_raw_url p.header)) [
      | inl n ↦ absurd (cc (rw (n, signing_key) at e))
      | inr (bytes, d) ↦ elim (Option-cases (crypto.unmarshal_header bytes)) [
        | inl n ↦ absurd (cc (rw (d, n, signing_key) at e))
        | inr ((kid, alg), u) ↦ elim (Bool-cases (bytes_eq alg (codes "RS256"))) [
          | inr n ↦ absurd (cc (rw (d, u, n, signing_key) at e))
          | inl b ↦ (
            bytes,
            kid,
            d,
            u ∙ ap (λ a. some (kid, a)) ((bytes_eq_iff alg (codes "RS256")).0 b),
            rw (d, u, b, signing_key) at e,
          )
        ]
      ]
    ]

    signed_by-Signed :
        signed_by crypto ttl (signing_key crypto ttl fetches p cache).0 p ≡ true
        → Signed fetches cache p
    signed_by-Signed e =
        let (pub_key, sig_bytes, k, d, v) = signed_by-Verified _ p e in
        let (header_bytes, kid, hd, hu, f) = signing_key-found pub_key k in
        record {
          header_bytes = header_bytes;
          kid = kid;
          pub_key = pub_key;
          sig_bytes = sig_bytes;
          header_decoded = hd;
          header_unmarshalled = hu;
          key_found = f;
          signature_decoded = d;
          verified = v;
        }

    Signed-signed_by :
        Signed fetches cache p
        → signed_by crypto ttl (signing_key crypto ttl fetches p cache).0 p ≡ true
    unfolding signing_key signed_by
    Signed-signed_by h =
        let same = (bytes_eq_iff (codes "RS256") (codes "RS256")).1 refl in
        rw (h.header_decoded, h.header_unmarshalled, same, signing_key)
          (rw (h.key_found, h.signature_decoded, signed_by) h.verified)

module _ (crypto : Crypto) (ttl : ℕ) (fetches : Fetches) (token : Bytes) (cache : KeyCache) where
  -- A token that reads as claims, is signed by the key that its header names, has not expired, is
  -- in use already, was not issued in the future, and has a subject.
  pub record IsValid (subject : Bytes) : Type 0 where
    pub parts : Parts
    pub claims : Claims
    pub reads : Reads crypto ttl token parts claims
    pub signed : Signed crypto ttl fetches cache parts
    pub not_expired : Timely (λ exp. ltb_ℤ exp crypto.unix_now) (claim (codes "exp") claims)
    pub not_before : Timely (λ nbf. ltb_ℤ crypto.unix_now nbf) (claim (codes "nbf") claims)
    pub issued : Timely (λ iat. ltb_ℤ crypto.unix_now iat) (claim (codes "iat") claims)
    pub has_subject : claim (codes "sub") claims ≡ some (text subject)
    pub non_empty : subject ≢ []

  -- `ValidateToken` gives a subject exactly for a token of three parts, the second of which reads as
  -- claims, the first of which names the algorithm RS256 and a key that findKey gives, and the third
  -- of which is a signature of that key on the first two; whose expiry, start and issue, where they
  -- are claimed, are times that are not over and not to come; and which has that subject, not empty.
  pub validate_token_iff :
      (subject : Bytes)
      → ((validate_token crypto ttl fetches token cache).0 ≡ ok (record { subject = subject }))
        ↔ IsValid subject
  unfolding extract_unix_claim
  validate_token_iff subject = (
    (λ e.
        let h = (validate_token-Passes_iff crypto ttl fetches token cache subject).0 e in
        let (found, full) = (subject_iff _ subject).0 h.has_subject in
        record {
          parts = h.parts;
          claims = h.claims;
          reads = read_claims-Reads crypto ttl token h.parts h.claims h.reads;
          signed = signed_by-Signed crypto ttl fetches cache h.parts h.signed;
          not_expired = (Timely_iff _ _).0 h.not_expired;
          not_before = (Timely_iff _ _).0 h.not_before;
          issued = (Timely_iff _ _).0 h.issued;
          has_subject = found;
          non_empty = full;
        }),
    (λ v. (validate_token-Passes_iff crypto ttl fetches token cache subject).1 (record {
      parts = v.parts;
      claims = v.claims;
      reads = Reads-read_claims crypto ttl token v.parts v.claims v.reads;
      not_expired = (Timely_iff _ _).1 v.not_expired;
      signed = Signed-signed_by crypto ttl fetches cache v.parts v.signed;
      not_before = (Timely_iff _ _).1 v.not_before;
      issued = (Timely_iff _ _).1 v.issued;
      has_subject = (subject_iff _ subject).1 (v.has_subject, v.non_empty);
    })),
  )
