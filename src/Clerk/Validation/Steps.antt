-- ===== src/Clerk/Validation/Steps.antt =====
-- handlers/ileapclerk/auth_handler.go, `ValidateToken`: the guards that a token passes, one after the
-- other.
use ileap_go.Common.{
  ℕ, true, [], ◌≡◌, refl, ap, ◌∙◌, ◌↔◌, none, some, Option-cases, Bool-cases, inl, inr, Bytes,
  codes, ltb_ℤ,
}
use ileap_go.Service.{Result, ok, err}
use ileap_go.Server.Auth.{TokenInfo, claim}
use ileap_go.Clerk.Keys.{KeyCache, Fetches}
use ileap_go.Clerk.Validation.{
  Claims, Crypto, Parts, extract_unix_claim, time_fault, subject_of, read_claims, signing_key,
  signed_by, check_claims, validate_token,
}

abbrev subject_given : Result TokenInfo → Bytes
subject_given (ok info) = info.subject
subject_given (err code message) = []

module _ (crypto : Crypto) (ttl : ℕ) (claims : Claims) where
  -- What the checks behind the signature ask.
  abbrev InUse : Bytes → Type 0
  InUse subject =
      (time_fault (λ nbf. ltb_ℤ crypto.unix_now nbf) (extract_unix_claim claims (codes "nbf"))
        ≡ none)
      × (time_fault (λ iat. ltb_ℤ crypto.unix_now iat) (extract_unix_claim claims (codes "iat"))
          ≡ none)
      × (subject_of (claim (codes "sub") claims) ≡ some subject)

  check_claims-InUse :
      (subject : Bytes)
      → check_claims crypto ttl claims ≡ ok (record { subject = subject })
      → InUse subject
  unfolding check_claims
  check_claims-InUse subject e =
      elim (Option-cases
        (time_fault (λ nbf. ltb_ℤ crypto.unix_now nbf) (extract_unix_claim claims (codes "nbf")))) [
          | inr (c, f) ↦ absurd (cc (rw (f, check_claims) at e))
          | inl x ↦
              elim (Option-cases (
                time_fault (λ iat. ltb_ℤ crypto.unix_now iat)
                  (extract_unix_claim claims (codes "iat")))) [
                    | inr (c, f) ↦ absurd (cc (rw (x, f, check_claims) at e))
                    | inl y ↦ elim (Option-cases (subject_of (claim (codes "sub") claims))) [
                      | inl n ↦ absurd (cc (rw (x, y, n, check_claims) at e))
                      | inr (sub, f) ↦
                          (x, y, f ∙ ap some (ap subject_given (rw (x, y, f, check_claims) at e)))
                    ]
                  ]
        ]

module _ (crypto : Crypto) (ttl : ℕ) (fetches : Fetches) (token : Bytes) (cache : KeyCache) where
  -- The guards, by the functions that make them.
  pub record Passes (subject : Bytes) : Type 0 where
    pub parts : Parts
    pub claims : Claims
    pub reads : read_claims crypto ttl token ≡ some (parts, claims)
    pub not_expired :
        time_fault (λ exp. ltb_ℤ exp crypto.unix_now) (extract_unix_claim claims (codes "exp"))
        ≡ none
    pub signed : signed_by crypto ttl (signing_key crypto ttl fetches parts cache).0 parts ≡ true
    pub not_before :
        time_fault (λ nbf. ltb_ℤ crypto.unix_now nbf) (extract_unix_claim claims (codes "nbf"))
        ≡ none
    pub issued :
        time_fault (λ iat. ltb_ℤ crypto.unix_now iat) (extract_unix_claim claims (codes "iat"))
        ≡ none
    pub has_subject : subject_of (claim (codes "sub") claims) ≡ some subject

  -- `ValidateToken` gives a subject exactly for a token that passes them.
  pub validate_token-Passes_iff :
      (subject : Bytes)
      → ((validate_token crypto ttl fetches token cache).0 ≡ ok (record { subject = subject }))
        ↔ Passes subject
  unfolding validate_token check_claims
  validate_token-Passes_iff subject = (
    (λ e. elim (Option-cases (read_claims crypto ttl token)) [
      | inl n ↦ absurd (cc (rw (n, validate_token) at e))
      | inr ((parts, claims), r) ↦
          elim (Option-cases (
            time_fault (λ exp. ltb_ℤ exp crypto.unix_now)
              (extract_unix_claim claims (codes "exp")))) [
                | inr (c, f) ↦ absurd (cc (rw (r, f, validate_token) at e))
                | inl x ↦
                    elim (Bool-cases
                      (signed_by crypto ttl (signing_key crypto ttl fetches parts cache).0 parts)) [
                        | inr n ↦ absurd (cc (rw (r, x, n, validate_token) at e))
                        | inl s ↦
                            let (b, i, f) =
                              check_claims-InUse crypto ttl claims subject
                                (rw (r, x, s, validate_token) at e) in
                            record {
                              parts = parts;
                              claims = claims;
                              reads = r;
                              not_expired = x;
                              signed = s;
                              not_before = b;
                              issued = i;
                              has_subject = f;
                            }
                      ]
              ]
    ]),
    (λ h.
        rw
          (
            h.reads, h.not_expired, h.signed, h.not_before, h.issued, h.has_subject, validate_token,
            check_claims,
          )
          refl),
  )
