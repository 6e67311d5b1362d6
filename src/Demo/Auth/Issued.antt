-- ===== src/Demo/Auth/Issued.antt =====
-- handlers/ileapdemo/auth_provider.go: how long a token that is issued is valid.
use ileap_go.Common.{
  List, all, ltb, subst, bytes_eq_iff, ◌^◌, ℤ, pos, negsuc, ℕ, ◌+◌, ◌*◌, ◌/◌, ◌≤◌, ◌<◌, true, false,
  ◌&&◌, [], ◌∷◌, ◌++◌, ◌≡◌, ◌≢◌, refl, sym, ap, ◌∙◌, some, arith, ◌==◌, Bool-cases, inl, inr, any,
  All, Bytes, codes, bytes_eq, append_assoc,
}
use ileap_go.Service.{unauthenticated, Result, ok, err}
use ileap_go.Server.Auth.{split}
use ileap_go.Demo.Auth.{
  JwtClaims, Signing, Bearer, User, users, second, access_token_ttl, signing_input, create_jwt,
  issue_token, check_expiration, read_payload, validate_parts, validate_jwt, validate_token,
}

abbrev pub NotDot : ℕ → Type 0
NotDot c = (c == b'.') ≡ false

abbrev pub IsAscii : Bytes → Type 0
IsAscii text = all (λ c. ltb c 128) text ≡ true

abbrev pub IsInt64 : ℤ → Type 0
IsInt64 (pos n) = n < 2 ^ 63
IsInt64 (negsuc n) = n < 2 ^ 63

-- What the packages promise: base64 has no dots and is decoded, JSON of ASCII texts is read back,
-- and a signature of the private key is verified by the public key.
pub record IsSigning (s : Signing) : Type 0 where
  pub no_dots : (x : Bytes) → All NotDot (s.encode_to_string x)
  pub decoded : (x : Bytes) → s.decode_string (s.encode_to_string x) ≡ some x
  pub unmarshalled :
      (claims : JwtClaims)
      → IsAscii claims.username
      → IsInt64 claims.issued_at
      → IsInt64 claims.expiration
      → s.unmarshal (s.marshal claims) ≡ some claims
  pub verified : (message : Bytes) → s.verify message (s.sign message) ≡ true

split-NotDot : (x : Bytes) → All NotDot x → split b'.' x ≡ x ∷ []
unfolding split
split-NotDot [] h = refl
split-NotDot (c ∷ x) (d, h) = rw (d, split-NotDot x h, split) refl

split-dot : (x y : Bytes) → All NotDot x → split b'.' (x ++ b'.' ∷ y) ≡ x ∷ split b'.' y
unfolding split
split-dot [] y h = refl
split-dot (c ∷ x) y (d, h) = rw (d, split-dot x y h, split) refl

abbrev access : Result Bearer → Bytes
access (ok t) = t.access_token
access (err code message) = []

-- The names of the demo's users are ASCII.
user-IsAscii :
    (id secret : Bytes) (us : List User)
    → All (λ (u : User). IsAscii u.username) us
    → any (λ (u : User). bytes_eq id u.username && bytes_eq secret u.password) us ≡ true
    → IsAscii id
user-IsAscii id secret [] h e = absurd (cc e)
user-IsAscii id secret (u ∷ us) (a, h) e = elim (Bool-cases (bytes_eq id u.username)) [
  | inl b ↦ subst IsAscii (sym ((bytes_eq_iff id u.username).0 b)) a
  | inr b ↦ user-IsAscii id secret us h (rw b at e)
]

module _ (s : Signing) (h : IsSigning s) where
  split-create_jwt :
      (claims : JwtClaims)
      → split b'.' (create_jwt s claims)
        ≡ s.encode_to_string s.header_bytes
          ∷ s.encode_to_string (s.marshal claims)
          ∷ s.encode_to_string (s.sign (signing_input s claims))
          ∷ []
  unfolding create_jwt
  split-create_jwt claims =
      let head = s.encode_to_string s.header_bytes in
      let body = s.encode_to_string (s.marshal claims) in
      let signature = s.encode_to_string (s.sign (signing_input s claims)) in
      ap (split b'.') (append_assoc head (codes "." ++ body) (codes "." ++ signature))
      ∙ split-dot head _ (h.no_dots s.header_bytes)
      ∙ ap (λ parts. head ∷ parts)
          (split-dot body signature (h.no_dots (s.marshal claims))
            ∙ ap (λ parts. body ∷ parts) (split-NotDot signature (h.no_dots _)))

  validate_jwt-create_jwt :
      (now : ℕ) (claims : JwtClaims)
      → IsAscii claims.username
      → IsInt64 claims.issued_at
      → IsInt64 claims.expiration
      → validate_jwt s now (create_jwt s claims) ≡ check_expiration s now claims
  unfolding validate_jwt
  validate_jwt-create_jwt now claims a i x =
      ap (validate_parts s now) (split-create_jwt claims)
      ∙ rw (h.decoded, h.verified, validate_parts)
          (rw (h.decoded, read_payload) (rw (h.unmarshalled claims a i x, read_payload) refl))

  -- The claims of a token that is issued.
  abbrev issued_claims : ℕ → Bytes → JwtClaims
  issued_claims now id = record {
    username = id;
    issued_at = pos (now / second);
    expiration = pos ((now + access_token_ttl) / second);
  }

  issued_token :
      (now : ℕ) (id secret : Bytes) (t : Bearer)
      → issue_token s now id secret ≡ ok t
      → IsAscii id × (create_jwt s (issued_claims now id) ≡ t.access_token)
  unfolding issue_token
  issued_token now id secret t e =
      elim (Bool-cases
        (any (λ (u : User). bytes_eq id u.username && bytes_eq secret u.password) users)) [
          | inl b ↦ (
            user-IsAscii id secret users (refl, (refl, (refl, tt))) b,
            ap access (rw (b, issue_token) at e),
          )
          | inr b ↦ absurd (cc (rw (b, issue_token) at e))
        ]

  in_time :
      (now later : ℕ) (id : Bytes)
      → now < 2 ^ 63
      → later ≤ (now + access_token_ttl) / second * second
      → check_expiration s later (issued_claims now id) ≡ ok (issued_claims now id)
  in_time now later id n k = ground arith

  too_late :
      (now later : ℕ) (id : Bytes)
      → (now + access_token_ttl) / second * second < later
      → check_expiration s later (issued_claims now id)
        ≡ err unauthenticated (codes "token expired")
  too_late now later id k = ground arith

  -- A token that the demo handler issues to a client is valid, with the client for its subject, up
  -- to the whole second in which its hour ends, and is answered as expired from then on; base64 has
  -- no dots and is decoded, JSON of ASCII texts and of 64-bit times is read back, signatures are
  -- verified, and the token is issued before the year 2262, whose nanoseconds have 64 bits.
  pub issue_token-validate_token :
      (now later : ℕ) (id secret : Bytes) (t : Bearer)
      → now < 2 ^ 63
      → issue_token s now id secret ≡ ok t
      → (later ≤ (now + access_token_ttl) / second * second
          → validate_token s later t.access_token ≡ ok (record { subject = id }))
        × ((now + access_token_ttl) / second * second < later
            → validate_token s later t.access_token ≡ err unauthenticated (codes "token expired"))
  unfolding validate_token
  issue_token-validate_token now later id secret t n e =
      let (ascii, same) = issued_token now id secret t e in
      let valid =
        validate_jwt-create_jwt later (issued_claims now id) ascii (omega arith) (omega arith) in
      rw (← same) (
        (λ k. rw (valid ∙ in_time now later id n k, validate_token) refl),
        (λ k. rw (valid ∙ too_late now later id k, validate_token) refl),
      )

abbrev type_of : Result Bearer → Bytes
type_of (ok t) = t.token_type
type_of (err code message) = []

append_not_nil : (x y z : Bytes) (c : ℕ) → x ++ ((c ∷ y) ++ z) ≢ []
append_not_nil [] y z c e = absurd (cc e)
append_not_nil (d ∷ x) y z c e = absurd (cc e)

create_jwt_not_nil : (s : Signing) (claims : JwtClaims) → create_jwt s claims ≢ []
unfolding create_jwt
create_jwt_not_nil s claims e =
    append_not_nil (s.encode_to_string s.header_bytes) (s.encode_to_string (s.marshal claims))
      (codes "." ++ s.encode_to_string (s.sign (signing_input s claims))) b'.'
      (sym (append_assoc (s.encode_to_string s.header_bytes) _ _) ∙ e)

-- A token that the demo handler issues is a bearer token, and not empty.
pub issued_Bearer :
    (s : Signing) (now : ℕ) (id secret : Bytes) (t : Bearer)
    → issue_token s now id secret ≡ ok t
    → (t.token_type ≡ codes "bearer") × (t.access_token ≢ [])
unfolding issue_token
issued_Bearer s now id secret t e =
    elim (Bool-cases
      (any (λ (u : User). bytes_eq id u.username && bytes_eq secret u.password) users)) [
        | inl b ↦ (
          sym (ap type_of (rw (b, issue_token) at e)),
          λ n. create_jwt_not_nil s _ (ap access (rw (b, issue_token) at e) ∙ n),
        )
        | inr b ↦ absurd (cc (rw (b, issue_token) at e))
      ]
