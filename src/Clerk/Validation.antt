-- ===== src/Clerk/Validation.antt =====
-- handlers/ileapclerk/auth_handler.go: `ValidateToken` and `extractUnixClaim`. The messages of its
-- errors are one text, since only their codes are told apart.
pub mod Valid
mod Steps
pub mod Split
use ileap_go.Common.{
  ℕ, ◌+◌, Bool, true, false, not, List, [], ◌∷◌, ◌++◌, Option, none, some, if◌then◌else◌, Bytes,
  codes, bytes_eq, ℤ, ltb_ℤ, atoi,
}
use ileap_go.Service.{Code, unauthenticated, other, Result, ok, err}
use ileap_go.Server.Auth.{TokenInfo, Json, number, text, null_json, other_json, split, claim}
use ileap_go.Clerk.Keys.{KeyCache, PublicKey, Fetches, find_key}

abbrev pub Claims : Type 0
Claims = List (Bytes × Json)

-- What `ValidateToken` takes from the packages `base64`, `json` and `rsa`, with the time in seconds.
-- The header is its fields `kid` and `alg`.
pub record Crypto : Type 0 where
  pub unix_now : ℤ
  pub decode_raw_url : Bytes → Option Bytes
  pub unmarshal_claims : Bytes → Option Claims
  pub unmarshal_header : Bytes → Option (Bytes × Bytes)
  pub verify : PublicKey → Bytes → Bytes → Bool

pub record Parts : Type 0 where
  pub header : Bytes
  pub body : Bytes
  pub signature : Bytes

-- `strings.Split(token, ".")`, of three parts.
abbrev pub three_parts : List Bytes → Option Parts
three_parts (h ∷ b ∷ s ∷ []) = some (record { header = h; body = b; signature = s })
three_parts _ = none

-- `extractUnixClaim`: an error, no such claim, or its value.
pub data UnixClaim : Type 0 where
  malformed : UnixClaim
  missing : UnixClaim
  at : ℤ → UnixClaim

abbrev parsed_claim : Option ℤ → UnixClaim
parsed_claim none = malformed
parsed_claim (some n) = at n

abbrev pub unix_claim : Option Json → UnixClaim
unix_claim none = missing
unix_claim (some (number n)) = at n
unix_claim (some (text s)) = parsed_claim (atoi s)
unix_claim (some null_json) = malformed
unix_claim (some other_json) = malformed

unfoldable pub extract_unix_claim : Claims → Bytes → UnixClaim
unfolding claim atoi
extract_unix_claim claims name = unix_claim (claim name claims)

-- The test of one time claim, which is refused where `late n` holds: the code of the error.
abbrev pub time_fault : (ℤ → Bool) → UnixClaim → Option Code
time_fault late malformed = some other
time_fault late missing = none
time_fault late (at n) = if late n then some unauthenticated else none

-- The claim `sub`, where it is a string that is not empty.
abbrev pub subject_of : Option Json → Option Bytes
subject_of (some (text (c ∷ cs))) = some (c ∷ cs)
subject_of _ = none

module _ (crypto : Crypto) (jwks_cache_ttl : ℕ) where
  -- The first three guards: the parts of the token and its claims.
  unfoldable pub read_claims : Bytes → Option (Parts × Claims)
  unfolding split
  read_claims token = elim (three_parts (split b'.' token)) [
    | none ↦ none
    | some parts ↦ elim (crypto.decode_raw_url parts.body) [
      | none ↦ none
      | some payload_bytes ↦ elim (crypto.unmarshal_claims payload_bytes) [
        | none ↦ none
        | some claims ↦ some (parts, claims)
      ]
    ]
  ]

  -- The key that the header names, if its algorithm is RS256.
  unfoldable pub signing_key : Fetches → Parts → KeyCache → Option PublicKey × KeyCache
  unfolding find_key bytes_eq
  signing_key fetches parts cache = elim (crypto.decode_raw_url parts.header) [
    | none ↦ (none, cache)
    | some header_bytes ↦ elim (crypto.unmarshal_header header_bytes) [
      | none ↦ (none, cache)
      | some (kid, alg) ↦
          if bytes_eq alg (codes "RS256")
          then find_key crypto.decode_raw_url jwks_cache_ttl fetches kid cache
          else (none, cache)
    ]
  ]

  -- Whether the signature is that of the key on the first two parts.
  unfoldable pub signed_by : Option PublicKey → Parts → Bool
  signed_by none parts = false
  signed_by (some pub_key) parts = elim (crypto.decode_raw_url parts.signature) [
    | none ↦ false
    | some sig_bytes ↦ crypto.verify pub_key (parts.header ++ (codes "." ++ parts.body)) sig_bytes
  ]

  -- The end of `ValidateToken`, behind the signature.
  unfoldable pub check_claims : Claims → Result TokenInfo
  unfolding extract_unix_claim claim
  check_claims claims =
      elim (time_fault (λ nbf. ltb_ℤ crypto.unix_now nbf)
        (extract_unix_claim claims (codes "nbf"))) [
          | some code ↦ err code (codes "invalid token")
          | none ↦
              elim (time_fault (λ iat. ltb_ℤ crypto.unix_now iat)
                (extract_unix_claim claims (codes "iat"))) [
                  | some code ↦ err code (codes "invalid token")
                  | none ↦ elim (subject_of (claim (codes "sub") claims)) [
                    | none ↦ err other (codes "invalid token")
                    | some sub ↦ ok (record { subject = sub })
                  ]
                ]
        ]

  unfoldable pub validate_token : Fetches → Bytes → KeyCache → Result TokenInfo × KeyCache
  unfolding read_claims signing_key signed_by check_claims extract_unix_claim
  validate_token fetches token cache = elim (read_claims token) [
    | none ↦ (err other (codes "invalid token"), cache)
    | some (parts, claims) ↦
        elim (time_fault (λ exp. ltb_ℤ exp crypto.unix_now)
          (extract_unix_claim claims (codes "exp"))) [
            | some code ↦ (err code (codes "invalid token"), cache)
            | none ↦
                let (key, cache') = signing_key fetches parts cache in
                if signed_by key parts
                then (check_claims claims, cache')
                else (err other (codes "invalid token"), cache')
          ]
  ]
