-- ===== src/Server/Auth.antt =====
-- server.go: the three middlewares in front of the data endpoints and the events endpoint, and
-- `isExpiredJWT`. A middleware is a gate, which admits the request with its token or refuses it.
pub mod Admission
pub mod Expired
use ileap_go.Common.{
  ℕ, Bool, true, false, List, [], ◌∷◌, ◌++◌, Option, none, some, ◌==◌, if◌then◌else◌, Bytes, codes,
  bytes_eq, ℤ, ltb_ℤ, atoi,
}
use ileap_go.Service.{Code, unimplemented, unauthenticated, Result, ok, err}
use ileap_go.Server.Http.{
  ErrorCode, bad_request, access_denied, token_expired, error_not_implemented, Response,
  write_error,
}

-- `TokenInfo`
pub record TokenInfo : Type 0 where
  pub subject : Bytes

-- `AuthHandler`, without the contexts.
pub record AuthHandler (Token Config Keys : Type 0) : Type 0 where
  pub issue_token : Bytes → Bytes → Result Token
  pub validate_token : Bytes → Result TokenInfo
  pub open_id_configuration : Bytes → Option Config
  pub jwks : Option Keys

-- A value of a JSON object, as far as `isExpiredJWT` tells values apart; a number is what
-- `int64` makes of it.
pub data Json : Type 0 where
  number : ℤ → Json
  text : Bytes → Json
  null_json : Json
  other_json : Json

-- What `isExpiredJWT` takes from the packages `time`, `base64` and `json`.
pub record Clock : Type 0 where
  pub now : ℤ
  pub decode_raw_url : Bytes → Option Bytes
  pub unmarshal_claims : Bytes → Option (List (Bytes × Json))

-- `strings.HasPrefix` and `strings.TrimPrefix`: what follows the prefix, if it is there.
unfoldable pub strip_prefix : Bytes → Bytes → Option Bytes
strip_prefix [] s = some s
strip_prefix (p ∷ ps) [] = none
strip_prefix (p ∷ ps) (c ∷ s) = let rest = strip_prefix ps s in if p == c then rest else none

-- `strings.Split` at a byte.
abbrev pub split_onto : Bool → ℕ → List Bytes → List Bytes
split_onto true c parts = [] ∷ parts
split_onto false c [] = (c ∷ []) ∷ []
split_onto false c (part ∷ parts) = (c ∷ part) ∷ parts

unfoldable pub split : ℕ → Bytes → List Bytes
split sep [] = [] ∷ []
split sep (c ∷ s) = split_onto (c == sep) c (split sep s)

-- `claims[key]`
unfoldable pub claim : Bytes → List (Bytes × Json) → Option Json
unfolding bytes_eq
claim key [] = none
claim key ((k, v) ∷ rest) = let found = claim key rest in if bytes_eq k key then some v else found

-- The switch on the type of the claim `exp`.
unfoldable pub expired_at : ℤ → Json → Bool
unfolding atoi
expired_at now (number exp) = ltb_ℤ exp now
expired_at now (text exp) = elim (atoi exp) [ none ↦ false | some n ↦ ltb_ℤ n now ]
expired_at now null_json = false
expired_at now other_json = false

-- The payload of a token of three parts.
abbrev pub payload : List Bytes → Option Bytes
payload (header ∷ body ∷ signature ∷ []) = some body
payload _ = none

unfoldable pub is_expired_jwt : Clock → Bytes → Bool
unfolding split claim expired_at
is_expired_jwt clock token = elim (payload (split b'.' token)) [
  | none ↦ false
  | some part ↦ elim (clock.decode_raw_url part) [
    | none ↦ false
    | some payload_bytes ↦ elim (clock.unmarshal_claims payload_bytes) [
      | none ↦ false
      | some claims ↦ elim (claim (codes "exp") claims) [
        | none ↦ false
        | some exp ↦ expired_at clock.now exp
      ]
    ]
  ]
]

pub data Gate : Type 0 where
  admitted : Bytes → Gate
  refused : ℕ → ErrorCode → Bytes → Gate

-- The guards on the header `Authorization`, which the middlewares share but for the error, and
-- what follows them for a token.
unfoldable pub check_bearer : ℕ → ErrorCode → (Bytes → Gate) → Bytes → Gate
unfolding strip_prefix
check_bearer status code proceed [] = refused status code (codes "missing authorization")
check_bearer status code proceed (c ∷ cs) = elim (strip_prefix (codes "Bearer ") (c ∷ cs)) [
  | none ↦ refused status code (codes "unsupported authentication scheme")
  | some [] ↦ refused status code (codes "missing access token")
  | some (d ∷ ds) ↦ proceed (d ∷ ds)
]

-- What `pactAuthMiddleware` and `pactEventsAuthMiddleware` make of a validation; they differ in
-- the status of an invalid token.
unfoldable pub pact_verdict : ℕ → Bytes → Result TokenInfo → Gate
pact_verdict status token (ok info) = admitted token
pact_verdict status token (err unimplemented message) =
    refused 501 error_not_implemented (codes "not implemented")
pact_verdict status token (err _ message) =
    refused status bad_request (codes "invalid access token")

unfoldable pub ileap_verdict : Bytes → Result TokenInfo → Gate
ileap_verdict token (ok info) = admitted token
ileap_verdict token (err unimplemented message) =
    refused 501 error_not_implemented (codes "not implemented")
ileap_verdict token (err unauthenticated message) =
    refused 401 token_expired (codes "token expired")
ileap_verdict token (err _ message) = refused 403 access_denied (codes "invalid access token")

-- What `ileapAuthMiddleware` makes of a token that says it has expired, or else of a validation.
abbrev pub ileap_checked : Bool → Bytes → Result TokenInfo → Gate
ileap_checked true token validation = refused 401 token_expired (codes "token expired")
ileap_checked false token validation = ileap_verdict token validation

module _ {Token Config Keys : Type 0} (auth : AuthHandler Token Config Keys) where
  unfoldable pub pact_gate : Bytes → Gate
  pact_gate =
      check_bearer 400 bad_request (λ token. pact_verdict 401 token (auth.validate_token token))

  unfoldable pub pact_events_gate : Bytes → Gate
  pact_events_gate =
      check_bearer 400 bad_request (λ token. pact_verdict 400 token (auth.validate_token token))

  unfoldable pub ileap_gate : Clock → Bytes → Gate
  ileap_gate clock =
      check_bearer 403 access_denied
        (λ token. ileap_checked (is_expired_jwt clock token) token (auth.validate_token token))

-- A middleware: the gate, and `next` for a request that it admits, whose context has the token.
unfoldable pub through : {A : Type 0} → Gate → (Bytes → Response A) → Response A
through (admitted token) next = next token
through (refused status code message) next = write_error status code message
