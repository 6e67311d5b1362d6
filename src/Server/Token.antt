-- ===== src/Server/Token.antt =====
-- server.go: the token endpoint `authToken`, the discovery endpoints `openIDConfig` and `jwks`, and
-- `resolveBaseURL`.
pub mod Escaped
pub mod Issued
use ileap_go.Common.{
  ℕ, ◌+◌, ◌-◌, ◌*◌, Bool, true, false, ◌&&◌, ◌||◌, not, List, [], ◌∷◌, ◌++◌, Option, none, some,
  leb, ◌==◌, if◌then◌else◌, Bytes, codes, bytes_eq,
}
use ileap_go.Service.{
  Code, unimplemented, resource_exhausted, unavailable, permission_denied, Result, ok, err,
}
use ileap_go.Server.Http.{
  Values, get, error_not_implemented, OauthErrorCode, invalid_request, unsupported_grant_type,
  server_error, temporarily_unavailable, Response, json, oauth_error, write_error,
}
use ileap_go.Server.Auth.{AuthHandler}

-- `url.QueryUnescape`: an escape is a percent sign and two hexadecimal digits.
unfoldable pub is_hex : ℕ → Bool
is_hex c = (leb b'0' c && leb c b'9') || (leb b'a' c && leb c b'f') || (leb b'A' c && leb c b'F')

unfoldable pub unhex : ℕ → ℕ
unhex c =
    if leb b'0' c && leb c b'9'
    then c - b'0'
    else if leb b'a' c && leb c b'f'
    then c - b'a' + 10
    else c - b'A' + 10

-- A byte that begins no escape.
abbrev pub plain : ℕ → ℕ
plain c = if c == b'+' then b' ' else c

abbrev pub prepend : ℕ → Option Bytes → Option Bytes
prepend c none = none
prepend c (some s) = some (c ∷ s)

unfoldable pub query_unescape : Bytes → Option Bytes
unfolding is_hex unhex
query_unescape [] = some []
query_unescape (c ∷ []) = if c == b'%' then none else some (plain c ∷ [])
query_unescape (c ∷ d ∷ []) = elim (c == b'%') [
  | true ↦ none
  | false ↦ prepend (plain c) (query_unescape (d ∷ []))
]
query_unescape (c ∷ d ∷ e ∷ s) = elim (c == b'%') [
  | true ↦ elim (is_hex d && is_hex e) [
    | true ↦ prepend (unhex d * 16 + unhex e) (query_unescape s)
    | false ↦ none
  ]
  | false ↦ prepend (plain c) (query_unescape (d ∷ e ∷ s))
]

-- What `authToken` reads of a request: a header, `ParseForm`, where `none` is an error, and
-- `BasicAuth`.
pub record TokenRequest : Type 0 where
  pub content_type : Bytes
  pub form : Option Values
  pub basic_auth : Option (Bytes × Bytes)

abbrev pub write_oauth_error : {A : Type 0} → ℕ → OauthErrorCode → Bytes → Response A
write_oauth_error status code description = record {
  status = status;
  link = none;
  body = oauth_error code description;
}

abbrev pub write_json : {A : Type 0} → A → Response A
write_json v = record { status = 200; link = none; body = json v }

-- `clientID, err := url.QueryUnescape(username); if err != nil { clientID = username }`
abbrev pub unescaped_or_raw : Bytes → Bytes
unescaped_or_raw raw = elim (query_unescape raw) [ none ↦ raw | some s ↦ s ]

-- What follows `IssueToken`.
unfoldable pub write_token : {A : Type 0} → Result A → Response A
write_token (ok creds) = write_json creds
write_token (err unimplemented message) =
    write_error 501 error_not_implemented (codes "not implemented")
write_token (err resource_exhausted message) =
    write_oauth_error 429 temporarily_unavailable (codes "temporarily unavailable")
write_token (err unavailable message) =
    write_oauth_error 503 temporarily_unavailable (codes "temporarily unavailable")
write_token (err permission_denied message) =
    write_oauth_error 400 invalid_request (codes "invalid HTTP basic auth")
write_token (err _ message) = write_oauth_error 500 server_error (codes "failed to issue token")

-- What is sent for `nil` or a value.
abbrev pub write_if_any : {A : Type 0} → Option A → Response A
write_if_any none = write_error 501 error_not_implemented (codes "not implemented")
write_if_any (some v) = write_json v

-- `resolveBaseURL`: the header `X-Forwarded-Proto`, whether the connection has TLS, and the host.
unfoldable pub resolve_base_url : Bytes → Bytes → Bool → Bytes → Bytes
resolve_base_url path_prefix [] tls host =
    (if tls then codes "https" else codes "http") ++ (codes "://" ++ (host ++ path_prefix))
resolve_base_url path_prefix (c ∷ cs) tls host = (c ∷ cs) ++ (codes "://" ++ (host ++ path_prefix))

module _ {Token Config Keys : Type 0} (auth : AuthHandler Token Config Keys) where
  unfoldable pub auth_token : TokenRequest → Response Token
  unfolding bytes_eq
  auth_token r = elim (bytes_eq r.content_type (codes "application/x-www-form-urlencoded")) [
    | false ↦ write_oauth_error 400 invalid_request (codes "invalid content type")
    | true ↦ elim r.form [
      | none ↦ write_oauth_error 400 invalid_request (codes "invalid request body")
      | some form ↦ elim (bytes_eq (get form (codes "grant_type")) (codes "client_credentials")) [
        | false ↦ write_oauth_error 400 unsupported_grant_type (codes "unsupported grant type")
        | true ↦ elim r.basic_auth [
          | none ↦ write_oauth_error 400 invalid_request (codes "missing HTTP basic authorization")
          | some (username, password) ↦
              write_token (auth.issue_token (unescaped_or_raw username) (unescaped_or_raw password))
        ]
      ]
    ]
  ]

  unfoldable pub open_id_config : Bytes → Response Config
  open_id_config base_url = write_if_any (auth.open_id_configuration base_url)

  unfoldable pub jwks : Response Keys
  jwks = write_if_any auth.jwks
