-- ===== src/Server/Routes/Shaped.antt =====
-- server.go: the responses of the routes and of the token and discovery endpoints, by their kinds.
use ileap_go.Common.{ℕ, ◌≡◌, ◌⊎◌, Option, none, Bytes}
use ileap_go.Service.{Service}
use ileap_go.Server.Http.{
  ErrorCode, bad_request, access_denied, token_expired, error_not_found, internal_error,
  error_not_implemented, no_such_footprint, OauthErrorCode, server_error, temporarily_unavailable,
  Body, data_list, pact_error, oauth_error, Response,
}
use ileap_go.Server.Auth.{Gate, admitted, refused}

-- The statuses that go with a code.
abbrev pub HasStatus : ErrorCode → ℕ → Type 0
HasStatus bad_request status = (status ≡ 400) ⊎ (status ≡ 401)
HasStatus access_denied status = status ≡ 403
HasStatus token_expired status = status ≡ 401
HasStatus error_not_found status = status ≡ 404
HasStatus internal_error status = status ≡ 500
HasStatus error_not_implemented status = status ≡ 501
HasStatus no_such_footprint status = status ≡ 404

abbrev pub HasOauthStatus : OauthErrorCode → ℕ → Type 0
HasOauthStatus server_error status = status ≡ 500
HasOauthStatus temporarily_unavailable status = (status ≡ 429) ⊎ (status ≡ 503)
HasOauthStatus _ status = status ≡ 400

-- A body with its status and `Link`: data with 200, an error with the status of its code, and a
-- `Link` only with a list.
abbrev Fits : {A : Type 0} → ℕ → Option Bytes → Body A → Type 0
Fits status link (data_list xs) = status ≡ 200
Fits status link (pact_error code message) = HasStatus code status × (link ≡ none)
Fits status link (oauth_error code description) = HasOauthStatus code status × (link ≡ none)
Fits status link _ = (status ≡ 200) × (link ≡ none)

abbrev pub IsShaped : {A : Type 0} → Response A → Type 0
IsShaped r = Fits r.status r.link r.body

abbrev IsGate : Gate → Type 0
IsGate (admitted token) = Unit
IsGate (refused status code message) = HasStatus code status
