-- ===== src/Server/Http.antt =====
-- server.go and error.go: requests, responses and the writers of error responses.
use ileap_go.Common.{ℕ, List, [], ◌∷◌, Option, none, if◌then◌else◌, Bytes, codes, bytes_eq}
use ileap_go.Service.{Code, unimplemented, not_found, invalid_argument, permission_denied}

-- `url.Values`: the values of each key, in the order in which a range over the map meets them.
abbrev pub Values : Type 0
Values = List (Bytes × List Bytes)

-- The first value of a key, or the empty text.
abbrev pub first_value : List Bytes → Bytes
first_value [] = []
first_value (v ∷ _) = v

-- `url.Values.Get`
unfoldable pub get : Values → Bytes → Bytes
unfolding bytes_eq
get [] key = []
get ((k, vs) ∷ rest) key =
    let more = get rest key in if bytes_eq k key then first_value vs else more

-- The parts of an HTTP request that the list handlers read. The host stands for what
-- `resolveBaseURL` makes of the headers and the TLS state.
pub record Request : Type 0 where
  pub base_url : Bytes
  pub query : Values

-- `ErrorCode`
pub data ErrorCode : Type 0 where
  bad_request access_denied token_expired error_not_found : ErrorCode
  internal_error error_not_implemented no_such_footprint : ErrorCode

-- `OAuthErrorCode`
pub data OauthErrorCode : Type 0 where
  invalid_request unauthorized_client oauth_access_denied unsupported_response_type : OauthErrorCode
  invalid_scope server_error temporarily_unavailable unsupported_grant_type : OauthErrorCode

-- `ErrorCode` as it stands in JSON.
unfoldable pub code_text : ErrorCode → Bytes
code_text bad_request = codes "BadRequest"
code_text access_denied = codes "AccessDenied"
code_text token_expired = codes "TokenExpired"
code_text error_not_found = codes "NotFound"
code_text internal_error = codes "InternalError"
code_text error_not_implemented = codes "NotImplemented"
code_text no_such_footprint = codes "NoSuchFootprint"

-- `OAuthErrorCode` as it stands in JSON.
unfoldable pub oauth_code_text : OauthErrorCode → Bytes
oauth_code_text invalid_request = codes "invalid_request"
oauth_code_text unauthorized_client = codes "unauthorized_client"
oauth_code_text oauth_access_denied = codes "access_denied"
oauth_code_text unsupported_response_type = codes "unsupported_response_type"
oauth_code_text invalid_scope = codes "invalid_scope"
oauth_code_text server_error = codes "server_error"
oauth_code_text temporarily_unavailable = codes "temporarily_unavailable"
oauth_code_text unsupported_grant_type = codes "unsupported_grant_type"

pub data Body (A : Type 0) : Type 0 where
  data_list : List A → Body A
  data_item : A → Body A
  json : A → Body A
  pact_error : ErrorCode → Bytes → Body A
  oauth_error : OauthErrorCode → Bytes → Body A
  empty : Body A

pub record Response (A : Type 0) : Type 0 where
  pub status : ℕ
  pub link : Option Bytes
  pub body : Body A

abbrev pub write_error : {A : Type 0} → ℕ → ErrorCode → Bytes → Response A
write_error status code message = record {
  status = status;
  link = none;
  body = pact_error code message;
}

-- `writeHandlerError`
unfoldable pub write_handler_error : {A : Type 0} → Code → Bytes → Response A
write_handler_error unimplemented text =
    write_error 501 error_not_implemented (codes "not implemented")
write_handler_error not_found text = write_error 404 no_such_footprint text
write_handler_error invalid_argument text = write_error 400 bad_request text
write_handler_error permission_denied text = write_error 403 access_denied text
write_handler_error _ text = write_error 500 internal_error (codes "internal error")
