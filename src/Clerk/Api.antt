-- ===== src/Clerk/Api.antt =====
-- handlers/ileapclerk/client.go: the client of the Clerk API. Its errors are told apart as `IssueToken`
-- tells them apart; an error of `http.NewRequest` or of `Do` is a `url.Error`, which is a
-- `net.Error`.
pub mod Granted
pub mod Refused
use ileap_go.Common.{
  ℕ, Bool, true, false, ◌&&◌, List, [], ◌∷◌, ◌++◌, Option, none, some, ltb, leb, if◌then◌else◌,
  Bytes, codes, bytes_eq,
}
use ileap_go.Url.{encode, set}
use ileap_go.Client.Http.{HttpRequest, HttpResponse, Sent, failed, answered, Transport}
use ileap_go.Clerk.Keys.{Jwk}
use ileap_go.Clerk.Tokens.{SignInResult, SignInError, api_error, net_error, other_error, Clerk}

-- The parts of `signInResponse`.
pub record Session : Type 0 where
  pub id : Bytes
  pub jwt : Bytes

pub record SignInResponse : Type 0 where
  pub status : Bytes
  pub created_session_id : Bytes
  pub sessions : List Session

-- What a JSON decoder makes of a body: a value, an error of the network, or another one.
pub data Decoded (A : Type 0) : Type 0 where
  decoded : A → Decoded A
  cut_off : Decoded A
  malformed : Decoded A

-- The result of a call: a value, or an error.
pub data Called (A : Type 0) : Type 0 where
  done : A → Called A
  refused : SignInError → Called A

-- `Client`: its domain and its HTTP client, with what the code takes from `url` and `encoding/json`.
pub record Fapi : Type 0 where
  pub fapi_domain : Bytes
  pub send : Transport
  pub is_valid_url : Bytes → Bool
  pub decode_sign_in : HttpResponse → Decoded SignInResponse
  pub decode_token : HttpResponse → Decoded Bytes
  pub decode_jwks : HttpResponse → Decoded (List Jwk)

abbrev form_type : Bytes
form_type = codes "application/x-www-form-urlencoded"

abbrev pub post : Bytes → Bytes → Bytes → Bytes → HttpRequest
post url content_type authorization content = record {
  method = codes "POST";
  url = url;
  raw_query = [];
  authorization = authorization;
  content_type = content_type;
  user_agent = [];
  content = content;
}

abbrev pub of_decoded : {A : Type 0} → Decoded A → Called A
of_decoded (decoded v) = done v
of_decoded cut_off = refused net_error
of_decoded malformed = refused other_error

-- `resp.StatusCode < 200 || resp.StatusCode >= 300`, the other way round.
abbrev pub is_success : ℕ → Bool
is_success status = leb 200 status && ltb status 300

abbrev pub read_answer : {A : Type 0} → (HttpResponse → Called A) → Sent → Called A
read_answer read failed = refused net_error
read_answer read (answered response) =
    if is_success response.status_code
    then read response
    else refused (api_error response.status_code)

-- `sessions[0].LastActiveToken.JWT`, if it is not empty.
abbrev pub first_jwt : List Session → Called Bytes
first_jwt [] = refused other_error
first_jwt (s ∷ sessions) = if bytes_eq s.jwt [] then refused other_error else done s.jwt

-- The session of a sign-in.
abbrev pub session_of : Bytes → List Session → Bytes
session_of [] [] = []
session_of [] (s ∷ sessions) = s.id
session_of (c ∷ cs) sessions = c ∷ cs

abbrev pub with_jwt : Bytes → Bytes → Called Bytes → Called SignInResult
with_jwt session_id auth_header (refused e) = refused e
with_jwt session_id auth_header (done jwt) =
    done (record { jwt = jwt; session_id = session_id; auth_header = auth_header })

abbrev pub non_empty : Bytes → Called Bytes
non_empty [] = refused other_error
non_empty (c ∷ cs) = done (c ∷ cs)

abbrev pub and_jwt : (Bytes → Called Bytes) → Called Bytes → Called Bytes
and_jwt check (refused e) = refused e
and_jwt check (done jwt) = check jwt

abbrev pub jwt_of : Called SignInResponse → Called Bytes
jwt_of (refused e) = refused e
jwt_of (done result) = first_jwt result.sessions

module _ (fapi : Fapi) where
  -- `http.NewRequest` and `Do`, and what is read of the response.
  unfoldable pub call : {A : Type 0} → HttpRequest → (HttpResponse → Called A) → Called A
  call request read =
      if fapi.is_valid_url request.url
      then read_answer read (fapi.send request)
      else refused net_error

  unfoldable pub sign_in_request : Bytes → Bytes → HttpRequest
  unfolding encode set
  sign_in_request identifier password =
      post (codes "https://" ++ (fapi.fapi_domain ++ codes "/v1/client/sign_ins")) form_type [] (
        encode (
          set (codes "password") password
            (set (codes "identifier") identifier (set (codes "strategy") (codes "password") []))))

  unfoldable pub touch_request : Bytes → Bytes → Bytes → HttpRequest
  unfolding encode set
  touch_request session_id active_org_id auth_header =
      post
        (codes "https://"
          ++ (fapi.fapi_domain ++ (codes "/v1/client/sessions/" ++ (session_id ++ codes "/touch"))))
        form_type auth_header (encode (set (codes "active_organization_id") active_org_id []))

  unfoldable pub token_request : Bytes → Bytes → Bytes → HttpRequest
  token_request session_id template_name auth_header =
      post
        (codes "https://"
          ++ (fapi.fapi_domain
              ++ (codes "/v1/client/sessions/"
                  ++ (session_id ++ (codes "/tokens/" ++ template_name)))))
        [] auth_header []

  -- `TouchSession`
  unfoldable pub touch_session : Bytes → Bytes → Bytes → Called Bytes
  touch_session session_id active_org_id auth_header = jwt_of (
      call (touch_request session_id active_org_id auth_header)
        (λ response. of_decoded (fapi.decode_sign_in response)))

  -- `SignIn` with an organisation, from the session on.
  abbrev pub activate : Bytes → Bytes → Bytes → Called SignInResult
  activate active_org_id auth_header [] = refused other_error
  activate active_org_id auth_header (c ∷ cs) =
      with_jwt (c ∷ cs) auth_header (touch_session (c ∷ cs) active_org_id auth_header)

  -- `SignIn`, from the decoded response on.
  unfoldable pub signed_in : Bytes → Bytes → SignInResponse → Called SignInResult
  signed_in [] auth_header result =
      if bytes_eq result.status (codes "complete")
      then with_jwt (session_of result.created_session_id result.sessions) auth_header
          (first_jwt result.sessions)
      else refused other_error
  signed_in (c ∷ cs) auth_header result =
      if bytes_eq result.status (codes "complete")
      then activate (c ∷ cs) auth_header (session_of result.created_session_id result.sessions)
      else refused other_error

  abbrev pub read_sign_in : Bytes → Bytes → Called SignInResponse → Called SignInResult
  read_sign_in active_org_id auth_header (refused e) = refused e
  read_sign_in active_org_id auth_header (done result) = signed_in active_org_id auth_header result

  -- `SignIn`
  unfoldable pub sign_in : Bytes → Bytes → Bytes → Called SignInResult
  sign_in identifier password active_org_id =
      call (sign_in_request identifier password) (λ response.
        read_sign_in active_org_id response.authorization
          (of_decoded (fapi.decode_sign_in response)))

  -- `CreateSessionToken`
  unfoldable pub create_session_token : Bytes → Bytes → Bytes → Called Bytes
  create_session_token session_id template_name auth_header = and_jwt non_empty (
      call (token_request session_id template_name auth_header)
        (λ response. of_decoded (fapi.decode_token response)))

  abbrev fetched : Called (List Jwk) → Option (List Jwk)
  fetched (done jwks) = some jwks
  fetched (refused e) = none

  -- `FetchJWKS`, where `none` is an error.
  unfoldable pub fetch_jwks : Option (List Jwk)
  fetch_jwks = fetched (
      call
        (record (post (codes "https://" ++ (fapi.fapi_domain ++ codes "/.well-known/jwks.json")) []
          [] []) { method = codes "GET" })
        (λ response. of_decoded (fapi.decode_jwks response)))

abbrev pub error_of : Called SignInResult → Option SignInError
error_of (refused e) = some e
error_of (done result) = none

abbrev pub value_of : Called SignInResult → SignInResult
value_of (refused e) = record { jwt = []; session_id = []; auth_header = [] }
value_of (done result) = result

abbrev pub token_of : Called Bytes → Option Bytes
token_of (refused e) = none
token_of (done jwt) = some jwt

-- The client as `IssueToken` uses it.
unfoldable pub clerk_client : Fapi → Clerk
clerk_client fapi = record {
  sign_in_error = λ id secret org. error_of (sign_in fapi id secret org);
  sign_in = λ id secret org. value_of (sign_in fapi id secret org);
  create_session_token =
      λ session template header. token_of (create_session_token fapi session template header);
}
