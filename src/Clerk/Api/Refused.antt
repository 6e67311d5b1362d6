-- ===== src/Clerk/Api/Refused.antt =====
-- handlers/ileapclerk/client.go under handlers/ileapclerk/auth_handler.go and server.go, `authToken`:
-- what a failed sign-in makes of the response of the token endpoint.
use ileap_go.Common.{
  ℕ, true, false, ◌≡◌, refl, none, leb, ◌==◌, if◌then◌else◌, inl, inr, Bool-cases, Bytes, codes,
}
use ileap_go.Service.{err}
use ileap_go.Server.Http.{temporarily_unavailable, invalid_request, Response}
use ileap_go.Server.Auth.{Clock}
use ileap_go.Server.Token.{write_oauth_error, write_token}
use ileap_go.Client.Http.{HttpResponse, Sent, failed, answered}
use ileap_go.Clerk.Tokens.{
  Config, Cache, SignInError, api_error, net_error, token_cache_key, lookup, cached_token,
  sign_in_code, issue_token,
}
use ileap_go.Clerk.Api.{
  Called, refused, Fapi, is_success, read_answer, call, sign_in_request, sign_in, clerk_client,
}

-- The answer of the token endpoint where Clerk cannot be reached, or answers with this status.
abbrev unreachable : {A : Type 0} → Response A
unreachable = write_oauth_error 503 temporarily_unavailable (codes "temporarily unavailable")

abbrev pub token_refusal : {A : Type 0} → Sent → Response A
token_refusal failed = unreachable
token_refusal (answered response) =
    if response.status_code == 429
    then write_oauth_error 429 temporarily_unavailable (codes "temporarily unavailable")
    else if leb 500 response.status_code
    then unreachable
    else write_oauth_error 400 invalid_request (codes "invalid HTTP basic auth")

-- The exchange failed, or its status is none of success.
abbrev pub IsFailure : Sent → Type 0
IsFailure failed = Unit
IsFailure (answered response) = is_success response.status_code ≡ false

abbrev failure : Sent → SignInError
failure failed = net_error
failure (answered response) = api_error response.status_code

call_refused :
    {A : Type 0} (read : HttpResponse → Called A) (sent : Sent)
    → IsFailure sent
    → read_answer read sent ≡ refused (failure sent)
call_refused read failed h = refl
call_refused read (answered response) h = rw h refl

write_token_refused :
    {A : Type 0} (sent : Sent)
    → write_token {A = A} (err (sign_in_code (failure sent)) (codes "sign in")) ≡ token_refusal sent
unfolding write_token sign_in_code
write_token_refused failed = refl
write_token_refused (answered response) = elim (Bool-cases (response.status_code == 429)) [
  | inl b ↦ rw b refl
  | inr b ↦ elim (Bool-cases (leb 500 response.status_code)) [
    | inl d ↦ rw (b, d) refl
    | inr d ↦ rw (b, d) refl
  ]
]

module _ (fapi : Fapi) (config : Config) (clock : Clock) (now later : ℕ) (id secret : Bytes)
    (cache : Cache) where
  sign_in_refused :
      (org : Bytes)
      → fapi.is_valid_url (sign_in_request fapi id secret).url ≡ true
      → IsFailure (fapi.send (sign_in_request fapi id secret))
      → sign_in fapi id secret org ≡ refused (failure (fapi.send (sign_in_request fapi id secret)))
  unfolding sign_in call
  sign_in_refused org valid h =
      rw (valid, sign_in, call) (call_refused _ (fapi.send (sign_in_request fapi id secret)) h)

  -- Where the cache gives no token and the exchange for a sign-in fails, or has a status that is
  -- none of success, the token endpoint answers 503 for an exchange that failed and for a status
  -- of 500 or more, 429 for 429, and 400 for the others; the URL for signing in is valid.
  pub issue_token-token_refusal :
      cached_token config.token_cache_ttl now
          (lookup (token_cache_key config.sha256_hex id secret) cache)
        ≡ none
      → fapi.is_valid_url (sign_in_request fapi id secret).url ≡ true
      → IsFailure (fapi.send (sign_in_request fapi id secret))
      → write_token (issue_token config clock (clerk_client fapi) now later id secret cache).0
        ≡ token_refusal (fapi.send (sign_in_request fapi id secret))
  unfolding issue_token clerk_client
  issue_token-token_refusal missed valid h =
      rw (missed, sign_in_refused config.active_org_id valid h, issue_token)
        (write_token_refused (fapi.send (sign_in_request fapi id secret)))
