-- ===== src/Clerk/ApiTests.antt =====
-- Instances of the theorems about the client of the Clerk API.
use ileap_go.Common.{
  ℕ, true, [], ◌∷◌, ◌≡◌, refl, subst, All, none, some, if◌then◌else◌, Bytes, codes, bytes_eq, pos,
  replicate,
}
use ileap_go.Server.Auth.{Clock}
use ileap_go.Server.Token.{write_token}
use ileap_go.Url.{encode, set}
use ileap_go.Client.Http.{HttpResponse, answered}
use ileap_go.Clerk.Tokens.{Config, cached_token, token_cache_key, lookup, issue_token}
use ileap_go.Clerk.Tokens.Cached.{IsSound}
use ileap_go.Clerk.Api.{SignInResponse, Fapi, decoded, malformed, sign_in_request, clerk_client}
use ileap_go.Clerk.Api.Granted.{IsOwned, Answers, clerk_client-IsSound}
use ileap_go.Clerk.Api.Refused.{IsFailure, token_refusal, issue_token-token_refusal}

abbrev response : ℕ → Bytes → HttpResponse
response status body = record {
  status = [];
  status_code = status;
  content_type = codes "application/json";
  authorization = codes "cookie";
  body = some body;
}

abbrev signed : SignInResponse
signed = record {
  status = codes "complete";
  created_session_id = codes "session";
  sessions = record { id = codes "session"; jwt = codes "jwt-of-me" } ∷ [];
}

-- An API that knows one user.
abbrev fapi : Fapi
fapi = record {
  fapi_domain = codes "clerk";
  send = λ request. answered (
      if bytes_eq request.content (codes "identifier=me&password=pw&strategy=password")
      then response 200 (codes "jwt-of-me")
      else response 422 []);
  is_valid_url = λ url. true;
  decode_sign_in = λ r. decoded signed;
  decode_token = λ r. decoded (codes "jwt-of-me");
  decode_jwks = λ r. malformed;
}

abbrev config : Config
config = record {
  active_org_id = [];
  jwt_template_name = codes "template";
  token_cache_ttl = 30;
  sha256_hex = λ x. replicate 64 b'0';
}

-- Who is given a token.
abbrev Grants : Bytes → Bytes → Bytes → Type 0
Grants id secret jwt = jwt ≡ codes "jwt-of-me"

abbrev Owns : Bytes → Type 0
Owns session = session ≡ codes "session"

abbrev Owned : SignInResponse → Type 0
Owned result =
    All (λ x. Grants (codes "me") (codes "pw") x.jwt) result.sessions
    × (All (λ x. Owns x.id) result.sessions
        × IsOwned (Grants (codes "me") (codes "pw")) Owns result.created_session_id)

signed-Owned : (result : SignInResponse) → decoded signed ≡ decoded result → Owned result
signed-Owned result e =
    let same : signed ≡ result = cc e in subst Owned same ((refl, tt), ((refl, tt), refl))

granted : (jwt : Bytes) → decoded (codes "jwt-of-me") ≡ decoded jwt → jwt ≡ codes "jwt-of-me"
granted jwt e = cc e

answers : Answers (Grants (codes "me") (codes "pw")) Owns fapi (codes "me") (codes "pw")
answers = record {
  signs = λ r result sent e. signed-Owned result e;
  touches = λ session org header r result o sent e. (signed-Owned result e).0;
  creates = λ session template header r jwt o sent e. granted jwt e;
}

clerk_client-IsSound_example : IsSound config Grants (clerk_client fapi) (codes "me") (codes "pw")
clerk_client-IsSound_example =
    clerk_client-IsSound fapi config Grants Owns (codes "me") (codes "pw") answers

abbrev clock : Clock
clock = record { now = pos 100; decode_raw_url = λ part. none; unmarshal_claims = λ bytes. none }

missed :
    cached_token config.token_cache_ttl 0
      (lookup (token_cache_key config.sha256_hex (codes "me") (codes "no")) [])
    ≡ none
unfolding lookup
missed = refl

fails : IsFailure (fapi.send (sign_in_request fapi (codes "me") (codes "no")))
unfolding sign_in_request encode set bytes_eq
fails = refl

issue_token-token_refusal_example :
    write_token (issue_token config clock (clerk_client fapi) 0 1 (codes "me") (codes "no") []).0
    ≡ token_refusal (fapi.send (sign_in_request fapi (codes "me") (codes "no")))
issue_token-token_refusal_example =
    issue_token-token_refusal fapi config clock 0 1 (codes "me") (codes "no") [] missed refl fails
