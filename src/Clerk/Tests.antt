-- ===== src/Clerk/Tests.antt =====
-- Instances of the theorems about the Clerk authentication handler.
use ileap_go.Common.{
  ℕ, ◌+◌, ◌<◌, ◌*◌, List, [], ◌∷◌, ◌++◌, ◌≡◌, refl, ◌↔◌, true, none, Option, some, All, replicate,
  Bytes, codes, pos,
}
use ileap_go.Service.{ok}
use ileap_go.Server.Auth.{Clock, number, text}
use ileap_go.Clerk.Keys.{Jwk, KeyCache, Fetches, find_key, find_cached}
use ileap_go.Clerk.Keys.Found.{find_key-cached}
use ileap_go.Clerk.Validation.{Crypto, validate_token}
use ileap_go.Clerk.Validation.Valid.{IsValid, validate_token_iff}
use ileap_go.Clerk.Tokens.{
  Token, Clerk, net_error, Config, Cache, token_cache_key, issue_token, seconds_until,
}
use ileap_go.Clerk.Handler.{
  AuthHandlerOption, with_token_cache_ttl, with_active_organization, new_auth_handler, Call,
  issue_on, issue_all, apply_handler_option,
}
use ileap_go.Clerk.Handler.Calls.{Answers, Given, issue_all-Grants}
use ileap_go.Demo.Match.{unix_epoch}
use ileap_go.Clerk.Tokens.Cached.{IsGranted, IsSound}
use ileap_go.Clerk.Tokens.Owner.{issue_token-Grants, issue_token_fresh}

-- Tokens carry the name of the client.
abbrev Named : Bytes → Bytes → Bytes → Type 0
Named id secret jwt = jwt ≡ id

abbrev config : Config
config = record {
  active_org_id = [];
  jwt_template_name = [];
  token_cache_ttl = 30;
  sha256_hex = λ x. replicate 64 b'0';
}

abbrev up : Clerk
up = record {
  sign_in_error = λ id secret org. none;
  sign_in = λ id secret org. record { jwt = id; session_id = []; auth_header = [] };
  create_session_token = λ session template header. none;
}

abbrev down : Clerk
down = record up { sign_in_error = λ id secret org. some net_error }

abbrev clock : Clock
clock = record {
  now = pos 100;
  decode_raw_url = λ part. some part;
  unmarshal_claims = λ bytes. some ((codes "exp", number (pos 200)) ∷ []);
}

abbrev mine : Token
mine = record {
  access_token = codes "me";
  token_type = codes "bearer";
  expiry = some 100;
  expires_in = 0;
}

abbrev cache : Cache
cache = (token_cache_key config.sha256_hex (codes "me") (codes "pw"), mine) ∷ []

down-IsSound : IsSound config Named down (codes "me") (codes "pw")
down-IsSound = record { signed_in = λ f. refl; created = λ template jwt f e. absurd (cc e) }

cache-IsGranted : All (IsGranted config Named) cache
cache-IsGranted = ((codes "me", codes "pw", refl, refl), tt)

abbrev given : Token
given = record mine { expires_in = 0 }

served : (issue_token config clock down 10 11 (codes "me") (codes "pw") cache).0 ≡ ok given
unfolding issue_token
served = refl

issue_token-Grants_example :
    (secret' : Bytes) × (config.sha256_hex (codes "me" ++ (codes ":" ++ codes "pw"))
      ≡ config.sha256_hex (codes "me" ++ (codes ":" ++ secret')))
    × Named (codes "me") secret' given.access_token
issue_token-Grants_example =
    issue_token-Grants config Named clock down 10 11 (codes "me") (codes "pw") cache down-IsSound
      cache-IsGranted given (λ x. refl) served

issue_token_fresh_example : (n : ℕ) × (given.expiry ≡ some n) × (10 + config.token_cache_ttl < n)
issue_token_fresh_example =
    issue_token_fresh config clock down 10 11 (codes "me") (codes "pw") cache given net_error refl
      served

abbrev key_one : Jwk
key_one = record { key_id = codes "k1"; n = codes "n"; e = codes "e" }

abbrev no_keys : KeyCache
no_keys = record { cached_jwks = none; cached_at = 0 }

abbrev one_key : Fetches
one_key = record { now = 10; first_fetch = some (key_one ∷ []); second_fetch = none }

abbrev as_is : Bytes → Option Bytes
as_is s = some s

key_found : (find_key as_is 5 one_key (codes "k1") no_keys).0 ≡ some (codes "n", codes "e")
unfolding find_key
key_found = refl

find_key-cached_example :
    find_cached as_is 5 (codes "k1") (find_key as_is 5 one_key (codes "k1") no_keys).1.cached_jwks
    ≡ some (codes "n", codes "e")
find_key-cached_example =
    find_key-cached as_is 5 (codes "k1") (codes "n", codes "e") one_key no_keys key_found

abbrev crypto : Crypto
crypto = record {
  unix_now = pos 100;
  decode_raw_url = as_is;
  unmarshal_claims =
      λ bytes. some ((codes "sub", text (codes "me")) ∷ (codes "exp", number (pos 200)) ∷ []);
  unmarshal_header = λ bytes. some (codes "k1", codes "RS256");
  verify = λ key message signature. true;
}

validates :
    (validate_token crypto 5 one_key (codes "h.b.s") no_keys).0
    ≡ ok (record { subject = codes "me" })
unfolding validate_token
validates = refl

validate_token_iff_example :
    ((validate_token crypto 5 one_key (codes "h.b.s") no_keys).0
      ≡ ok (record { subject = codes "me" }))
    ↔ IsValid crypto 5 one_key (codes "h.b.s") no_keys (codes "me")
validate_token_iff_example =
    validate_token_iff crypto 5 one_key (codes "h.b.s") no_keys (codes "me")

-- Clerk signs in a client once, and is down at the second call, which the cache serves.
abbrev first_call : Call
first_call = record {
  client_id = codes "a.b.c";
  client_secret = codes "pw";
  now = 0;
  later = 0;
  clerk = up;
}

abbrev second_call : Call
second_call = record first_call { now = 1; clerk = down }

abbrev half_minute : List AuthHandlerOption
half_minute = with_token_cache_ttl 60 ∷ with_active_organization (codes "org") ∷ []

abbrev zeros : Bytes → Bytes
zeros x = replicate 64 b'0'

abbrev repeated : Token
repeated = record {
  access_token = codes "a.b.c";
  token_type = codes "bearer";
  expiry = some (unix_epoch + 200 * 1000000000);
  expires_in = seconds_until 0 (some (unix_epoch + 200 * 1000000000));
}

served_again :
    (issue_on clock
      (issue_all clock (new_auth_handler zeros half_minute) (first_call ∷ []))
      second_call).0
    ≡ ok repeated
unfolding new_auth_handler issue_on issue_all apply_handler_option issue_token
served_again = refl

first_call-Answers : Answers (new_auth_handler zeros half_minute).config Named first_call
first_call-Answers = record { signed_in = λ f. refl; created = λ template jwt f e. absurd (cc e) }

second_call-Answers : Answers (new_auth_handler zeros half_minute).config Named second_call
second_call-Answers = record { signed_in = λ f. refl; created = λ template jwt f e. absurd (cc e) }

issue_all-Grants_example : Given Named zeros second_call repeated
issue_all-Grants_example =
    issue_all-Grants Named clock zeros half_minute (first_call ∷ []) second_call repeated
      (λ x. refl) (first_call-Answers, tt) second_call-Answers served_again
