-- ===== src/Clerk/Tokens.antt =====
-- handlers/ileapclerk/auth_handler.go: `IssueToken` and its cache, and `extractJWTExpiry`. Times are
-- nanoseconds since the year 0; a time to live that is not positive is 0.
pub mod Cached
pub mod Owner
use ileap_go.Common.{
  ℕ, suc, ◌+◌, ◌-◌, ◌*◌, ◌/◌, ◌^◌, Bool, true, false, List, [], ◌∷◌, ◌++◌, Option, none, some, ltb,
  leb, ◌==◌, if◌then◌else◌, Bytes, codes, bytes_eq, ℤ, pos, negsuc,
}
use ileap_go.Service.{Code, resource_exhausted, unavailable, permission_denied, Result, ok, err}
use ileap_go.Demo.Match.{unix_epoch}
use ileap_go.Server.Auth.{Json, number, text, null_json, other_json, Clock, split, payload, claim}

-- `oauth2.Token`; without an expiry, `expiry` is `none`, and `expires_in` is 0 where it is not set.
pub record Token : Type 0 where
  pub access_token : Bytes
  pub token_type : Bytes
  pub expiry : Option ℕ
  pub expires_in : ℕ

-- `SignInResult`
pub record SignInResult : Type 0 where
  pub jwt : Bytes
  pub session_id : Bytes
  pub auth_header : Bytes

-- The errors of `SignIn` as `IssueToken` tells them apart: `*APIError` with its status, `net.Error`,
-- or another.
pub data SignInError : Type 0 where
  api_error : ℕ → SignInError
  net_error : SignInError
  other_error : SignInError

-- What the Clerk client answers to one call; for a failure of `CreateSessionToken` it is `none`.
pub record Clerk : Type 0 where
  pub sign_in_error : Bytes → Bytes → Bytes → Option SignInError
  pub sign_in : Bytes → Bytes → Bytes → SignInResult
  pub create_session_token : Bytes → Bytes → Bytes → Option Bytes

-- The fields that the options set.
pub record Config : Type 0 where
  pub active_org_id : Bytes
  pub jwt_template_name : Bytes
  pub token_cache_ttl : ℕ
  -- `fmt.Sprintf("%x", sha256.Sum256(…))`
  pub sha256_hex : Bytes → Bytes

abbrev pub Cache : Type 0
Cache = List (Bytes × Token)

-- `time.Unix(n, 0)`: its seconds since the year 1 have 64 bits, so that the last instants wrap to the
-- past; what lies before the year 0 is the year 0.
abbrev time_unix : ℤ → ℕ
time_unix (pos n) = if leb (2 ^ 63 - 62135596800) n then 0 else unix_epoch + n * 1000000000
time_unix (negsuc n) = unix_epoch - suc n * 1000000000

unfoldable pub token_cache_key : (Bytes → Bytes) → Bytes → Bytes → Bytes
token_cache_key sha256_hex client_id client_secret =
    client_id ++ (codes ":" ++ sha256_hex (client_id ++ (codes ":" ++ client_secret)))

-- The newest entry of a key.
unfoldable pub lookup : Bytes → Cache → Option Token
unfolding bytes_eq
lookup key [] = none
lookup key ((k, t) ∷ cache) = let rest = lookup key cache in if bytes_eq k key then some t else rest

-- `cached, ok := a.tokenCache[cacheKey]; ok && time.Until(cached.Expiry) > a.tokenCacheTTL`
abbrev pub fresh_if : ℕ → ℕ → Token → Option ℕ → Option Token
fresh_if now ttl t none = none
fresh_if now ttl t (some expiry) = if ltb (now + ttl) expiry then some t else none

abbrev pub fresh_at : ℕ → ℕ → Option Token → Option Token
fresh_at now ttl none = none
fresh_at now ttl (some t) = fresh_if now ttl t t.expiry

-- `int64(time.Until(expiry).Seconds())`, where it is positive, up to the rounding of `float64`; a
-- duration is at most 2 ^ 63 - 1 nanoseconds.
abbrev pub seconds_until : ℕ → Option ℕ → ℕ
seconds_until now none = 0
seconds_until now (some expiry) =
    (if leb (expiry - now) (2 ^ 63 - 1) then expiry - now else 2 ^ 63 - 1) / 1000000000

-- `extractJWTExpiry`: an error, no expiry, or one.
pub data Expiry : Type 0 where
  unreadable : Expiry
  absent : Expiry
  at : ℕ → Expiry

abbrev exp_claim : Option Json → Expiry
exp_claim none = absent
exp_claim (some (number n)) = at (time_unix n)
exp_claim (some null_json) = at (time_unix (pos 0))
exp_claim (some (text s)) = unreadable
exp_claim (some other_json) = unreadable

unfoldable pub extract_jwt_expiry : Clock → Bytes → Expiry
unfolding split claim
extract_jwt_expiry clock token = elim (payload (split b'.' token)) [
  | none ↦ unreadable
  | some part ↦ elim (clock.decode_raw_url part) [
    | none ↦ unreadable
    | some payload_bytes ↦ elim (clock.unmarshal_claims payload_bytes) [
      | none ↦ unreadable
      | some claims ↦ exp_claim (claim (codes "exp") claims)
    ]
  ]
]

unfoldable pub sign_in_code : SignInError → Code
sign_in_code (api_error status) =
    if status == 429
    then resource_exhausted
    else if leb 500 status
    then unavailable
    else permission_denied
sign_in_code net_error = unavailable
sign_in_code other_error = permission_denied

abbrev pub template_jwt : Clerk → SignInResult → Bytes → Bytes
template_jwt clerk result [] = result.jwt
template_jwt clerk result (c ∷ cs) =
    elim (clerk.create_session_token result.session_id (c ∷ cs) result.auth_header) [
      | none ↦ result.jwt
      | some jwt ↦ jwt
    ]

-- The cached credentials, where the cache is in use.
abbrev pub cached_token : ℕ → ℕ → Option Token → Option Token
cached_token ttl now found = if ltb 0 ttl then fresh_at now ttl found else none

module _ (config : Config) where
  -- The session's token, or the one that the template gives, if there is one and it does.
  unfoldable pub chosen_jwt : Clerk → SignInResult → Bytes
  chosen_jwt clerk result = template_jwt clerk result config.jwt_template_name

  -- What follows a sign-in: the credentials, and the cache with them if they have an expiry.
  unfoldable pub store_token : ℕ → Bytes → Bytes → Expiry → Cache → Token × Cache
  store_token later key jwt unreadable cache = (
    record { access_token = jwt; token_type = codes "bearer"; expiry = none; expires_in = 0 },
    cache,
  )
  store_token later key jwt absent cache = (
    record { access_token = jwt; token_type = codes "bearer"; expiry = none; expires_in = 0 },
    cache,
  )
  store_token later key jwt (at expiry) cache =
      let creds : Token = record {
        access_token = jwt;
        token_type = codes "bearer";
        expiry = some expiry;
        expires_in = seconds_until later (some expiry);
      } in
      (creds, if ltb 0 config.token_cache_ttl then (key, creds) ∷ cache else cache)

  -- `IssueToken`, at the instant `now` when it looks at the cache, and `later` when it counts the
  -- seconds left.
  unfoldable pub issue_token : Clock → Clerk → ℕ → ℕ → Bytes → Bytes → Cache → Result Token × Cache
  unfolding token_cache_key lookup chosen_jwt store_token extract_jwt_expiry
  issue_token clock clerk now later client_id client_secret cache =
      let key = token_cache_key config.sha256_hex client_id client_secret in
      elim (cached_token config.token_cache_ttl now (lookup key cache)) [
        | some cached ↦
            (ok (record cached { expires_in = seconds_until later cached.expiry }), cache)
        | none ↦ elim (clerk.sign_in_error client_id client_secret config.active_org_id) [
          | some e ↦ (err (sign_in_code e) (codes "sign in"), cache)
          | none ↦
              let jwt =
                chosen_jwt clerk (clerk.sign_in client_id client_secret config.active_org_id) in
              let (creds, cache') =
                store_token later key jwt (extract_jwt_expiry clock jwt) cache in
              (ok creds, cache')
        ]
      ]
