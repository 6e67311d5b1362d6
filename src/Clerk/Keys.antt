-- ===== src/Clerk/Keys.antt =====
-- handlers/ileapclerk/auth_handler.go: the cache of the key set, `JWKS` and `findKey`. A call
-- is one step on the state: no other call comes between its parts.
pub mod Found
use ileap_go.Common.{
  ℕ, ◌-◌, Bool, true, false, List, [], ◌∷◌, Option, none, some, ltb, if◌then◌else◌, Bytes, bytes_eq,
}

-- The fields of `JWK` that name a key and make it up.
pub record Jwk : Type 0 where
  pub key_id : Bytes
  pub n : Bytes
  pub e : Bytes

-- `cachedJWKS`, `none` for nil, and `cachedAt`.
pub record KeyCache : Type 0 where
  pub cached_jwks : Option (List Jwk)
  pub cached_at : ℕ

-- `rsa.PublicKey`, as the bytes of its two numbers.
abbrev pub PublicKey : Type 0
PublicKey = Bytes × Bytes

abbrev decoded : Option Bytes → Option Bytes → Option PublicKey
decoded (some n) (some e) = some (n, e)
decoded _ _ = none

-- The key, or else what the rest of the set gives.
abbrev or_else : Option PublicKey → Option PublicKey → Option PublicKey
or_else (some key) rest = some key
or_else none rest = rest

-- What a call finds outside: the instant, and what each `FetchJWKS` gives; `none` is an error.
pub record Fetches : Type 0 where
  pub now : ℕ
  pub first_fetch : Option (List Jwk)
  pub second_fetch : Option (List Jwk)

module _ (decode_raw_url : Bytes → Option Bytes) (jwks_cache_ttl : ℕ) where
  unfoldable pub find_key_in_set : Bytes → List Jwk → Option PublicKey
  unfolding bytes_eq
  find_key_in_set kid [] = none
  find_key_in_set kid (jwk ∷ jwks) =
      let rest = find_key_in_set kid jwks in
      if bytes_eq jwk.key_id kid
      then or_else (decoded (decode_raw_url jwk.n) (decode_raw_url jwk.e)) rest
      else rest

  abbrev pub find_cached : Bytes → Option (List Jwk) → Option PublicKey
  find_cached kid none = none
  find_cached kid (some jwks) = find_key_in_set kid jwks

  -- `cacheFreshLocked`
  unfoldable pub cache_fresh : ℕ → KeyCache → Bool
  cache_fresh now cache = elim cache.cached_jwks [
    | none ↦ false
    | some jwks ↦ ltb (now - cache.cached_at) jwks_cache_ttl
  ]

  abbrev pub or_empty : Option (List Jwk) → List Jwk
  or_empty none = []
  or_empty (some jwks) = jwks

  -- `JWKS`, where the cache is not fresh: a failed fetch leaves it, and what it holds is served.
  abbrev pub refresh : ℕ → Option (List Jwk) → KeyCache → List Jwk × KeyCache
  refresh now none cache = (or_empty cache.cached_jwks, cache)
  refresh now (some jwks) cache = (jwks, record { cached_jwks = some jwks; cached_at = now })

  unfoldable pub jwks : ℕ → Option (List Jwk) → KeyCache → List Jwk × KeyCache
  unfolding cache_fresh
  jwks now fetch cache =
      if cache_fresh now cache then (or_empty cache.cached_jwks, cache) else refresh now fetch cache

  -- The end of `findKey`: a second fetch for a key that the cache does not hold.
  abbrev pub fetch_key : ℕ → Option (List Jwk) → Bytes → KeyCache → Option PublicKey × KeyCache
  fetch_key now none kid cache = (none, cache)
  fetch_key now (some jwks) kid cache =
      (find_key_in_set kid jwks, record { cached_jwks = some jwks; cached_at = now })

  unfoldable pub find_key : Fetches → Bytes → KeyCache → Option PublicKey × KeyCache
  unfolding find_key_in_set cache_fresh jwks
  find_key f kid cache = elim (find_cached kid cache.cached_jwks) [
    | some pub_key ↦ (some pub_key, cache)
    | none ↦ elim (cache_fresh f.now cache) [
      | true ↦ (none, cache)
      | false ↦
          let (set, cache') = jwks f.now f.first_fetch cache in
          elim (find_key_in_set kid set) [
            | some pub_key ↦ (some pub_key, cache')
            | none ↦ elim (find_cached kid cache'.cached_jwks) [
              | some pub_key ↦ (some pub_key, cache')
              | none ↦ fetch_key f.now f.second_fetch kid cache'
            ]
          ]
    ]
  ]
