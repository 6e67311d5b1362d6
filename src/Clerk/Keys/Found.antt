-- ===== src/Clerk/Keys/Found.antt =====
-- handlers/ileapclerk/auth_handler.go, `findKey` and `JWKS`: the keys that are given are those that the
-- cache holds.
use ileap_go.Common.{
  ℕ, List, ◌≡◌, ◌∙◌, Option, none, some, Option-cases, Bool-cases, inl, inr, if_elim, Bytes,
}
use ileap_go.Clerk.Keys.{
  Jwk, KeyCache, PublicKey, Fetches, find_key_in_set, find_cached, cache_fresh, or_empty, refresh,
  jwks, fetch_key, find_key,
}

module _ (decode_raw_url : Bytes → Option Bytes) (ttl : ℕ) (kid : Bytes) (key : PublicKey) where
  -- A key found in the set of a result is in the cache of the result.
  abbrev Cached : List Jwk × KeyCache → Type 0
  Cached (set, cache) =
      find_key_in_set decode_raw_url ttl kid set ≡ some key
      → find_cached decode_raw_url ttl kid cache.cached_jwks ≡ some key

  or_empty-cached :
      (o : Option (List Jwk))
      → find_key_in_set decode_raw_url ttl kid (or_empty decode_raw_url ttl o) ≡ some key
      → find_cached decode_raw_url ttl kid o ≡ some key
  unfolding find_key_in_set
  or_empty-cached none h = absurd (cc h)
  or_empty-cached (some set) h = h

  refresh-Cached :
      (now : ℕ) (fetch : Option (List Jwk)) (cache : KeyCache)
      → Cached (refresh decode_raw_url ttl now fetch cache)
  refresh-Cached now none cache h = or_empty-cached cache.cached_jwks h
  refresh-Cached now (some set) cache h = h

  jwks-Cached :
      (now : ℕ) (fetch : Option (List Jwk)) (cache : KeyCache)
      → Cached (jwks decode_raw_url ttl now fetch cache)
  unfolding jwks
  jwks-Cached now fetch cache =
      if_elim Cached (cache_fresh decode_raw_url ttl now cache)
        (λ _ h. or_empty-cached cache.cached_jwks h) (λ _. refresh-Cached now fetch cache)

  fetch_key-cached :
      (now : ℕ) (fetch : Option (List Jwk)) (cache : KeyCache)
      → (fetch_key decode_raw_url ttl now fetch kid cache).0 ≡ some key
      → find_cached decode_raw_url ttl kid
          (fetch_key decode_raw_url ttl now fetch kid cache).1.cached_jwks
        ≡ some key
  fetch_key-cached now none cache h = absurd (cc h)
  fetch_key-cached now (some set) cache h = h

  -- A key that `findKey` gives is in the key set that the cache holds afterwards.
  pub find_key-cached :
      (f : Fetches) (cache : KeyCache)
      → (find_key decode_raw_url ttl f kid cache).0 ≡ some key
      → find_cached decode_raw_url ttl kid (find_key decode_raw_url ttl f kid cache).1.cached_jwks
        ≡ some key
  unfolding find_key
  find_key-cached f cache h =
      elim (Option-cases (find_cached decode_raw_url ttl kid cache.cached_jwks)) [
        | inr (k, e) ↦ rw (e, find_key) (e ∙ (rw (e, find_key) at h))
        | inl n ↦ elim (Bool-cases (cache_fresh decode_raw_url ttl f.now cache)) [
          | inl b ↦ absurd (cc (rw (n, b, find_key) at h))
          | inr b ↦
              let after = jwks decode_raw_url ttl f.now f.first_fetch cache in
              elim (Option-cases (find_key_in_set decode_raw_url ttl kid after.0)) [
                | inr (k, g) ↦
                    rw (n, b, g, find_key)
                      (jwks-Cached f.now f.first_fetch cache (g ∙ (rw (n, b, g, find_key) at h)))
                | inl m ↦
                    elim (Option-cases (find_cached decode_raw_url ttl kid after.1.cached_jwks)) [
                      | inr (k, q) ↦
                          rw (n, b, m, q, find_key) (q ∙ (rw (n, b, m, q, find_key) at h))
                      | inl q ↦
                          rw (n, b, m, q, find_key)
                            (fetch_key-cached f.now f.second_fetch after.1
                              (rw (n, b, m, q, find_key) at h))
                    ]
              ]
        ]
      ]
