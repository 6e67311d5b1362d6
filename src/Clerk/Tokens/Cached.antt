-- ===== src/Clerk/Tokens/Cached.antt =====
-- handlers/ileapclerk/auth_handler.go, `IssueToken`: what the cache holds, and for whom.
use ileap_go.Common.{
  ℕ, ◌+◌, ◌<◌, [], ◌∷◌, ◌≡◌, refl, sym, ap, subst₂, ◌∙◌, inl, inr, Option, none, some, ltb, if_elim,
  Bool-cases, Option-cases, All, Bytes, bytes_eq, bytes_eq_iff, ltb→lt,
}
use ileap_go.Clerk.Tokens.{
  Token, Clerk, Config, Cache, Expiry, unreadable, absent, at, token_cache_key, lookup, fresh_if,
  fresh_at, cached_token, template_jwt, store_token,
}

-- `Grants id secret jwt`: Clerk gave the token `jwt` to a client with these credentials.
module _ (config : Config) (Grants : Bytes → Bytes → Bytes → Type 0) where
  -- An entry of the cache was given to the client whose key it has.
  abbrev pub IsGranted : Bytes × Token → Type 0
  IsGranted (key, t) =
      (id : Bytes) × (secret : Bytes) × (key ≡ token_cache_key config.sha256_hex id secret)
      × Grants id secret t.access_token

  -- All that the Clerk client answers to a client that it signs in is given to it.
  pub record IsSound (clerk : Clerk) (id secret : Bytes) : Type 0 where
    pub signed_in :
        clerk.sign_in_error id secret config.active_org_id ≡ none
        → Grants id secret (clerk.sign_in id secret config.active_org_id).jwt
    pub created :
        (template jwt : Bytes)
        → clerk.sign_in_error id secret config.active_org_id ≡ none
        → clerk.create_session_token
            (clerk.sign_in id secret config.active_org_id).session_id
            template
            (clerk.sign_in id secret config.active_org_id).auth_header
          ≡ some jwt
        → Grants id secret jwt

  pub lookup-IsGranted :
      (key : Bytes) (cache : Cache) (t : Token)
      → All IsGranted cache
      → lookup key cache ≡ some t
      → IsGranted (key, t)
  unfolding lookup
  lookup-IsGranted key [] t h e = absurd (cc e)
  lookup-IsGranted key ((k, u) ∷ cache) t (g, h) e = elim (Bool-cases (bytes_eq k key)) [
    | inl same ↦
        let found : u ≡ t = cc (rw (same, lookup) at e) in
        subst₂ (λ x y. IsGranted (x, y)) ((bytes_eq_iff k key).0 same) found g
    | inr other ↦ lookup-IsGranted key cache t h (rw (other, lookup) at e)
  ]

  pub template_jwt-Grants :
      (clerk : Clerk) (id secret template : Bytes)
      → IsSound clerk id secret
      → clerk.sign_in_error id secret config.active_org_id ≡ none
      → Grants id secret
          (template_jwt clerk (clerk.sign_in id secret config.active_org_id) template)
  template_jwt-Grants clerk id secret [] h f = h.signed_in f
  template_jwt-Grants clerk id secret (c ∷ cs) h f =
      let result = clerk.sign_in id secret config.active_org_id in
      elim (Option-cases
        (clerk.create_session_token result.session_id (c ∷ cs) result.auth_header)) [
          | inl n ↦ rw (n, template_jwt) (h.signed_in f)
          | inr (jwt, e) ↦ rw (e, template_jwt) (h.created (c ∷ cs) jwt f e)
        ]

  -- The credentials whose entry a call looks at.
  abbrev pub SameKey : Bytes → Bytes → Token → Type 0
  SameKey id secret t =
      (id' : Bytes) × (secret' : Bytes) × (token_cache_key config.sha256_hex id secret
        ≡ token_cache_key config.sha256_hex id' secret')
      × Grants id' secret' t.access_token

  pub store_token-IsGranted :
      (later : ℕ) (id secret jwt : Bytes) (expiry : Expiry) (cache : Cache)
      → Grants id secret jwt
      → All IsGranted cache
      → Grants id secret
          (store_token config later
            (token_cache_key config.sha256_hex id secret)
            jwt
            expiry
            cache).0.access_token
        × All IsGranted
            (store_token config later
              (token_cache_key config.sha256_hex id secret)
              jwt
              expiry
              cache).1
  unfolding store_token
  store_token-IsGranted later id secret jwt unreadable cache g h = (g, h)
  store_token-IsGranted later id secret jwt absent cache g h = (g, h)
  store_token-IsGranted later id secret jwt (at expiry) cache g h = (
    g,
    if_elim (All IsGranted) (ltb 0 config.token_cache_ttl) (λ _. ((id, secret, refl, g), h))
        (λ _. h),
  )

-- A token that the cache gives is the one that was found, and has more than the time to live left.
fresh_if_lem :
    (now ttl : ℕ) (u t : Token) (expiry : Option ℕ)
    → fresh_if now ttl u expiry ≡ some t
    → (u ≡ t) × (n : ℕ) × (expiry ≡ some n) × (now + ttl < n)
fresh_if_lem now ttl u t none e = absurd (cc e)
fresh_if_lem now ttl u t (some n) e = elim (Bool-cases (ltb (now + ttl) n)) [
  | inl b ↦ (cc (rw b at e), n, refl, ltb→lt _ _ b)
  | inr b ↦ absurd (cc (rw b at e))
]

fresh_at_lem :
    (now ttl : ℕ) (found : Option Token) (t : Token)
    → fresh_at now ttl found ≡ some t
    → (found ≡ some t) × (n : ℕ) × (t.expiry ≡ some n) × (now + ttl < n)
fresh_at_lem now ttl none t e = absurd (cc e)
fresh_at_lem now ttl (some u) t e =
    let (same, n, x, b) = fresh_if_lem now ttl u t u.expiry e in
    (ap some same, n, ap (λ (v : Token). v.expiry) (sym same) ∙ x, b)

pub cached_token_lem :
    (ttl now : ℕ) (found : Option Token) (t : Token)
    → cached_token ttl now found ≡ some t
    → (found ≡ some t) × (n : ℕ) × (t.expiry ≡ some n) × (now + ttl < n)
cached_token_lem ttl now found t e = elim (Bool-cases (ltb 0 ttl)) [
  | inl b ↦ fresh_at_lem now ttl found t (rw b at e)
  | inr b ↦ absurd (cc (rw b at e))
]
