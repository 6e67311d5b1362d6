-- ===== src/Clerk/Tokens/Owner.antt =====
-- handlers/ileapclerk/auth_handler.go, `IssueToken`: whose token a client is given, over any number
-- of calls that share the cache.
use ileap_go.Common.{
  ℕ, suc, ◌+◌, ◌<◌, [], ◌∷◌, ◌++◌, ◌≡◌, refl, sym, ap, subst, ap₂, ◌∙◌, inl, inr, Option, none,
  some, arith, Option-cases, All, length, length-append, Bytes, codes,
}
use ileap_go.Service.{Result, ok, err}
use ileap_go.Server.Auth.{Clock}
use ileap_go.Clerk.Tokens.{
  Token, SignInError, Clerk, Config, Cache, token_cache_key, lookup, cached_token, chosen_jwt,
  extract_jwt_expiry, issue_token,
}
use ileap_go.Clerk.Tokens.Cached.{
  IsGranted, IsSound, SameKey, lookup-IsGranted, template_jwt-Grants, store_token-IsGranted,
  cached_token_lem,
}

-- Texts that end in parts of one length agree in both parts.
append-split : (a c b d : Bytes) → length b ≡ length d → a ++ b ≡ c ++ d → (a ≡ c) × (b ≡ d)
append-split [] [] b d n e = (refl, e)
append-split [] (y ∷ c) b d n e = absurd (omega (arith, n, ap length e, length-append c d))
append-split (x ∷ a) [] b d n e = absurd (omega (arith, n, ap length e, length-append a b))
append-split (x ∷ a) (y ∷ c) b d n e =
    let head : x ≡ y = cc e in
    let tail : a ++ b ≡ c ++ d = cc e in
    let (p, q) = append-split a c b d n tail in (ap₂ (λ u v. u ∷ v) head p, q)

abbrev access : Result Token → Bytes
access (ok t) = t.access_token
access (err code message) = []

abbrev expiry_of : Result Token → Option ℕ
expiry_of (ok t) = t.expiry
expiry_of (err code message) = none

module _ (config : Config) (Grants : Bytes → Bytes → Bytes → Type 0) (clock : Clock) (clerk : Clerk)
    (now later : ℕ) (id secret : Bytes) (cache : Cache)
    (sound : IsSound config Grants clerk id secret)
    (granted : All (IsGranted config Grants) cache) where
  abbrev key : Bytes
  key = token_cache_key config.sha256_hex id secret

  chosen :
      clerk.sign_in_error id secret config.active_org_id ≡ none
      → Grants id secret (chosen_jwt config clerk (clerk.sign_in id secret config.active_org_id))
  unfolding chosen_jwt
  chosen f = template_jwt-Grants config Grants clerk id secret config.jwt_template_name sound f

  abbrev issued : Result Token × Cache
  issued = issue_token config clock clerk now later id secret cache

  -- The cache after a call, and the token that it gives.
  abbrev Keeps : Result Token × Cache → Type 0
  Keeps (result, cache') =
      All (IsGranted config Grants) cache'
      × ((t : Token) → result ≡ ok t → SameKey config Grants id secret t)

  issued-Keeps : Keeps issued
  unfolding issue_token
  issued-Keeps = elim (Option-cases (cached_token config.token_cache_ttl now (lookup key cache))) [
    | inr (cached, e) ↦
        let (found, _, _, _) =
          cached_token_lem config.token_cache_ttl now (lookup key cache) cached e in
        let (id', secret', same, g) =
          lookup-IsGranted config Grants key cache cached granted found in
        rw (e, issue_token)
          (granted, λ t f. (id', secret', same, subst (Grants id' secret') (ap access f) g))
    | inl n ↦ elim (Option-cases (clerk.sign_in_error id secret config.active_org_id)) [
      | inr (e, f) ↦ rw (n, f, issue_token) (granted, λ t x. absurd (cc x))
      | inl f ↦
          let result = clerk.sign_in id secret config.active_org_id in
          let (g, h) =
            store_token-IsGranted config Grants later id secret (chosen_jwt config clerk result)
              (extract_jwt_expiry clock (chosen_jwt config clerk result)) cache (chosen f)
              granted in
          rw (n, f, issue_token)
            (h, λ t x. (id, secret, refl, subst (Grants id secret) (ap access x) g))
    ]
  ]

  -- IssueToken leaves the cache with tokens only under the keys of clients that Clerk gave them to,
  -- if it held only such and what Clerk answers to the client is given to it.
  pub issue_token-IsGranted : All (IsGranted config Grants) issued.1
  issue_token-IsGranted = issued-Keeps.0

  -- IssueToken gives a client only a token that Clerk gave to a client of the same name, and with a
  -- secret of the same hash; what Clerk answers to the client is given to it, the cache holds
  -- tokens only under the keys of clients that Clerk gave them to, and hashes have 64 digits.
  pub issue_token-Grants :
      (t : Token)
      → ((x : Bytes) → length (config.sha256_hex x) ≡ 64)
      → issued.0 ≡ ok t
      → (secret' : Bytes) × (config.sha256_hex (id ++ (codes ":" ++ secret))
          ≡ config.sha256_hex (id ++ (codes ":" ++ secret')))
        × Grants id secret' t.access_token
  unfolding token_cache_key
  issue_token-Grants t hex e =
      let (id', secret', same, g) = issued-Keeps.1 t e in
      let (p, q) =
        append-split id id' (codes ":" ++ config.sha256_hex _) (codes ":" ++ config.sha256_hex _)
          (ap suc (hex _ ∙ sym (hex _))) same in
      let digest : config.sha256_hex (id ++ (codes ":" ++ secret))
          ≡ config.sha256_hex (id' ++ (codes ":" ++ secret')) =
        cc q in
      (
        secret',
        digest ∙ ap (λ x. config.sha256_hex (x ++ (codes ":" ++ secret'))) (sym p),
        subst (λ x. Grants x secret' t.access_token) (sym p) g,
      )

module _ (config : Config) (clock : Clock) (clerk : Clerk) (now later : ℕ) (id secret : Bytes)
    (cache : Cache) where
  -- Where Clerk refuses the client, a token that IssueToken gives it all the same expires later
  -- than now by more than the time to live of the cache.
  pub issue_token_fresh :
      (t : Token) (e : SignInError)
      → clerk.sign_in_error id secret config.active_org_id ≡ some e
      → (issue_token config clock clerk now later id secret cache).0 ≡ ok t
      → (n : ℕ) × (t.expiry ≡ some n) × (now + config.token_cache_ttl < n)
  unfolding issue_token
  issue_token_fresh t e refused h =
      elim (Option-cases (
        cached_token config.token_cache_ttl now
          (lookup (token_cache_key config.sha256_hex id secret) cache))) [
            | inr (cached, c) ↦
                let (_, n, x, b) =
                  cached_token_lem config.token_cache_ttl now
                    (lookup (token_cache_key config.sha256_hex id secret) cache) cached c in
                (n, sym (ap expiry_of (rw (c, issue_token) at h)) ∙ x, b)
            | inl n ↦ absurd (cc (rw (n, refused, issue_token) at h))
          ]
