-- ===== src/Clerk/Handler/Calls.antt =====
-- handlers/ileapclerk/auth_handler.go: whose token `IssueToken` gives, in any calls on a new handler.
use ileap_go.Common.{List, [], ◌∷◌, ◌++◌, ◌≡◌, refl, sym, ap, subst, ◌∙◌, All, length, Bytes, codes}
use ileap_go.Service.{ok}
use ileap_go.Server.Auth.{Clock}
use ileap_go.Clerk.Tokens.{Token, Config}
use ileap_go.Clerk.Tokens.Cached.{IsGranted, IsSound}
use ileap_go.Clerk.Tokens.Owner.{issue_token-IsGranted, issue_token-Grants}
use ileap_go.Clerk.Handler.{
  AuthHandlerOption, with_active_organization, with_jwt_template, with_jwks_cache_ttl,
  with_token_cache_ttl, ClerkHandler, apply_handler_option, apply_handler_options, default_handler,
  new_auth_handler, Call, issue_on, issue_all,
}

-- The options leave the caches empty and the hash as it is.
abbrev IsFresh : (Bytes → Bytes) → ClerkHandler → Type 0
IsFresh hash a = (a.token_cache ≡ []) × (a.config.sha256_hex ≡ hash)

apply_handler_options-IsFresh :
    (hash : Bytes → Bytes) (options : List AuthHandlerOption) (a : ClerkHandler)
    → IsFresh hash a
    → IsFresh hash (apply_handler_options options a)
unfolding apply_handler_option
apply_handler_options-IsFresh hash [] a h = h
apply_handler_options-IsFresh hash (with_active_organization id ∷ options) a h =
    apply_handler_options-IsFresh hash options _ h
apply_handler_options-IsFresh hash (with_jwt_template name ∷ options) a h =
    apply_handler_options-IsFresh hash options _ h
apply_handler_options-IsFresh hash (with_jwks_cache_ttl d ∷ options) a h =
    apply_handler_options-IsFresh hash options _ h
apply_handler_options-IsFresh hash (with_token_cache_ttl d ∷ options) a h =
    apply_handler_options-IsFresh hash options _ h

-- What Clerk answers to the call is given to its client.
abbrev pub Answers : Config → (Bytes → Bytes → Bytes → Type 0) → Call → Type 0
Answers config Grants c = IsSound config Grants c.clerk c.client_id c.client_secret

-- Clerk gave the token to a client of the same name, and with a secret of the same hash.
abbrev pub Given : (Bytes → Bytes → Bytes → Type 0) → (Bytes → Bytes) → Call → Token → Type 0
Given Grants hash c t =
    (secret : Bytes) × (hash (c.client_id ++ (codes ":" ++ c.client_secret))
      ≡ hash (c.client_id ++ (codes ":" ++ secret)))
    × Grants c.client_id secret t.access_token

module _ (Grants : Bytes → Bytes → Bytes → Type 0) (clock : Clock) where
  -- The invariant of the cache, and the configuration, which no call changes.
  abbrev Holds : Config → ClerkHandler → Type 0
  Holds config a = (a.config ≡ config) × All (IsGranted config Grants) a.token_cache

  issue_all-Holds :
      (a : ClerkHandler) (calls : List Call)
      → All (Answers a.config Grants) calls
      → All (IsGranted a.config Grants) a.token_cache
      → Holds a.config (issue_all clock a calls)
  unfolding issue_all issue_on
  issue_all-Holds a [] s g = (refl, g)
  issue_all-Holds a (c ∷ calls) (s, rest) g = issue_all-Holds (issue_on clock a c).1 calls rest (
      issue_token-IsGranted a.config Grants clock c.clerk c.now c.later c.client_id c.client_secret
        a.token_cache s g)

  issue_on-Grants :
      (a : ClerkHandler) (c : Call) (t : Token)
      → ((x : Bytes) → length (a.config.sha256_hex x) ≡ 64)
      → Answers a.config Grants c
      → All (IsGranted a.config Grants) a.token_cache
      → (issue_on clock a c).0 ≡ ok t
      → Given Grants a.config.sha256_hex c t
  unfolding issue_on
  issue_on-Grants a c t hex s g e =
      issue_token-Grants a.config Grants clock c.clerk c.now c.later c.client_id c.client_secret
        a.token_cache s g t hex e

  -- After any calls on a new handler, whatever its options, a call of IssueToken gives only a token
  -- that Clerk gave to a client of the same name, and with a secret of the same hash; what Clerk
  -- answers to each of the calls is given to its client, and hashes have 64 digits.
  pub issue_all-Grants :
      (hash : Bytes → Bytes) (options : List AuthHandlerOption) (calls : List Call) (c : Call)
      (t : Token)
      → ((x : Bytes) → length (hash x) ≡ 64)
      → All (Answers (new_auth_handler hash options).config Grants) calls
      → Answers (new_auth_handler hash options).config Grants c
      → (issue_on clock (issue_all clock (new_auth_handler hash options) calls) c).0 ≡ ok t
      → Given Grants hash c t
  unfolding new_auth_handler
  issue_all-Grants hash options calls c t hex s answers e =
      let (empty, same) =
        apply_handler_options-IsFresh hash options (default_handler hash) (refl, refl) in
      let start = apply_handler_options options (default_handler hash) in
      let end = issue_all clock start calls in
      let (unchanged, granted) =
        issue_all-Holds start calls s
          (subst (All (IsGranted start.config Grants)) (sym empty) tt) in
      let hashes : end.config.sha256_hex ≡ hash = ap (λ x. x.sha256_hex) unchanged ∙ same in
      subst (λ h. Given Grants h c t) hashes
        (issue_on-Grants end c t (subst (λ h. (x : Bytes) → length (h x) ≡ 64) (sym hashes) hex)
          (subst (λ k. Answers k Grants c) (sym unchanged) answers)
          (subst (λ k. All (IsGranted k Grants) end.token_cache) (sym unchanged) granted) e)
