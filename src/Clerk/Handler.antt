-- ===== src/Clerk/Handler.antt =====
-- handlers/ileapclerk/auth_handler.go: `NewAuthHandler` with its options, `OpenIDConfiguration`, and
-- calls of `IssueToken` one after the other on the cache of one handler.
pub mod Calls
use ileap_go.Common.{ℕ, ◌*◌, List, [], ◌∷◌, ◌++◌, Option, none, Bytes, codes}
use ileap_go.Service.{Result}
use ileap_go.Server.Auth.{Clock}
use ileap_go.Demo.Provider.{OpenIdConfiguration}
use ileap_go.Clerk.Tokens.{Token, Clerk, Config, Cache, issue_token}
use ileap_go.Clerk.Keys.{KeyCache}

-- `AuthHandlerOption`; a time to live that is not positive is 0.
pub data AuthHandlerOption : Type 0 where
  with_active_organization with_jwt_template : Bytes → AuthHandlerOption
  with_jwks_cache_ttl with_token_cache_ttl : ℕ → AuthHandlerOption

-- An `AuthHandler`, less its client.
pub record ClerkHandler : Type 0 where
  pub config : Config
  pub jwks_cache_ttl : ℕ
  pub keys : KeyCache
  pub token_cache : Cache

unfoldable pub apply_handler_option : AuthHandlerOption → ClerkHandler → ClerkHandler
apply_handler_option (with_active_organization id) a = record a {
  config = record a.config { active_org_id = id };
}
apply_handler_option (with_jwt_template name) a = record a {
  config = record a.config { jwt_template_name = name };
}
apply_handler_option (with_jwks_cache_ttl d) a = record a { jwks_cache_ttl = d }
apply_handler_option (with_token_cache_ttl d) a = record a {
  config = record a.config { token_cache_ttl = d };
}

abbrev pub apply_handler_options : List AuthHandlerOption → ClerkHandler → ClerkHandler
apply_handler_options [] a = a
apply_handler_options (o ∷ options) a = apply_handler_options options (apply_handler_option o a)

-- The defaults, 15 minutes and 30 seconds, and `sha256_hex` for hashes.
abbrev pub default_handler : (Bytes → Bytes) → ClerkHandler
default_handler sha256_hex = record {
  config = record {
    active_org_id = [];
    jwt_template_name = [];
    token_cache_ttl = 30 * 1000000000;
    sha256_hex = sha256_hex;
  };
  jwks_cache_ttl = 900 * 1000000000;
  keys = record { cached_jwks = none; cached_at = 0 };
  token_cache = [];
}

unfoldable pub new_auth_handler : (Bytes → Bytes) → List AuthHandlerOption → ClerkHandler
unfolding apply_handler_option
new_auth_handler sha256_hex options = apply_handler_options options (default_handler sha256_hex)

-- One call of `IssueToken`: its arguments, its two instants, and what Clerk answers to it.
pub record Call : Type 0 where
  pub client_id : Bytes
  pub client_secret : Bytes
  pub now : ℕ
  pub later : ℕ
  pub clerk : Clerk

module _ (clock : Clock) where
  unfoldable pub issue_on : ClerkHandler → Call → Result Token × ClerkHandler
  unfolding issue_token
  issue_on a c =
      let (result, cache) =
        issue_token a.config clock c.clerk c.now c.later c.client_id c.client_secret
          a.token_cache in
      (result, record a { token_cache = cache })

  -- The handler after some calls.
  unfoldable pub issue_all : ClerkHandler → List Call → ClerkHandler
  unfolding issue_on
  issue_all a [] = a
  issue_all a (c ∷ calls) = issue_all (issue_on a c).1 calls

-- `OpenIDConfiguration`
unfoldable pub open_id_configuration : Bytes → OpenIdConfiguration
open_id_configuration base_url = record {
  issuer_url = base_url;
  auth_url = base_url ++ codes "/auth/token";
  token_url = base_url ++ codes "/auth/token";
  jwks_url = base_url ++ codes "/jwks";
  algorithms = codes "RS256" ∷ [];
  response_types_supported = codes "token" ∷ [];
  subject_types_supported = codes "public" ∷ [];
}
