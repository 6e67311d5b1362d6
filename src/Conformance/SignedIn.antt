-- ===== src/Conformance/SignedIn.antt =====
-- ileaptest/conformance.go over the demo server: the tests that sign in.
use ileap_go.Common.{
  ℕ, ◌∷◌, false, [], ◌++◌, ◌≡◌, refl, ap, ◌∙◌, some, Bytes, codes, bytes_eq, ==_self, equal_fold,
}
use ileap_go.Service.{ok}
use ileap_go.Server.Http.{invalid_request, get}
use ileap_go.Server.Auth.{strip_prefix}
use ileap_go.Server.Token.{
  unescaped_or_raw, query_unescape, write_token, write_json, write_oauth_error, auth_token,
  open_id_config,
}
use ileap_go.Server.Token.Issued.{Credentials, auth_token-Credentials}
use ileap_go.Url.{parse_query}
use ileap_go.Demo.Auth.{Bearer, issue_token}
use ileap_go.Demo.Provider.{auth_provider, open_id_configuration}
use ileap_go.Conformance.Checks.{passed, ConformanceTestConfig}
use ileap_go.Conformance.Suite.{
  auth_valid_credentials, authenticate, oidc_auth_flow, oidc_auth_flow_invalid_credentials,
  wrong_user, wrong_password,
}
use ileap_go.Conformance.Demo.{Setup, auth, sign_in, token_request, or_not_found, demo_site}

pub strip_prefix-append : (p q s : Bytes) → strip_prefix (p ++ q) (p ++ (q ++ s)) ≡ some s
unfolding strip_prefix
strip_prefix-append [] [] s = refl
strip_prefix-append [] (c ∷ q) s = rw (==_self c) (strip_prefix-append [] q s)
strip_prefix-append (c ∷ p) q s = rw (==_self c) (strip_prefix-append p q s)

non_empty : (s t : Bytes) (c : ℕ) → bytes_eq (s ++ (c ∷ t)) [] ≡ false
unfolding bytes_eq
non_empty [] t c = refl
non_empty (x ∷ s) t c = refl

form-Credentials :
    (username password : Bytes) → Credentials (token_request username password) username password
unfolding parse_query get query_unescape
form-Credentials username password = record {
  form = parse_query (codes "grant_type=client_credentials");
  is_form = refl;
  parsed = refl;
  grant_type = refl;
  basic_auth = refl;
}

module _ (setup : Setup) (cfg : ConformanceTestConfig) (token : Bytes) where
  sign_in_lem :
      (username password : Bytes)
      → sign_in setup username password
        ≡ write_token
            ((auth setup).issue_token (unescaped_or_raw username) (unescaped_or_raw password))
  sign_in_lem username password =
      auth_token-Credentials (auth setup) (token_request username password)
        (form-Credentials username password)

  -- The answer to a sign-in that succeeds.
  signs_in :
      (username password : Bytes) (t : Bearer)
      → issue_token setup.signing setup.now (unescaped_or_raw username) (unescaped_or_raw password)
        ≡ ok t
      → sign_in setup username password ≡ write_json t
  unfolding write_token auth_provider
  signs_in username password t e = sign_in_lem username password ∙ ap write_token e

  -- Where the user of the tests has been given the token `t`.
  module _ (t : Bearer)
      (known : issue_token setup.signing setup.now
          (unescaped_or_raw cfg.username)
          (unescaped_or_raw cfg.password)
        ≡ ok t)
      (is_bearer : t.token_type ≡ codes "bearer") (given : bytes_eq t.access_token [] ≡ false) where
    pub authenticate_lem : authenticate (demo_site setup) cfg ≡ some t.access_token
    unfolding authenticate demo_site
    authenticate_lem = rw (signs_in cfg.username cfg.password t known) refl

    pub auth_valid_credentials-passed : auth_valid_credentials (demo_site setup) cfg token ≡ passed
    unfolding auth_valid_credentials demo_site equal_fold
    auth_valid_credentials-passed =
        rw (signs_in cfg.username cfg.password t known) (rw (given, is_bearer) refl)

    at_endpoint :
        (username password : Bytes)
        → (demo_site setup).post_token_at (setup.base_url ++ codes "/auth/token") username password
          ≡ sign_in setup username password
    unfolding demo_site
    at_endpoint username password =
        ap (or_not_found (λ path. sign_in setup username password))
          (strip_prefix-append setup.base_url (codes "/") (codes "auth/token"))

    pub oidc_auth_flow-passed : oidc_auth_flow (demo_site setup) cfg token ≡ passed
    unfolding oidc_auth_flow open_id_config auth_provider open_id_configuration demo_site
    oidc_auth_flow-passed =
        rw
          (
            non_empty setup.base_url (codes "auth/token") b'/',
            non_empty setup.base_url (codes "jwks") b'/',
            at_endpoint cfg.username cfg.password,
            signs_in cfg.username cfg.password t known,
            given,
          )
          refl

    refuses_wrong :
        sign_in setup wrong_user wrong_password
        ≡ write_oauth_error 400 invalid_request (codes "invalid HTTP basic auth")
    unfolding auth_token issue_token write_token auth_provider query_unescape bytes_eq parse_query
        get
    refuses_wrong = refl

    pub oidc_auth_flow_invalid_credentials-passed :
        oidc_auth_flow_invalid_credentials (demo_site setup) cfg token ≡ passed
    unfolding oidc_auth_flow_invalid_credentials open_id_config auth_provider open_id_configuration
        demo_site
    oidc_auth_flow_invalid_credentials-passed =
        rw
          (
            non_empty setup.base_url (codes "auth/token") b'/',
            at_endpoint wrong_user wrong_password,
            refuses_wrong,
          )
          refl
