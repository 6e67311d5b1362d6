-- ===== src/Conformance/Refused.antt =====
-- ileaptest/conformance.go over the demo server: the tests of tokens and credentials that are refused.
use ileap_go.Common.{◌≡◌, refl, Bytes, codes, bytes_eq}
use ileap_go.Server.Http.{bad_request, access_denied, get, code_text, oauth_code_text}
use ileap_go.Server.Auth.{
  refused, check_bearer, pact_verdict, pact_gate, pact_events_gate, ileap_gate, ileap_verdict,
  is_expired_jwt, split, through,
}
use ileap_go.Server.Routes.{footprints_route, footprint_route, tads_route, events_route}
use ileap_go.Server.Token.{query_unescape, write_token, auth_token}
use ileap_go.Url.{parse_query}
use ileap_go.Demo.Auth.{issue_token, validate_token, validate_jwt}
use ileap_go.Demo.Provider.{auth_provider}
use ileap_go.Conformance.Checks.{passed, ConformanceTestConfig}
use ileap_go.Conformance.Suite.{
  tad_invalid_token, list_footprints_invalid_token, get_footprint_invalid_token,
  events_invalid_token, auth_invalid_credentials, invalid_token,
}
use ileap_go.Conformance.Demo.{Setup, auth, bearer, demo_site}

module _ (setup : Setup) (cfg : ConformanceTestConfig) (token : Bytes) where
  pact_refuses :
      pact_gate (auth setup) (bearer invalid_token)
      ≡ refused 401 bad_request (codes "invalid access token")
  unfolding pact_gate check_bearer pact_verdict validate_token validate_jwt split auth_provider
  pact_refuses = refl

  events_refuses :
      pact_events_gate (auth setup) (bearer invalid_token)
      ≡ refused 400 bad_request (codes "invalid access token")
  unfolding pact_events_gate check_bearer pact_verdict validate_token validate_jwt split
      auth_provider
  events_refuses = refl

  ileap_refuses :
      ileap_gate (auth setup) setup.clock (bearer invalid_token)
      ≡ refused 403 access_denied (codes "invalid access token")
  unfolding ileap_gate check_bearer ileap_verdict is_expired_jwt validate_token validate_jwt split
      auth_provider
  ileap_refuses = refl

  pub tad_invalid_token-passed : tad_invalid_token (demo_site setup) cfg token ≡ passed
  unfolding tad_invalid_token demo_site tads_route through code_text bytes_eq
  tad_invalid_token-passed = rw (ileap_refuses, tads_route) refl

  pub list_footprints_invalid_token-passed :
      list_footprints_invalid_token (demo_site setup) cfg token ≡ passed
  unfolding list_footprints_invalid_token demo_site footprints_route through code_text bytes_eq
  list_footprints_invalid_token-passed = rw (pact_refuses, footprints_route) refl

  pub get_footprint_invalid_token-passed :
      get_footprint_invalid_token (demo_site setup) cfg token ≡ passed
  unfolding get_footprint_invalid_token demo_site footprint_route through code_text bytes_eq
  get_footprint_invalid_token-passed = rw (pact_refuses, footprint_route) refl

  pub events_invalid_token-passed : events_invalid_token (demo_site setup) cfg token ≡ passed
  unfolding events_invalid_token demo_site events_route through code_text bytes_eq
  events_invalid_token-passed = rw (events_refuses, events_route) refl

  pub auth_invalid_credentials-passed :
      auth_invalid_credentials (demo_site setup) cfg token ≡ passed
  unfolding auth_invalid_credentials demo_site auth_token issue_token write_token auth_provider
      query_unescape oauth_code_text bytes_eq parse_query get
  auth_invalid_credentials-passed = refl
