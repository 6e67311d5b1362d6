-- ===== src/Conformance/Passed.antt =====
-- ileaptest/conformance.go over the demo server: the whole run.
use ileap_go.Common.{
  ◌<◌, ◌^◌, true, false, List, [], ◌∷◌, ◌≡◌, ◌≢◌, refl, ◌⊎◌, inl, some, any, arith, All, Bytes,
  codes, bytes_eq,
}
use ileap_go.Service.{ok}
use ileap_go.Server.Auth.{admitted, pact_gate, ileap_gate, is_expired_jwt}
use ileap_go.Server.Auth.Admission.{Bears, Validates, pact_gate_iff, ileap_gate_iff}
use ileap_go.Server.Token.{unescaped_or_raw}
use ileap_go.Demo.Match.{ProductFootprint, Tad}
use ileap_go.Demo.Auth.{Bearer, issue_token}
use ileap_go.Demo.Auth.Issued.{IsSigning, issue_token-validate_token, issued_Bearer}
use ileap_go.Demo.Provider.{auth_provider}
use ileap_go.Conformance.Checks.{Verdict, passed, ConformanceTestConfig}
use ileap_go.Conformance.Suite.{verdicts, run_conformance_tests}
use ileap_go.Conformance.Demo.{Setup, auth, bearer, is_segment, demo_site}
use ileap_go.Conformance.Refused.{
  tad_invalid_token-passed, list_footprints_invalid_token-passed,
  get_footprint_invalid_token-passed, events_invalid_token-passed, auth_invalid_credentials-passed,
}
use ileap_go.Conformance.SignedIn.{
  authenticate_lem, auth_valid_credentials-passed, oidc_auth_flow-passed,
  oidc_auth_flow_invalid_credentials-passed,
}
use ileap_go.Conformance.Listed.{LowersMode, filtered_tad-passed, limited_tad-passed}
use ileap_go.Conformance.Single.{get_footprint-passed, get_footprint_not_found-passed}
use ileap_go.Conformance.Filtered.{
  since, LowersCategory, LowersCreated, ParsesCreated, filtered_list_category-passed,
  filtered_list_created-passed,
}
use ileap_go.Conformance.Links.{IsFine, IsClean}
use ileap_go.Conformance.Paged.{pagination-IsFine}
use ileap_go.Conformance.Posted.{
  ReadsEvents, receive_request-passed, send_request_to_be_rejected-passed,
  receive_published_event-passed, tad_expired_token-IsFine,
}

-- What the tests take for granted of a site: its user and its data, and that the packages below it do
-- what they document.
pub record IsReady (setup : Setup) (cfg : ConformanceTestConfig) : Type 0 where
  -- The user of the tests is one of the demo's, and their token is not said to have expired.
  pub creds : Bearer
  pub known :
      issue_token setup.signing setup.now
        (unescaped_or_raw cfg.username)
        (unescaped_or_raw cfg.password)
      ≡ ok creds
  pub current : is_expired_jwt setup.clock creds.access_token ≡ false
  pub signs : IsSigning setup.signing
  pub in_range : setup.now < 2 ^ 63
  pub expired : (cfg.expired_token ≡ []) ⊎ (is_expired_jwt setup.clock cfg.expired_token ≡ true)
  -- The data have a footprint, none of the number that is not to be found, and one that was created
  -- since the instant of the tests.
  pub first : ProductFootprint
  pub rest : List ProductFootprint
  pub has_first : setup.handler.footprints ≡ first ∷ rest
  -- The number of the first stands in a path as it is.
  pub plain : is_segment first.id ≡ true
  pub absent :
      All
        (λ (fp : ProductFootprint). bytes_eq fp.id (codes "non-existent-id") ≡ false)
        setup.handler.footprints
  -- What is alike but for its case is alike: the categories and modes of the data, and the names of
  -- the fields.
  pub categories :
      All
        (λ (fp : ProductFootprint).
          setup.runtime.equal_fold fp.product_category_cpc (codes "83117") ≡ true
          → bytes_eq fp.product_category_cpc (codes "83117") ≡ true)
        setup.handler.footprints
  pub modes :
      All
        (λ (tad : Tad).
          setup.runtime.equal_fold tad.mode (codes "Road") ≡ true
          → bytes_eq tad.mode (codes "Road") ≡ true)
        setup.handler.tads
  pub created : any since setup.handler.footprints ≡ true
  pub lowers_mode : LowersMode setup.runtime
  pub lowers_category : LowersCategory setup.runtime
  pub lowers_created : LowersCreated setup.runtime
  pub parses_created : ParsesCreated setup.runtime
  -- The URL of the site has no byte that ends a URL in a Link, and the events are read.
  pub clean : All IsClean setup.base_url
  pub reads : ReadsEvents setup.codec

bearer-Bears : (token : Bytes) → token ≢ [] → Bears (bearer token) token
bearer-Bears [] n = absurd (n refl)
bearer-Bears (c ∷ cs) n = (refl, n)

not_empty : (token : Bytes) → token ≢ [] → bytes_eq token [] ≡ false
unfolding bytes_eq
not_empty [] n = absurd (n refl)
not_empty (c ∷ cs) n = refl

module _ (setup : Setup) (cfg : ConformanceTestConfig) (ready : IsReady setup cfg) where
  abbrev token : Bytes
  token = ready.creds.access_token

  issued : (ready.creds.token_type ≡ codes "bearer") × (token ≢ [])
  issued =
      issued_Bearer setup.signing setup.now (unescaped_or_raw cfg.username)
        (unescaped_or_raw cfg.password) ready.creds ready.known

  valid : Validates ((auth setup).validate_token token)
  unfolding auth_provider
  valid = (
    _,
    (issue_token-validate_token setup.signing ready.signs setup.now setup.now
          (unescaped_or_raw cfg.username) (unescaped_or_raw cfg.password) ready.creds ready.in_range
          ready.known).0
        (omega arith),
  )

  pact_admits : pact_gate (auth setup) (bearer token) ≡ admitted token
  pact_admits =
      (pact_gate_iff (auth setup) (bearer token) token).1 (bearer-Bears token issued.1, valid)

  ileap_admits : ileap_gate (auth setup) setup.clock (bearer token) ≡ admitted token
  ileap_admits =
      (ileap_gate_iff (auth setup) setup.clock (bearer token) token).1
        (bearer-Bears token issued.1, (ready.current, valid))

  given : bytes_eq token [] ≡ false
  given = not_empty token issued.1

  fine : {v : Verdict} → v ≡ passed → IsFine v
  fine e = inl e

  all-IsFine : All IsFine (verdicts (demo_site setup) cfg token)
  all-IsFine = (
    fine (
        filtered_tad-passed setup cfg token pact_admits ileap_admits ready.lowers_mode ready.modes),
    (
      fine (limited_tad-passed setup cfg token pact_admits ileap_admits),
      (
        fine (tad_invalid_token-passed setup cfg token),
        (
          tad_expired_token-IsFine setup token cfg.username cfg.password cfg.expired_token
              ready.expired,
          (
            fine (
                auth_valid_credentials-passed setup cfg token ready.creds ready.known issued.0
                  given),
            (
              fine (auth_invalid_credentials-passed setup cfg token),
              (
                fine (
                    get_footprint-passed setup cfg token pact_admits ileap_admits ready.first
                      ready.rest ready.has_first ready.plain),
                (
                  pagination-IsFine setup cfg token pact_admits ileap_admits ready.clean,
                  (
                    fine (list_footprints_invalid_token-passed setup cfg token),
                    (
                      fine (get_footprint_invalid_token-passed setup cfg token),
                      (
                        fine (
                            get_footprint_not_found-passed setup cfg token pact_admits ileap_admits
                              ready.absent),
                        (
                          fine (receive_request-passed setup cfg token pact_admits ready.reads),
                          (
                            fine (
                                send_request_to_be_rejected-passed setup cfg token pact_admits
                                  ready.reads),
                            (
                              fine (
                                  receive_published_event-passed setup cfg token pact_admits
                                    ready.reads),
                              (
                                fine (events_invalid_token-passed setup cfg token),
                                (
                                  fine (
                                      oidc_auth_flow-passed setup cfg token ready.creds ready.known
                                        issued.0 given),
                                  (
                                    fine (
                                        oidc_auth_flow_invalid_credentials-passed setup cfg token
                                          ready.creds ready.known issued.0 given),
                                    (
                                      fine (
                                          filtered_list_category-passed setup cfg token pact_admits
                                            ileap_admits ready.lowers_category ready.categories),
                                      (
                                        fine (
                                            filtered_list_created-passed setup cfg token pact_admits
                                              ileap_admits ready.lowers_created ready.parses_created
                                              ready.created),
                                        tt,
                                      ),
                                    ),
                                  ),
                                ),
                              ),
                            ),
                          ),
                        ),
                      ),
                    ),
                  ),
                ),
              ),
            ),
          ),
        ),
      ),
    ),
  )

  -- The conformance suite, as far as it is modelled, runs to its end on the demo server and no test
  -- of it fails: each is passed, or skipped as it says itself. The user of the tests is one of the
  -- demo's, whose token has not expired, and the expired token of the tests, if there is one, has;
  -- the data have a footprint, the first of them with a number that a path holds as it stands, one
  -- that was created since the instant of the tests and none of the number that is not to be found;
  -- categories and modes that are alike but for their case are alike; and the packages below the
  -- server do what they document for ASCII texts and for times before the year 2262.
  pub run_conformance_tests-IsFine :
      (vs : List Verdict) × (run_conformance_tests (demo_site setup) cfg ≡ some vs) × All IsFine vs
  unfolding run_conformance_tests
  run_conformance_tests-IsFine = (
    verdicts (demo_site setup) cfg token,
    rw
        (
          authenticate_lem setup cfg token ready.creds ready.known issued.0 given,
          run_conformance_tests,
        )
        refl,
    all-IsFine,
  )
