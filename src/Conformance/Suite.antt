-- ===== src/Conformance/Suite.antt =====
-- ileaptest/conformance.go: the tests, and `RunConformanceTests`.
use ileap_go.Common.{
  ℕ, ◌*◌, Bool, true, false, ◌&&◌, ◌||◌, List, [], ◌∷◌, ◌++◌, Option, none, some, leb, ◌==◌,
  if◌then◌else◌, length, all, Bytes, codes, bytes_eq, equal_fold,
}
use ileap_go.Server.Http.{Body, json, Response}
use ileap_go.Demo.Match.{ProductFootprint, Tad}
use ileap_go.Demo.Auth.{Bearer}
use ileap_go.Demo.Provider.{OpenIdConfiguration}
use ileap_go.Conformance.Checks.{
  ConformanceTestConfig, Site, Verdict, check, check_error, check_item, check_json, check_list,
  contains, error_is, event_to_receive, event_to_reject, failed, is_set, is_token, next_url,
  oauth_error_is, published_event, skipped,
}

abbrev pub invalid_token : Bytes
invalid_token = codes "invalid-token"

abbrev pub wrong_user : Bytes
wrong_user = codes "wrong-user"

abbrev pub wrong_password : Bytes
wrong_password = codes "wrong-password"

-- `time.Date(2022, 3, 1, 9, 32, 20, 0, time.UTC)`
abbrev pub created_threshold : ℕ
created_threshold = 63813346340 * 1000000000

-- `HasCreated`, and not before the instant.
abbrev pub not_before : ℕ → Option ℕ → Bool
not_before threshold none = false
not_before threshold (some created) = leb threshold created

-- What the test asks of the list: it is not empty, and of each of its footprints.
abbrev pub all_since : ℕ → List ProductFootprint → Bool
all_since threshold [] = false
all_since threshold (fp ∷ fps) =
    all (λ (x : ProductFootprint). not_before threshold x.created) (fp ∷ fps)

module _ (site : Site) (cfg : ConformanceTestConfig) (token : Bytes) where
  -- TC005; the list may be empty.
  unfoldable pub filtered_tad : Verdict
  unfolding bytes_eq
  filtered_tad = check (
      check_list (all (λ (tad : Tad). bytes_eq tad.mode (codes "Road")))
        (site.get_tads (codes "mode=Road") token))

  -- TC006
  unfoldable pub limited_tad : Verdict
  limited_tad =
      check (check_list (λ tads. leb (length tads) 1) (site.get_tads (codes "limit=1") token))

  -- TC007
  unfoldable pub tad_invalid_token : Verdict
  tad_invalid_token =
      check (check_error 403 (codes "AccessDenied") (site.get_tads [] invalid_token))

  -- TC008
  unfoldable pub tad_expired_token : Verdict
  tad_expired_token = elim cfg.expired_token [
    | [] ↦ skipped
    | c ∷ cs ↦ check (check_error 401 (codes "TokenExpired") (site.get_tads [] (c ∷ cs)))
  ]

  -- PACT_TC01
  unfoldable pub auth_valid_credentials : Verdict
  unfolding equal_fold bytes_eq
  auth_valid_credentials =
      check (check_json is_token (site.post_auth_token cfg.username cfg.password))

  -- PACT_TC02
  unfoldable pub auth_invalid_credentials : Verdict
  auth_invalid_credentials =
      let r = site.post_auth_token wrong_user wrong_password in
      check (r.status == 400 && oauth_error_is (codes "invalid_request") r.body)

  abbrev pub same_id : Bytes → ProductFootprint → Bool
  same_id id fp = bytes_eq fp.id id

  abbrev pub gets_first : List ProductFootprint → Bool
  gets_first [] = false
  gets_first (fp ∷ fps) =
      check_item (same_id fp.id) (site.get_footprint_at (codes "/2/footprints/" ++ fp.id) token)

  -- PACT_TC03
  unfoldable pub get_footprint : Verdict
  unfolding bytes_eq
  get_footprint = check (check_list gets_first (site.get_footprints [] token))

  abbrev pub follow : Option Bytes → Verdict
  follow none = skipped
  follow (some link) =
      if contains (codes "rel=\"next\"") link
      then check ((site.get_footprints_at (next_url link) token).status == 200)
      else failed

  -- PACT_TC05
  unfoldable pub pagination : Verdict
  unfolding contains next_url
  pagination =
      let r = site.get_footprints (codes "limit=1") token in
      if check_list (λ fps. leb (length fps) 1) r then follow r.link else failed

  -- PACT_TC06
  unfoldable pub list_footprints_invalid_token : Verdict
  list_footprints_invalid_token =
      check (check_error 401 (codes "BadRequest") (site.get_footprints [] invalid_token))

  -- PACT_TC07
  unfoldable pub get_footprint_invalid_token : Verdict
  get_footprint_invalid_token = check (
      check_error 401 (codes "BadRequest")
        (site.get_footprint_at (codes "/2/footprints/some-id") invalid_token))

  -- PACT_TC08
  unfoldable pub get_footprint_not_found : Verdict
  get_footprint_not_found = check (
      check_error 404 (codes "NoSuchFootprint")
        (site.get_footprint_at (codes "/2/footprints/non-existent-id") token))

  abbrev accepts : Bytes → Verdict
  accepts event = check ((site.post_event token event).status == 200)

  -- PACT_TC12
  unfoldable pub receive_request : Verdict
  receive_request = accepts event_to_receive

  -- PACT_TC14A
  unfoldable pub send_request_to_be_rejected : Verdict
  send_request_to_be_rejected = accepts event_to_reject

  -- PACT_TC15
  unfoldable pub receive_published_event : Verdict
  receive_published_event = accepts (published_event (codes "test-event-001"))

  -- PACT_TC16
  unfoldable pub events_invalid_token : Verdict
  events_invalid_token =
      let r = site.post_event invalid_token (published_event (codes "test-event-002")) in
      check ((r.status == 400 || r.status == 401) && error_is (codes "BadRequest") r.body)

  abbrev pub has_access_token : Bearer → Bool
  has_access_token t = is_set t.access_token

  abbrev oidc_signs_in : OpenIdConfiguration → Bool
  oidc_signs_in oidc =
      is_set oidc.token_url
      && is_set oidc.jwks_url
      && check_json has_access_token (site.post_token_at oidc.token_url cfg.username cfg.password)

  -- PACT_TC18
  unfoldable pub oidc_auth_flow : Verdict
  unfolding bytes_eq
  oidc_auth_flow = check (check_json oidc_signs_in site.get_openid_configuration)

  abbrev oidc_refuses : OpenIdConfiguration → Bool
  oidc_refuses oidc =
      is_set oidc.token_url
      && (site.post_token_at oidc.token_url wrong_user wrong_password).status == 400

  -- PACT_TC19
  unfoldable pub oidc_auth_flow_invalid_credentials : Verdict
  unfolding bytes_eq
  oidc_auth_flow_invalid_credentials = check (check_json oidc_refuses site.get_openid_configuration)

  -- PACT_TC20, the first part.
  unfoldable pub filtered_list_category : Verdict
  unfolding bytes_eq
  filtered_list_category = check (
      check_list (all (λ (fp : ProductFootprint). bytes_eq fp.product_category_cpc (codes "83117")))
        (site.get_footprints (codes "$filter=productCategoryCpc+eq+'83117'") token))

  -- PACT_TC20, the second part.
  unfoldable pub filtered_list_created : Verdict
  filtered_list_created = check (
      check_list (all_since created_threshold)
        (site.get_footprints (codes "$filter=created+ge+'2022-03-01T09:32:20Z'") token))

abbrev token_if : Bool → Body Bearer → Option Bytes
token_if true (json t) = some t.access_token
token_if _ _ = none

abbrev access : Response Bearer → Option Bytes
access r = token_if (r.status == 200) r.body

-- `authenticate`, where `none` ends the run.
unfoldable pub authenticate : Site → ConformanceTestConfig → Option Bytes
authenticate site cfg = access (site.post_auth_token cfg.username cfg.password)

-- The verdicts of the tests, in their order.
abbrev pub verdicts : Site → ConformanceTestConfig → Bytes → List Verdict
verdicts site cfg token =
    filtered_tad site cfg token
    ∷ limited_tad site cfg token
    ∷ tad_invalid_token site cfg token
    ∷ tad_expired_token site cfg token
    ∷ auth_valid_credentials site cfg token
    ∷ auth_invalid_credentials site cfg token
    ∷ get_footprint site cfg token
    ∷ pagination site cfg token
    ∷ list_footprints_invalid_token site cfg token
    ∷ get_footprint_invalid_token site cfg token
    ∷ get_footprint_not_found site cfg token
    ∷ receive_request site cfg token
    ∷ send_request_to_be_rejected site cfg token
    ∷ receive_published_event site cfg token
    ∷ events_invalid_token site cfg token
    ∷ oidc_auth_flow site cfg token
    ∷ oidc_auth_flow_invalid_credentials site cfg token
    ∷ filtered_list_category site cfg token
    ∷ filtered_list_created site cfg token
    ∷ []

-- `RunConformanceTests`
unfoldable pub run_conformance_tests : Site → ConformanceTestConfig → Option (List Verdict)
unfolding authenticate
run_conformance_tests site cfg = elim (authenticate site cfg) [
  | none ↦ none
  | some token ↦ some (verdicts site cfg token)
]
