-- ===== src/Conformance/Single.antt =====
-- ileaptest/conformance.go over the demo server: the tests of single footprints.
use ileap_go.Common.{
  Bool, true, false, List, [], ◌∷◌, ◌++◌, ◌≡◌, refl, ap, ◌∙◌, none, some, Bytes, codes, bytes_eq,
  bytes_eq_iff, All, arith,
}
use ileap_go.Odata.Parse.{parse_filter}
use ileap_go.Service.{err, not_found}
use ileap_go.Server.Http.{get, data_item, write_handler_error, code_text}
use ileap_go.Server.Auth.{admitted, pact_gate, ileap_gate, through}
use ileap_go.Server.Query.{parse_limit, parse_offset}
use ileap_go.Server.Lists
use ileap_go.Demo.Handler
use ileap_go.Server.Routes.{footprint_route}
use ileap_go.Demo.Match.{ProductFootprint}
use ileap_go.Demo.Handler.{find_footprint, demo_service}
use ileap_go.Demo.Pages.{matching_footprints, matching_footprints_nil}
use ileap_go.Url.{parse_query}
use ileap_go.Conformance.Checks.{passed, check, check_item, check_list, ConformanceTestConfig}
use ileap_go.Conformance.Suite.{get_footprint, gets_first, same_id, get_footprint_not_found}
use ileap_go.Conformance.Demo.{
  Setup, auth, service, request, bearer, demo_site, is_segment, segment, or_not_found,
}
use ileap_go.Conformance.SignedIn.{strip_prefix-append}
use ileap_go.Conformance.Listed.{footprints-admitted, check_footprints}

module _ (setup : Setup) (cfg : ConformanceTestConfig) (token : Bytes)
    (pact_admits : pact_gate (auth setup) (bearer token) ≡ admitted token)
    (ileap_admits : ileap_gate (auth setup) setup.clock (bearer token) ≡ admitted token) where
  -- The list for a query that has no limit and no offset.
  pub whole_list :
      (f : List ProductFootprint → Bool) (raw_query : Bytes)
      → parse_limit (parse_query raw_query) ≡ some 0
      → parse_offset (parse_query raw_query) ≡ some 0
      → check_list f ((demo_site setup).get_footprints raw_query token)
        ≡ f (
            matching_footprints setup.runtime setup.handler
              (parse_filter (get (parse_query raw_query) (codes "$filter"))))
  whole_list f raw_query l o =
      ap (check_list f) (footprints-admitted setup cfg token pact_admits ileap_admits raw_query)
      ∙ check_footprints setup cfg token pact_admits ileap_admits f (request setup raw_query) 0 l o
          (omega arith)

  footprint-admitted :
      (id : Bytes)
      → is_segment id ≡ true
      → (demo_site setup).get_footprint_at (codes "/2/footprints/" ++ id) token
        ≡ Lists.get_footprint (service setup) id
  unfolding demo_site footprint_route through
  footprint-admitted id s =
      ap
        (λ found.
          or_not_found
            (λ id'.
              footprint_route (auth setup) setup.clock setup.codec (service setup) (bearer token)
                id')
            (segment found))
        (strip_prefix-append [] (codes "/2/footprints/") id)
      ∙ rw (s, pact_admits, footprint_route) refl

  no_limit : parse_limit (parse_query []) ≡ some 0
  unfolding parse_limit parse_query get
  no_limit = refl

  no_offset : parse_offset (parse_query []) ≡ some 0
  unfolding parse_offset parse_query get
  no_offset = refl

  no_filter : parse_filter (get (parse_query []) (codes "$filter")) ≡ []
  unfolding parse_filter parse_query get
  no_filter = refl

  all_footprints :
      (f : List ProductFootprint → Bool)
      → check_list f ((demo_site setup).get_footprints [] token) ≡ f setup.handler.footprints
  all_footprints f =
      whole_list f [] no_limit no_offset
      ∙ ap (λ fs. f (matching_footprints setup.runtime setup.handler fs)) no_filter
      ∙ ap f (matching_footprints_nil setup.runtime setup.handler)

  first_found :
      (fp : ProductFootprint) (fps : List ProductFootprint)
      → setup.handler.footprints ≡ fp ∷ fps
      → Lists.get_footprint (service setup) fp.id
        ≡ record { status = 200; link = none; body = data_item fp }
  unfolding demo_service Lists.get_footprint Handler.get_footprint find_footprint
  first_found fp fps e = rw e (rw ((bytes_eq_iff fp.id fp.id).1 refl, Lists.get_footprint) refl)

  pub get_footprint-passed :
      (fp : ProductFootprint) (fps : List ProductFootprint)
      → setup.handler.footprints ≡ fp ∷ fps
      → is_segment fp.id ≡ true
      → get_footprint (demo_site setup) cfg token ≡ passed
  unfolding get_footprint
  get_footprint-passed fp fps e s = ap check (
      all_footprints (gets_first (demo_site setup) cfg token)
      ∙ ap (gets_first (demo_site setup) cfg token) e
      ∙ ap (check_item (same_id (demo_site setup) cfg token fp.id))
          (footprint-admitted fp.id s ∙ first_found fp fps e)
      ∙ (bytes_eq_iff fp.id fp.id).1 refl)

  abbrev absent : Bytes
  absent = codes "non-existent-id"

  not_among :
      (fps : List ProductFootprint)
      → All (λ (fp : ProductFootprint). bytes_eq fp.id absent ≡ false) fps
      → find_footprint fps absent ≡ err not_found (codes "not_found")
  unfolding find_footprint
  not_among [] h = refl
  not_among (fp ∷ fps) (e, h) = rw e (not_among fps h)

  none_found :
      All (λ (fp : ProductFootprint). bytes_eq fp.id absent ≡ false) setup.handler.footprints
      → Lists.get_footprint (service setup) absent
        ≡ write_handler_error not_found (codes "not_found")
  unfolding demo_service Lists.get_footprint Handler.get_footprint
  none_found h = rw (not_among setup.handler.footprints h, Lists.get_footprint) refl

  pub get_footprint_not_found-passed :
      All (λ (fp : ProductFootprint). bytes_eq fp.id absent ≡ false) setup.handler.footprints
      → get_footprint_not_found (demo_site setup) cfg token ≡ passed
  unfolding get_footprint_not_found write_handler_error code_text bytes_eq
  get_footprint_not_found-passed h = rw (footprint-admitted absent refl ∙ none_found h) refl
