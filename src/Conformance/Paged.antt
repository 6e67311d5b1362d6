-- ===== src/Conformance/Paged.antt =====
-- ileaptest/conformance.go over the demo server: the test that follows a `Link`.
use ileap_go.Common.{
  leb→le, ℕ, ◌+◌, ◌^◌, ◌<◌, ◌≤◌, Bool, true, false, List, ◌≡◌, refl, ap, ◌∙◌, none, some, Bytes,
  codes, if◌then◌else◌, leb, length, All, All-append, arith, inl, inr, int32, int64_small, pos,
  ltb_ℤ, atoi, digits_value,
}
use ileap_go.Odata.Parse.{parse_filter}
use ileap_go.Service.{ok, ListResponse}
use ileap_go.Server.Http.{get, Response}
use ileap_go.Server.Auth.{admitted, pact_gate, ileap_gate}
use ileap_go.Server.Query.{parse_limit, parse_offset}
use ileap_go.Server.Lists.{footprints_url, link_value, write_page, list_footprints}
use ileap_go.Server.Requests.{list_footprints_lem}
use ileap_go.Server.Walk.{parse_limit-page_query, parse_offset-page_query}
use ileap_go.Demo.Match.{ProductFootprint}
use ileap_go.Demo.Handler.{demo_service}
use ileap_go.Demo.Pages.{window, matching_footprints, list_footprints-window}
use ileap_go.Url.{parse_query}
use ileap_go.Url.Digits.{page_text, parse_query-page_text}
use ileap_go.Conformance.Checks.{passed, check_list, ConformanceTestConfig}
use ileap_go.Conformance.Suite.{pagination, follow}
use ileap_go.Conformance.Demo.{
  Setup, auth, service, request, bearer, or_not_found, get_footprints, demo_site,
}
use ileap_go.Conformance.SignedIn.{strip_prefix-append}
use ileap_go.Conformance.Listed.{at_most_one, check_page, footprints-admitted}
use ileap_go.Conformance.Links.{
  IsFine, IsClean, next_url-link_value, contains-link_value, IsClean-text, IsClean-page_text,
}

module _ (setup : Setup) (cfg : ConformanceTestConfig) (token : Bytes)
    (pact_admits : pact_gate (auth setup) (bearer token) ≡ admitted token)
    (ileap_admits : ileap_gate (auth setup) setup.clock (bearer token) ≡ admitted token)
    (clean : All IsClean setup.base_url) where
  page_url-IsClean : (o : ℕ) → All IsClean (footprints_url setup.base_url 1 (pos o))
  page_url-IsClean o = All-append IsClean setup.base_url _ clean (
      All-append IsClean (codes "/2/footprints?") (page_text 1 o)
        (IsClean-text (codes "/2/footprints?") refl) (IsClean-page_text 1 o))

  page_served :
      (o : ℕ)
      → o < 2 ^ 63
      → (list_footprints (service setup) (request setup (page_text 1 o))).status ≡ 200
  unfolding demo_service write_page
  page_served o h =
      let read = parse_query-page_text 1 o in
      ap (λ (r : Response ProductFootprint). r.status)
        (list_footprints_lem (service setup) (request setup (page_text 1 o)) 1 o
          (ap parse_limit read ∙ parse_limit-page_query 1 o (omega arith) (omega arith))
          (ap parse_offset read ∙ parse_offset-page_query 1 o h))

  at_page_url :
      (o : ℕ)
      → o < 2 ^ 63
      → ((demo_site setup).get_footprints_at (footprints_url setup.base_url 1 (pos o)) token).status
        ≡ 200
  unfolding demo_site
  at_page_url o h =
      ap (λ rest. (or_not_found (λ raw_query. get_footprints setup raw_query token) rest).status)
        (strip_prefix-append setup.base_url (codes "/2/footprints?") (page_text 1 o))
      ∙ ap (λ (r : Response ProductFootprint). r.status)
          (footprints-admitted setup cfg token pact_admits ileap_admits (page_text 1 o))
      ∙ page_served o h

  follow_passed :
      (o : ℕ)
      → o < 2 ^ 63
      → follow
          (demo_site setup)
          cfg
          token
          (some (link_value (footprints_url setup.base_url 1 (pos o))))
        ≡ passed
  follow_passed o h =
      let url = footprints_url setup.base_url 1 (pos o) in
      rw
        (
          contains-link_value url (page_url-IsClean o),
          next_url-link_value url (page_url-IsClean o),
          at_page_url o h,
        )
        refl

  follow_link :
      (more : Bool) (o : ℕ)
      → o < 2 ^ 63
      → IsFine (
          follow
            (demo_site setup)
            cfg
            token
            (if more then some (link_value (footprints_url setup.base_url 1 (pos o))) else none))
  follow_link true o h = inl (follow_passed o h)
  follow_link false o h = inr refl

  -- The answer to the first request.
  abbrev first_page : ListResponse ProductFootprint
  first_page =
      let xs =
        matching_footprints setup.runtime setup.handler
          (parse_filter (get (parse_query (codes "limit=1")) (codes "$filter"))) in
      record { items = window 1 0 xs; total = int32 (length xs) }

  one_limit : parse_limit (parse_query (codes "limit=1")) ≡ some 1
  unfolding parse_limit parse_query get atoi digits_value
  one_limit = refl

  one_offset : parse_offset (parse_query (codes "limit=1")) ≡ some 0
  unfolding parse_offset parse_query get
  one_offset = refl

  first_answer :
      (demo_site setup).get_footprints (codes "limit=1") token
      ≡ write_page (footprints_url setup.base_url) 1 0 (ok first_page)
  unfolding demo_service
  first_answer =
      footprints-admitted setup cfg token pact_admits ileap_admits (codes "limit=1")
      ∙ list_footprints_lem (service setup) (request setup (codes "limit=1")) 1 0 one_limit
          one_offset
      ∙ ap (write_page (footprints_url setup.base_url) 1 0) (
          list_footprints-window setup.runtime setup.handler 1 0
            (parse_filter (get (parse_query (codes "limit=1")) (codes "$filter"))))

  short_page : length first_page.items ≤ 1
  short_page = leb→le _ 1 (at_most_one _)

  link_of_first : (write_page (footprints_url setup.base_url) 1 0 (ok first_page)).link ≡ (
      if ltb_ℤ (pos (0 + length first_page.items)) first_page.total
      then some (link_value (footprints_url setup.base_url 1 (pos (0 + length first_page.items))))
      else none)
  unfolding write_page
  link_of_first =
      ap
        (λ next.
          if ltb_ℤ next first_page.total
          then some (link_value (footprints_url setup.base_url 1 next))
          else none)
        (int64_small (0 + length first_page.items) (omega (arith, short_page)))

  pub pagination-IsFine : IsFine (pagination (demo_site setup) cfg token)
  unfolding pagination
  pagination-IsFine =
      let few : check_list (λ (fps : List ProductFootprint). leb (length fps) 1)
            (write_page (footprints_url setup.base_url) 1 0 (ok first_page))
          ≡ true =
        check_page (λ fps. leb (length fps) 1) (footprints_url setup.base_url) 1 0 first_page
        ∙ at_most_one _ in
      rw (first_answer, few, link_of_first)
        (follow_link (ltb_ℤ (pos (0 + length first_page.items)) first_page.total)
          (0 + length first_page.items) (omega (arith, short_page)))
