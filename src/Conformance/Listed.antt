-- ===== src/Conformance/Listed.antt =====
-- ileaptest/conformance.go over the demo server: the tests of lists and of single footprints.
use ileap_go.Common.{
  atoi, digits_value, ℕ, ◌<◌, ℤ, int32_small, Bool, true, false, List, [], ◌∷◌, ◌≡◌, refl, sym, ap,
  ◌∙◌, some, Bytes, codes, bytes_eq, if◌then◌else◌, leb, length, all, select, All, arith, inl, inr,
  Bool-cases, int32,
}
use ileap_go.Filter.{Filter, eq}
use ileap_go.Odata.Parse.{parse_filter}
use ileap_go.Service.{ok, ListResponse}
use ileap_go.Server.Http.{get, Request}
use ileap_go.Server.Auth.{admitted, pact_gate, ileap_gate, through}
use ileap_go.Server.Query.{parse_limit, parse_offset, query_to_tad_filters}
use ileap_go.Server.Lists.{footprints_url, tads_url, write_page, list_footprints, list_tads}
use ileap_go.Server.Requests.{list_footprints_lem, list_tads_lem}
use ileap_go.Server.Routes.{footprints_route, tads_route}
use ileap_go.Demo.Match.{
  filters_loop, tad_matches_single_filter, matches_string_filter, ProductFootprint, Tad, Runtime,
  tad_matches_filter,
}
use ileap_go.Demo.Handler.{demo_service}
use ileap_go.Demo.Pages.{
  matching_footprints, matching_tads, window, list_footprints-window, list_tads-window,
}
use ileap_go.Url.{parse_query}
use ileap_go.Conformance.Checks.{passed, check, check_list, ConformanceTestConfig}
use ileap_go.Conformance.Suite.{filtered_tad, limited_tad}
use ileap_go.Conformance.Demo.{Setup, auth, service, request, bearer, demo_site}

-- What the tests ask of a list holds of the items that are selected.
pub all-select :
    {A : Type 0} (p q : A → Bool) (xs : List A)
    → All (λ x. p x ≡ true → q x ≡ true) xs
    → all q (select p xs) ≡ true
all-select p q [] h = refl
all-select p q (x ∷ xs) (f, h) = elim (Bool-cases (p x)) [
  | inl b ↦ rw (b, f b) (all-select p q xs h)
  | inr b ↦ rw b (all-select p q xs h)
]

pub All-map :
    {A : Type 0} {P Q : A → Type 0} (f : (x : A) → P x → Q x) (xs : List A) → All P xs → All Q xs
All-map f [] h = tt
All-map f (x ∷ xs) (p, h) = (f x p, All-map f xs h)

pub if_itself : (b : Bool) → (if b then true else false) ≡ b
if_itself true = refl
if_itself false = refl

pub check_page :
    {A : Type 0} (f : List A → Bool) (url : ℕ → ℤ → Bytes) (limit offset : ℕ)
    (resp : ListResponse A)
    → check_list f (write_page url limit offset (ok resp)) ≡ f resp.items
unfolding write_page
check_page f url limit offset resp = refl

pub at_most_one : {A : Type 0} (xs : List A) → leb (length (window 1 0 xs)) 1 ≡ true
at_most_one [] = refl
at_most_one (x ∷ xs) = refl

-- `strings.ToLower` of the name of the field.
abbrev pub LowersMode : Runtime → Type 0
LowersMode runtime = runtime.to_lower (codes "mode") ≡ codes "mode"

module _ (setup : Setup) (cfg : ConformanceTestConfig) (token : Bytes)
    (pact_admits : pact_gate (auth setup) (bearer token) ≡ admitted token)
    (ileap_admits : ileap_gate (auth setup) setup.clock (bearer token) ≡ admitted token) where
  pub footprints-admitted :
      (raw_query : Bytes)
      → (demo_site setup).get_footprints raw_query token
        ≡ list_footprints (service setup) (request setup raw_query)
  unfolding demo_site footprints_route through
  footprints-admitted raw_query = rw (pact_admits, footprints_route) refl

  tads-admitted :
      (raw_query : Bytes)
      → (demo_site setup).get_tads raw_query token
        ≡ list_tads (service setup) (request setup raw_query)
  unfolding demo_site tads_route through
  tads-admitted raw_query = rw (ileap_admits, tads_route) refl

  -- A page of the footprints that a filter selects, for a limit that is small.
  pub check_footprints :
      (f : List ProductFootprint → Bool) (r : Request) (limit : ℕ)
      → parse_limit r.query ≡ some limit
      → parse_offset r.query ≡ some 0
      → limit < 2147483648
      → check_list f (list_footprints (service setup) r)
        ≡ f (
            window limit 0 (
              matching_footprints setup.runtime setup.handler
                (parse_filter (get r.query (codes "$filter")))))
  unfolding demo_service
  check_footprints f r limit l o small =
      let fs = parse_filter (get r.query (codes "$filter")) in
      let xs = matching_footprints setup.runtime setup.handler fs in
      ap (check_list f) (
        list_footprints_lem (service setup) r limit 0 l o
        ∙ ap (write_page (footprints_url r.base_url) limit 0) (
            rw (int32_small limit small)
              (list_footprints-window setup.runtime setup.handler limit 0 fs)))
      ∙ check_page f (footprints_url r.base_url) limit 0
          (record { items = window limit 0 xs; total = int32 (length xs) })

  check_tads :
      (f : List Tad → Bool) (r : Request) (limit : ℕ)
      → parse_limit r.query ≡ some limit
      → parse_offset r.query ≡ some 0
      → limit < 2147483648
      → check_list f (list_tads (service setup) r)
        ≡ f (
            window limit 0
              (matching_tads setup.runtime setup.handler (query_to_tad_filters r.query)))
  unfolding demo_service
  check_tads f r limit l o small =
      let fs = query_to_tad_filters r.query in
      let xs = matching_tads setup.runtime setup.handler fs in
      ap (check_list f) (
        list_tads_lem (service setup) r limit 0 l o
        ∙ ap (write_page (tads_url r.base_url) limit 0) (
            rw (int32_small limit small) (list_tads-window setup.runtime setup.handler limit 0 fs)))
      ∙ check_page f (tads_url r.base_url) limit 0
          (record { items = window limit 0 xs; total = int32 (length xs) })

  mode_limit : parse_limit (parse_query (codes "mode=Road")) ≡ some 0
  unfolding parse_limit parse_query get
  mode_limit = refl

  mode_offset : parse_offset (parse_query (codes "mode=Road")) ≡ some 0
  unfolding parse_offset parse_query get
  mode_offset = refl

  abbrev mode_filter : Filter
  mode_filter = record { field_path = codes "mode"; operator = eq; value = codes "Road" }

  mode_filters : query_to_tad_filters (parse_query (codes "mode=Road")) ≡ mode_filter ∷ []
  unfolding query_to_tad_filters parse_query
  mode_filters = refl

  mode_verdict :
      (tad : Tad)
      → LowersMode setup.runtime
      → tad_matches_single_filter setup.runtime tad mode_filter
        ≡ (true, setup.runtime.equal_fold tad.mode (codes "Road"))
  unfolding tad_matches_single_filter matches_string_filter bytes_eq
  mode_verdict tad lower = rw lower refl

  mode_matches :
      (tad : Tad)
      → LowersMode setup.runtime
      → tad_matches_filter setup.runtime tad (mode_filter ∷ [])
        ≡ setup.runtime.equal_fold tad.mode (codes "Road")
  unfolding tad_matches_filter filters_loop
  mode_matches tad lower = rw (mode_verdict tad lower) (if_itself _)

  -- The list may hold any number of TADs, which have the mode itself and not in another case.
  pub filtered_tad-passed :
      LowersMode setup.runtime
      → All
          (λ (tad : Tad).
            setup.runtime.equal_fold tad.mode (codes "Road") ≡ true
            → bytes_eq tad.mode (codes "Road") ≡ true)
          setup.handler.tads
      → filtered_tad (demo_site setup) cfg token ≡ passed
  unfolding filtered_tad
  filtered_tad-passed lower exact =
      let road : Tad → Bool = λ tad. bytes_eq tad.mode (codes "Road") in
      ap check (
        ap (check_list (all road)) (tads-admitted (codes "mode=Road"))
        ∙ check_tads (all road) (request setup (codes "mode=Road")) 0 mode_limit mode_offset
            (omega arith)
        ∙ ap (λ fs. all road (matching_tads setup.runtime setup.handler fs)) mode_filters
        ∙ all-select _ road setup.handler.tads
            (All-map (λ tad h e. h (sym (mode_matches tad lower) ∙ e)) setup.handler.tads exact))

  one_limit : parse_limit (parse_query (codes "limit=1")) ≡ some 1
  unfolding parse_limit parse_query get atoi digits_value
  one_limit = refl

  one_offset : parse_offset (parse_query (codes "limit=1")) ≡ some 0
  unfolding parse_offset parse_query get
  one_offset = refl

  pub limited_tad-passed : limited_tad (demo_site setup) cfg token ≡ passed
  unfolding limited_tad
  limited_tad-passed = ap check (
      ap (check_list (λ tads. leb (length tads) 1)) (tads-admitted (codes "limit=1"))
      ∙ check_tads (λ tads. leb (length tads) 1) (request setup (codes "limit=1")) 1 one_limit
          one_offset (omega arith)
      ∙ at_most_one _)
