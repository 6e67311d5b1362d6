-- ===== src/Conformance/Filtered.antt =====
-- ileaptest/conformance.go over the demo server: the tests of filtered lists of footprints.
use mathlib.Core.Path.{fun_ext}
use ileap_go.Common.{
  ◌||◌, ◌==◌, ℕ, Bool, true, List, [], ◌∷◌, ◌≡◌, refl, sym, ap, ◌∙◌, Option, none, some, Bytes,
  codes, bytes_eq, ltb, leb, all, any, select, All, arith, inl, inr, Bool-cases,
}
use ileap_go.Filter.{Filter, eq, ge}
use ileap_go.Odata.Parse.{parse_filter}
use ileap_go.Server.Http.{get}
use ileap_go.Server.Auth.{admitted, pact_gate, ileap_gate}
use ileap_go.Server.Query.{parse_limit, parse_offset}
use ileap_go.Demo.Match.{
  Runtime, ProductFootprint, filters_loop, matches_string_filter, footprint_matches_filters,
  footprint_matches_single_filter, matches_timestamp_filter, compare_timestamps,
  parse_rfc3339_value, as_time,
}
use ileap_go.Demo.Pages.{matching_footprints}
use ileap_go.Server.Token.{query_unescape}
use ileap_go.Url.{parse_query}
use ileap_go.Conformance.Checks.{passed, check, ConformanceTestConfig}
use ileap_go.Conformance.Suite.{
  filtered_list_category, filtered_list_created, not_before, created_threshold, all_since,
}
use ileap_go.Conformance.Demo.{Setup, auth, bearer, demo_site}
use ileap_go.Conformance.Listed.{all-select, All-map, if_itself}
use ileap_go.Conformance.Single.{whole_list}

later_or_same : (a b : ℕ) → (ltb a b || b == a) ≡ leb a b
later_or_same a b = ground arith

select-any :
    {A : Type 0} (p : A → Bool) (xs : List A)
    → any p xs ≡ true
    → (y : A) × (ys : List A) × (select p xs ≡ y ∷ ys)
select-any p [] e = absurd (cc e)
select-any p (x ∷ xs) e = elim (Bool-cases (p x)) [
  | inl b ↦ (x, select p xs, rw b refl)
  | inr b ↦ let (y, ys, f) = select-any p xs (rw b at e) in (y, ys, rw b f)
]

abbrev pub since : ProductFootprint → Bool
since fp = not_before created_threshold fp.created

-- `strings.ToLower` of the names of the fields, and `time.Parse` of the instant.
abbrev pub LowersCategory : Runtime → Type 0
LowersCategory runtime = runtime.to_lower (codes "productCategoryCpc") ≡ codes "productcategorycpc"

abbrev pub LowersCreated : Runtime → Type 0
LowersCreated runtime = runtime.to_lower (codes "created") ≡ codes "created"

abbrev pub ParsesCreated : Runtime → Type 0
ParsesCreated runtime =
    parse_rfc3339_value runtime (codes "2022-03-01T09:32:20Z") ≡ some created_threshold

module _ (setup : Setup) (cfg : ConformanceTestConfig) (token : Bytes)
    (pact_admits : pact_gate (auth setup) (bearer token) ≡ admitted token)
    (ileap_admits : ileap_gate (auth setup) setup.clock (bearer token) ≡ admitted token) where
  abbrev category_query : Bytes
  category_query = codes "$filter=productCategoryCpc+eq+'83117'"

  abbrev category_filter : Filter
  category_filter = record {
    field_path = codes "productCategoryCpc";
    operator = eq;
    value = codes "83117";
  }

  category_limit : parse_limit (parse_query category_query) ≡ some 0
  unfolding parse_limit parse_query get query_unescape
  category_limit = refl

  category_offset : parse_offset (parse_query category_query) ≡ some 0
  unfolding parse_offset parse_query get query_unescape
  category_offset = refl

  category_filters :
      parse_filter (get (parse_query category_query) (codes "$filter")) ≡ category_filter ∷ []
  unfolding parse_filter parse_query get query_unescape
  category_filters = refl

  category_verdict :
      (fp : ProductFootprint)
      → LowersCategory setup.runtime
      → footprint_matches_single_filter setup.runtime fp category_filter
        ≡ (true, setup.runtime.equal_fold fp.product_category_cpc (codes "83117"))
  unfolding footprint_matches_single_filter matches_string_filter bytes_eq
  category_verdict fp lower = rw lower refl

  category_matches :
      (fp : ProductFootprint)
      → LowersCategory setup.runtime
      → footprint_matches_filters setup.runtime fp (category_filter ∷ [])
        ≡ setup.runtime.equal_fold fp.product_category_cpc (codes "83117")
  unfolding footprint_matches_filters filters_loop
  category_matches fp lower = rw (category_verdict fp lower) (if_itself _)

  pub filtered_list_category-passed :
      LowersCategory setup.runtime
      → All
          (λ (fp : ProductFootprint).
            setup.runtime.equal_fold fp.product_category_cpc (codes "83117") ≡ true
            → bytes_eq fp.product_category_cpc (codes "83117") ≡ true)
          setup.handler.footprints
      → filtered_list_category (demo_site setup) cfg token ≡ passed
  unfolding filtered_list_category
  filtered_list_category-passed lower exact =
      let f : ProductFootprint → Bool = λ fp. bytes_eq fp.product_category_cpc (codes "83117") in
      ap check (
        whole_list setup cfg token pact_admits ileap_admits (all f) category_query category_limit
          category_offset
        ∙ ap (λ fs. all f (matching_footprints setup.runtime setup.handler fs)) category_filters
        ∙ all-select _ f setup.handler.footprints (
            All-map (λ fp h e. h (sym (category_matches fp lower) ∙ e)) setup.handler.footprints
              exact))

  abbrev created_query : Bytes
  created_query = codes "$filter=created+ge+'2022-03-01T09:32:20Z'"

  abbrev created_text : Bytes
  created_text = codes "2022-03-01T09:32:20Z"

  abbrev created_filter : Filter
  created_filter = record { field_path = codes "created"; operator = ge; value = created_text }

  created_limit : parse_limit (parse_query created_query) ≡ some 0
  unfolding parse_limit parse_query get query_unescape
  created_limit = refl

  created_offset : parse_offset (parse_query created_query) ≡ some 0
  unfolding parse_offset parse_query get query_unescape
  created_offset = refl

  created_filters :
      parse_filter (get (parse_query created_query) (codes "$filter")) ≡ created_filter ∷ []
  unfolding parse_filter parse_query get query_unescape
  created_filters = refl

  created_time :
      (created : Option ℕ)
      → leb created_threshold (as_time created) ≡ not_before created_threshold created
  created_time none = refl
  created_time (some t) = refl

  created_verdict :
      (fp : ProductFootprint)
      → LowersCreated setup.runtime
      → ParsesCreated setup.runtime
      → footprint_matches_single_filter setup.runtime fp created_filter
        ≡ (true, leb created_threshold (as_time fp.created))
  unfolding footprint_matches_single_filter matches_timestamp_filter compare_timestamps bytes_eq
  created_verdict fp lower parses = rw lower (
      rw (parses, matches_timestamp_filter)
        (ap (λ b. (true, b)) (later_or_same created_threshold (as_time fp.created))))

  all_true : (xs : List ProductFootprint) → All (λ fp. since fp ≡ true → since fp ≡ true) xs
  all_true [] = tt
  all_true (x ∷ xs) = (λ e. e, all_true xs)

  created_matches :
      (fp : ProductFootprint)
      → LowersCreated setup.runtime
      → ParsesCreated setup.runtime
      → footprint_matches_filters setup.runtime fp (created_filter ∷ []) ≡ since fp
  unfolding footprint_matches_filters filters_loop
  created_matches fp lower parses =
      rw (created_verdict fp lower parses) (if_itself _ ∙ created_time fp.created)

  all_since_cons :
      (fps ys : List ProductFootprint) (y : ProductFootprint)
      → fps ≡ y ∷ ys
      → all_since created_threshold fps ≡ all since fps
  all_since_cons fps ys y e = rw e refl

  pub filtered_list_created-passed :
      LowersCreated setup.runtime
      → ParsesCreated setup.runtime
      → any since setup.handler.footprints ≡ true
      → filtered_list_created (demo_site setup) cfg token ≡ passed
  unfolding filtered_list_created
  filtered_list_created-passed lower parses some_since =
      let p : ProductFootprint → Bool =
        λ fp. footprint_matches_filters setup.runtime fp (created_filter ∷ []) in
      let same : p ≡ since = fun_ext (λ fp. created_matches fp lower parses) in
      let xs = setup.handler.footprints in
      let (y, ys, e) = select-any since xs some_since in
      ap check (
        whole_list setup cfg token pact_admits ileap_admits (all_since created_threshold)
          created_query created_limit created_offset
        ∙ ap
            (λ fs. all_since created_threshold (matching_footprints setup.runtime setup.handler fs))
            created_filters
        ∙ ap (λ (test : ProductFootprint → Bool). all_since created_threshold (select test xs)) same
        ∙ all_since_cons (select since xs) ys y e
        ∙ all-select since since xs (all_true xs))
