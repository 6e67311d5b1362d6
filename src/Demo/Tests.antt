-- ===== src/Demo/Tests.antt =====
-- Instances of the theorems about the demo handler.
use mathlib.Core.List.{Perm, Permᴰ}
use ileap_go.Common.{
  ℕ, ◌*◌, true, false, [], ◌∷◌, ◌≡◌, refl, ◌↔◌, ◌⊎◌, none, some, arith, if◌then◌else◌, All, map,
  codes, bytes_eq, fold, equal_fold, length, int32,
}
use ileap_go.Filter.{eq, lt, ge, gt, Filter}
use ileap_go.Service.{ok}
use ileap_go.Demo.Match.{
  Runtime, unix_epoch, ProductFootprint, Tad, parse_rfc3339_value, matches_timestamp_filter,
  footprint_matches_single_filter, footprint_matches_filters,
}
use ileap_go.Demo.Handler.{Handler, list_footprints, list_transport_activity_data}
use ileap_go.Demo.Disjunction.{Hits, Unsupported, footprint_matches_filters_iff}
use ileap_go.Demo.Compare.{Compares, matches_timestamp_filter_iff, matches_timestamp_filter_unset}
use ileap_go.Demo.Pages.{window, asks, matching_footprints, list_footprints-window, list_tads-Perm}

-- The instant 2024-01-01T00:00:00Z.
abbrev new_year : ℕ
new_year = 63871286400 * 1000000000

abbrev pub ascii : Runtime
ascii = record {
  to_lower = map fold;
  equal_fold = equal_fold;
  time_parse =
      λ layout value. if bytes_eq value (codes "2024-01-01T00:00:00Z") then some new_year else none;
}

abbrev pub bread : ProductFootprint
bread = record {
  id = codes "b";
  product_category_cpc = codes "234";
  pcf = some (record { geography_country = codes "DE" });
  product_ids = codes "urn:b" ∷ [];
  company_ids = [];
  created = none;
  updated = none;
}

abbrev pub milk : ProductFootprint
milk = record bread { id = codes "m"; product_category_cpc = codes "22"; pcf = none }

abbrev pub truck : Tad
truck = record {
  activity_id = codes "t";
  mode = codes "Road";
  packaging_or_tr_eq_type = codes "Box";
  energy_carriers = record { feedstocks = codes "Fossil" ∷ [] } ∷ [];
}

abbrev ship : Tad
ship = record truck { activity_id = codes "s"; mode = codes "Sea" }

abbrev pub shop : Handler
shop = record { footprints = bread ∷ milk ∷ bread ∷ []; tads = truck ∷ ship ∷ [] }

abbrev by_mode : Filter
by_mode = record { field_path = codes "mode"; operator = eq; value = codes "road" }

abbrev by_cpc : Filter
by_cpc = record { field_path = codes "productCategoryCpc"; operator = eq; value = codes "234" }

abbrev by_name : Filter
by_name = record { field_path = codes "name"; operator = gt; value = codes "x" }

footprint_matches_filters_iff_example :
    (footprint_matches_filters ascii bread (by_name ∷ by_cpc ∷ []) ≡ true) ↔ (
      Hits (footprint_matches_single_filter ascii bread) (by_name ∷ by_cpc ∷ [])
      ⊎ All (Unsupported (footprint_matches_single_filter ascii bread)) (by_name ∷ by_cpc ∷ []))
footprint_matches_filters_iff_example =
    footprint_matches_filters_iff ascii bread (by_name ∷ by_cpc ∷ [])

list_footprints-window_example :
    list_footprints ascii shop (asks 1 1 (by_cpc ∷ []))
    ≡ ok (record {
      items = window 1 1 (matching_footprints ascii shop (by_cpc ∷ []));
      total = int32 (length (matching_footprints ascii shop (by_cpc ∷ [])));
    })
list_footprints-window_example = list_footprints-window ascii shop 1 1 (by_cpc ∷ [])

swapped : Perm (by_name ∷ by_mode ∷ []) (by_mode ∷ by_name ∷ [])
swapped = ∣ Permᴰ.swap refl refl ∣₁

list_tads-Perm_example :
    list_transport_activity_data ascii shop (asks 1 0 (by_name ∷ by_mode ∷ []))
    ≡ list_transport_activity_data ascii shop (asks 1 0 (by_mode ∷ by_name ∷ []))
list_tads-Perm_example = list_tads-Perm ascii shop (asks 1 0 (by_name ∷ by_mode ∷ [])) swapped

reads_date : parse_rfc3339_value ascii (codes "2024-01-01T00:00:00Z") ≡ some new_year
unfolding parse_rfc3339_value bytes_eq
reads_date = refl

matches_timestamp_filter_iff_example :
    ((matches_timestamp_filter ascii (some unix_epoch) (codes "2024-01-01T00:00:00Z") ge).0 ≡ true)
    × (((matches_timestamp_filter ascii (some unix_epoch) (codes "2024-01-01T00:00:00Z") ge).1
          ≡ true)
        ↔ Compares ge unix_epoch new_year)
matches_timestamp_filter_iff_example =
    matches_timestamp_filter_iff ascii (some unix_epoch) (codes "2024-01-01T00:00:00Z") ge
      reads_date

matches_timestamp_filter_unset_example :
    (matches_timestamp_filter ascii none (codes "2024-01-01T00:00:00Z") lt ≡ (true, true))
    × (matches_timestamp_filter ascii none (codes "2024-01-01T00:00:00Z") ge ≡ (true, false))
matches_timestamp_filter_unset_example =
    matches_timestamp_filter_unset ascii (codes "2024-01-01T00:00:00Z") reads_date (omega arith)
