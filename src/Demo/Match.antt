-- ===== src/Demo/Match.antt =====
-- handlers/ileapdemo/handler.go: which footprints and transport activity data a filter selects.
-- Of the messages only the fields that the handler reads are kept.
use ileap_go.Common.{
  ℕ, ◌*◌, Bool, true, false, not, ◌||◌, List, [], ◌∷◌, Option, none, some, ltb, ◌==◌, if◌then◌else◌,
  any, Bytes, codes, bytes_eq,
}
use ileap_go.Filter.{Operator, unspecified, eq, ne, lt, le, gt, ge, Filter}

-- `timestamppb.Timestamp`, as nanoseconds since the year 0.
abbrev pub Timestamp : Type 0
Timestamp = ℕ

-- The instant 1970-01-01T00:00:00Z.
abbrev pub unix_epoch : ℕ
unix_epoch = 62167219200 * 1000000000

pub data TimeLayout : Type 0 where
  rfc3339_nano rfc3339 : TimeLayout

-- What the handler takes from the packages `strings` and `time`.
pub record Runtime : Type 0 where
  pub to_lower : Bytes → Bytes
  pub equal_fold : Bytes → Bytes → Bool
  pub time_parse : TimeLayout → Bytes → Option ℕ

pub record Pcf : Type 0 where
  pub geography_country : Bytes

pub record ProductFootprint : Type 0 where
  pub id : Bytes
  pub product_category_cpc : Bytes
  pub pcf : Option Pcf
  pub product_ids : List Bytes
  pub company_ids : List Bytes
  pub created : Option Timestamp
  pub updated : Option Timestamp

pub record EnergyCarrier : Type 0 where
  pub feedstocks : List Bytes

pub record Tad : Type 0 where
  pub activity_id : Bytes
  pub mode : Bytes
  pub packaging_or_tr_eq_type : Bytes
  pub energy_carriers : List EnergyCarrier

-- Whether the pair of field and operator is supported, and whether the item matches.
abbrev pub Verdict : Type 0
Verdict = Bool × Bool

-- `Timestamp.AsTime()`; a message without the field gives the epoch.
abbrev pub as_time : Option Timestamp → ℕ
as_time none = unix_epoch
as_time (some t) = t

-- The loop of `footprintMatchesFilters` and of `tadMatchesFilter`.
unfoldable pub filters_loop : (Filter → Verdict) → Bool → List Filter → Bool
filters_loop single supported [] = not supported
filters_loop single supported (filter ∷ filters) =
    let (ok, matched) = single filter in
    let skipped = filters_loop single supported filters in
    let missed = filters_loop single true filters in
    if not ok then skipped else if matched then true else missed

-- The switch of `matchesTimestampFilter`, on the two instants.
unfoldable pub compare_timestamps : ℕ → ℕ → Operator → Verdict
compare_timestamps left want unspecified = (true, left == want)
compare_timestamps left want eq = (true, left == want)
compare_timestamps left want ne = (true, not (left == want))
compare_timestamps left want lt = (true, ltb left want)
compare_timestamps left want le = (true, ltb left want || left == want)
compare_timestamps left want gt = (true, ltb want left)
compare_timestamps left want ge = (true, ltb want left || left == want)

module _ (runtime : Runtime) where
  open runtime use {to_lower, equal_fold, time_parse}

  unfoldable pub matches_string_filter : Bytes → Bytes → Operator → Verdict
  matches_string_filter candidate value unspecified = (true, equal_fold candidate value)
  matches_string_filter candidate value eq = (true, equal_fold candidate value)
  matches_string_filter candidate value ne = (true, not (equal_fold candidate value))
  matches_string_filter candidate value _ = (false, false)

  unfoldable pub contains_fold : List Bytes → Bytes → Operator → Verdict
  contains_fold values value unspecified = (true, any (λ c. equal_fold c value) values)
  contains_fold values value eq = (true, any (λ c. equal_fold c value) values)
  contains_fold values value ne = (true, not (any (λ c. equal_fold c value) values))
  contains_fold values value _ = (false, false)

  -- `parseRFC3339Value`
  unfoldable pub parse_rfc3339_value : Bytes → Option ℕ
  parse_rfc3339_value value = elim (time_parse rfc3339_nano value) [
    | some parsed ↦ some parsed
    | none ↦ time_parse rfc3339 value
  ]

  -- `matchesTimestampFilter`. Its callers pass a `*Timestamp` as an interface, which is not nil
  -- also where the pointer is, so the guard `candidate == nil` never holds.
  unfoldable pub matches_timestamp_filter : Option Timestamp → Bytes → Operator → Verdict
  unfolding parse_rfc3339_value compare_timestamps
  matches_timestamp_filter candidate value operator = elim (parse_rfc3339_value value) [
    | none ↦ (false, false)
    | some want ↦ compare_timestamps (as_time candidate) want operator
  ]

  -- The inner loop of `matchesFeedstockFilter`, which breaks at the first hit.
  unfoldable pub feedstock_loop : Bytes → Bool → List Bytes → Bool
  feedstock_loop feedstock found [] = found
  feedstock_loop feedstock found (fs ∷ rest) = elim (equal_fold fs feedstock) [
    | true ↦ true
    | false ↦ feedstock_loop feedstock found rest
  ]

  unfoldable pub carrier_loop : Bytes → Bool → List EnergyCarrier → Bool
  unfolding feedstock_loop
  carrier_loop feedstock found [] = found
  carrier_loop feedstock found (ec ∷ rest) =
      carrier_loop feedstock (feedstock_loop feedstock found ec.feedstocks) rest

  unfoldable pub matches_feedstock_filter : Tad → Bytes → Operator → Verdict
  unfolding carrier_loop
  matches_feedstock_filter tad feedstock unspecified =
      (true, carrier_loop feedstock false tad.energy_carriers)
  matches_feedstock_filter tad feedstock eq =
      (true, carrier_loop feedstock false tad.energy_carriers)
  matches_feedstock_filter tad feedstock ne =
      (true, not (carrier_loop feedstock false tad.energy_carriers))
  matches_feedstock_filter tad feedstock _ = (false, false)

  unfoldable pub tad_matches_single_filter : Tad → Filter → Verdict
  unfolding matches_string_filter matches_feedstock_filter bytes_eq
  tad_matches_single_filter tad filter =
      let name = to_lower filter.field_path in
      if bytes_eq name (codes "activityid")
      then matches_string_filter tad.activity_id filter.value filter.operator
      else if bytes_eq name (codes "mode")
      then matches_string_filter tad.mode filter.value filter.operator
      else if bytes_eq name (codes "packagingortreqtype")
      then matches_string_filter tad.packaging_or_tr_eq_type filter.value filter.operator
      else if bytes_eq name (codes "feedstock")
          || bytes_eq name (codes "energycarriers.feedstocks.feedstock")
      then matches_feedstock_filter tad filter.value filter.operator
      else (false, false)

  abbrev country_verdict : Option Pcf → Bytes → Operator → Verdict
  country_verdict none value operator = (true, false)
  country_verdict (some pcf) value operator =
      matches_string_filter pcf.geography_country value operator

  unfoldable pub footprint_matches_single_filter : ProductFootprint → Filter → Verdict
  unfolding matches_string_filter contains_fold matches_timestamp_filter bytes_eq
  footprint_matches_single_filter fp filter =
      let name = to_lower filter.field_path in
      if bytes_eq name (codes "productcategorycpc")
      then matches_string_filter fp.product_category_cpc filter.value filter.operator
      else if bytes_eq name (codes "pcf.geographycountry")
      then country_verdict fp.pcf filter.value filter.operator
      else if bytes_eq name (codes "productids")
      then contains_fold fp.product_ids filter.value filter.operator
      else if bytes_eq name (codes "companyids")
      then contains_fold fp.company_ids filter.value filter.operator
      else if bytes_eq name (codes "created")
      then matches_timestamp_filter fp.created filter.value filter.operator
      else if bytes_eq name (codes "updated")
      then matches_timestamp_filter fp.updated filter.value filter.operator
      else (false, false)

  unfoldable pub tad_matches_filter : Tad → List Filter → Bool
  unfolding filters_loop tad_matches_single_filter
  tad_matches_filter tad = filters_loop (tad_matches_single_filter tad) false

  unfoldable pub footprint_matches_filters : ProductFootprint → List Filter → Bool
  unfolding filters_loop footprint_matches_single_filter
  footprint_matches_filters fp = filters_loop (footprint_matches_single_filter fp) false
