-- ===== src/Demo/Compare.antt =====
-- The operators of a filter: handlers/ileapdemo/handler.go, `matchesTimestampFilter`,
-- `matchesStringFilter`, `containsFold` and `matchesFeedstockFilter`.
use ileap_go.Common.{
  ℕ, ◌≤◌, ◌<◌, Bool, true, false, not, ◌≡◌, ◌≢◌, refl, ◌↔◌, Option, none, some, arith, Option-cases,
  inl, inr, if◌then◌else◌, Bytes,
}
use ileap_go.Filter.{Operator, unspecified, eq, ne, lt, le, gt, ge, Filter}
use ileap_go.Demo.Match.{
  Verdict, Timestamp, unix_epoch, Runtime, ProductFootprint, Tad, as_time, compare_timestamps,
  matches_timestamp_filter, parse_rfc3339_value, tad_matches_single_filter,
  footprint_matches_single_filter,
}

-- What an operator asks of two instants; no operator means equality.
abbrev pub Compares : Operator → ℕ → ℕ → Type 0
Compares unspecified a b = a ≡ b
Compares eq a b = a ≡ b
Compares ne a b = a ≢ b
Compares lt a b = a < b
Compares le a b = a ≤ b
Compares gt a b = b < a
Compares ge a b = b ≤ a

compare_timestamps_iff :
    (o : Operator) (a b : ℕ)
    → ((compare_timestamps a b o).0 ≡ true)
      × (((compare_timestamps a b o).1 ≡ true) ↔ Compares o a b)
unfolding compare_timestamps
compare_timestamps_iff unspecified a b = ground arith
compare_timestamps_iff eq a b = ground arith
compare_timestamps_iff ne a b = ground arith
compare_timestamps_iff lt a b = ground arith
compare_timestamps_iff le a b = ground arith
compare_timestamps_iff gt a b = ground arith
compare_timestamps_iff ge a b = ground arith

module _ (runtime : Runtime) where
  -- At a value that parses, every operator is supported on a timestamp, and it matches exactly when
  -- the field's instant stands to the value's as the operator asks.
  pub matches_timestamp_filter_iff :
      (candidate : Option Timestamp) (value : Bytes) (o : Operator) {want : ℕ}
      → parse_rfc3339_value runtime value ≡ some want
      → ((matches_timestamp_filter runtime candidate value o).0 ≡ true)
        × (((matches_timestamp_filter runtime candidate value o).1 ≡ true)
            ↔ Compares o (as_time candidate) want)
  unfolding matches_timestamp_filter
  matches_timestamp_filter_iff candidate value o {want} e =
      rw (e, matches_timestamp_filter) (compare_timestamps_iff o (as_time candidate) want)

  -- A footprint without the timestamp is compared as if it had been made at the Unix epoch: it is
  -- matched by lt and not by ge, at every value that parses to a later instant.
  pub matches_timestamp_filter_unset :
      (value : Bytes) {want : ℕ}
      → parse_rfc3339_value runtime value ≡ some want
      → unix_epoch < want
      → (matches_timestamp_filter runtime none value lt ≡ (true, true))
        × (matches_timestamp_filter runtime none value ge ≡ (true, false))
  unfolding matches_timestamp_filter compare_timestamps
  matches_timestamp_filter_unset value e h =
      rw (e, matches_timestamp_filter) (ground arith, ground arith)

-- The verdict on `ne`, from that on `eq`.
abbrev pub opposite : Verdict → Verdict
opposite (true, matched) = (true, not matched)
opposite (false, matched) = (false, matched)

opposite-if :
    (b : Bool) (x y : Verdict)
    → opposite (if b then x else y) ≡ (if b then opposite x else opposite y)
opposite-if true x y = refl
opposite-if false x y = refl

module _ (runtime : Runtime) where
  -- On a TAD, `ne` is supported on the fields where `eq` is, and matches exactly the others.
  pub tad_ne-opposite :
      (tad : Tad) (f : Filter)
      → tad_matches_single_filter runtime tad (record f { operator = ne })
        ≡ opposite (tad_matches_single_filter runtime tad (record f { operator = eq }))
  unfolding tad_matches_single_filter
  tad_ne-opposite tad f = simp opposite-if

  timestamp_ne-opposite :
      (t : Option Timestamp) (value : Bytes)
      → matches_timestamp_filter runtime t value ne
        ≡ opposite (matches_timestamp_filter runtime t value eq)
  unfolding matches_timestamp_filter compare_timestamps
  timestamp_ne-opposite t value = elim (Option-cases (parse_rfc3339_value runtime value)) [
    | inl e ↦ rw (e, matches_timestamp_filter) refl
    | inr (want, e) ↦ rw (e, matches_timestamp_filter) refl
  ]

  -- On a footprint that has a PCF, `ne` is supported on the fields where `eq` is, and matches
  -- exactly the others.
  pub footprint_ne-opposite :
      (fp : ProductFootprint) (f : Filter)
      → fp.pcf ≢ none
      → footprint_matches_single_filter runtime fp (record f { operator = ne })
        ≡ opposite (footprint_matches_single_filter runtime fp (record f { operator = eq }))
  unfolding footprint_matches_single_filter
  footprint_ne-opposite fp f h = elim (Option-cases fp.pcf) [
    | inl e ↦ absurd (h e)
    | inr (pcf, e) ↦
        rw (e, footprint_matches_single_filter) (simp (opposite-if, timestamp_ne-opposite))
  ]
