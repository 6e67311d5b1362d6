-- ===== src/Demo/Disjunction.antt =====
-- What a list of filters selects: handlers/ileapdemo/handler.go, `footprintMatchesFilters` and
-- `tadMatchesFilter`.
use mathlib.Core.List.{Perm, Permᴰ}
use mathlib.Core.Logic.{∥∥₁_elim}
use mathlib.Core.Bool.{Bool-set}
use ileap_go.Common.{Bool, true, false, List, [], ◌∷◌, ◌≡◌, refl, ◌∙◌, ◌↔◌, ◌⊎◌, arith, All}
use ileap_go.Filter.{Filter}
use ileap_go.Demo.Match.{
  Verdict, filters_loop, Runtime, ProductFootprint, Tad, tad_matches_single_filter,
  footprint_matches_single_filter, tad_matches_filter, footprint_matches_filters,
}

module _ (single : Filter → Verdict) where
  -- Some filter of the list is supported and matches.
  abbrev pub Hits : List Filter → Type 0
  Hits [] = ⊥
  Hits (f ∷ fs) = ((single f).0 ≡ true) × ((single f).1 ≡ true) ⊎ Hits fs

  abbrev pub Unsupported : Filter → Type 0
  Unsupported f = (single f).0 ≡ false

  filters_loop-true : (fs : List Filter) → (filters_loop single true fs ≡ true) ↔ Hits fs
  unfolding filters_loop
  filters_loop-true [] = ground arith
  filters_loop-true (f ∷ fs) = ground (arith, filters_loop-true fs)

  pub filters_loop_iff :
      (fs : List Filter) → (filters_loop single false fs ≡ true) ↔ (Hits fs ⊎ All Unsupported fs)
  unfolding filters_loop
  filters_loop_iff [] = ground arith
  filters_loop_iff (f ∷ fs) = ground (arith, filters_loop-true fs, filters_loop_iff fs)

-- The order of the filters does not matter.
module _ (single : Filter → Verdict) where
  filters_loop-Permᴰ :
      {fs gs : List Filter} (supported : Bool)
      → Permᴰ fs gs
      → filters_loop single supported fs ≡ filters_loop single supported gs
  unfolding filters_loop
  filters_loop-Permᴰ supported Permᴰ.nil = refl
  filters_loop-Permᴰ supported (Permᴰ.cons {a} e p) =
      rw (← e) (ground (arith, filters_loop-Permᴰ supported p, filters_loop-Permᴰ true p))
  filters_loop-Permᴰ supported (Permᴰ.swap e e') = rw (e, e') (ground arith)
  filters_loop-Permᴰ supported (Permᴰ.trans p q) =
      filters_loop-Permᴰ supported p ∙ filters_loop-Permᴰ supported q

  filters_loop-Perm :
      {fs gs : List Filter} (supported : Bool)
      → Perm fs gs
      → filters_loop single supported fs ≡ filters_loop single supported gs
  filters_loop-Perm supported p = ∥∥₁_elim p (Bool-set _ _) (filters_loop-Permᴰ supported)

module _ (runtime : Runtime) where
  -- A footprint is listed exactly when some filter of the request is supported and matches it, or
  -- none of the filters is supported.
  pub footprint_matches_filters_iff :
      (fp : ProductFootprint) (fs : List Filter)
      → (footprint_matches_filters runtime fp fs ≡ true) ↔ (
          Hits (footprint_matches_single_filter runtime fp) fs
          ⊎ All (Unsupported (footprint_matches_single_filter runtime fp)) fs)
  unfolding footprint_matches_filters
  footprint_matches_filters_iff fp = filters_loop_iff (footprint_matches_single_filter runtime fp)

  -- A TAD is listed exactly when some filter of the request is supported and matches it, or none
  -- of the filters is supported.
  pub tad_matches_filter_iff :
      (tad : Tad) (fs : List Filter)
      → (tad_matches_filter runtime tad fs ≡ true) ↔ (
          Hits (tad_matches_single_filter runtime tad) fs
          ⊎ All (Unsupported (tad_matches_single_filter runtime tad)) fs)
  unfolding tad_matches_filter
  tad_matches_filter_iff tad = filters_loop_iff (tad_matches_single_filter runtime tad)

  pub tad_matches_filter-Perm :
      (tad : Tad) {fs gs : List Filter}
      → Perm fs gs
      → tad_matches_filter runtime tad fs ≡ tad_matches_filter runtime tad gs
  unfolding tad_matches_filter
  tad_matches_filter-Perm tad = filters_loop-Perm (tad_matches_single_filter runtime tad) false
