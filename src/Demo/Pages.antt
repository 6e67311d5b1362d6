-- ===== src/Demo/Pages.antt =====
-- The page that a list request gets: handlers/ileapdemo/handler.go, `ListFootprints` and
-- `ListTransportActivityData`.
use mathlib.Core.List.{Perm}
use mathlib.Core.Path.{fun_ext}
use ileap_go.Common.{
  ℕ, zero, suc, Bool, List, [], ◌∷◌, ◌≡◌, refl, sym, ap, ◌∙◌, arith, ltb, ◌==◌, if◌then◌else◌,
  lt→ltb, length, take, drop, select, take_all, drop_all, pos, int32,
}
use ileap_go.Filter.{Filter}
use ileap_go.Service.{ok, ListRequest}
use ileap_go.Demo.Match.{
  Runtime, ProductFootprint, Tad, footprint_matches_filters, tad_matches_filter,
}
use ileap_go.Demo.Handler.{
  Handler, skip_offset, cut_limit, paginate, list_footprints, list_transport_activity_data,
  filter_tads,
}
use ileap_go.Demo.Disjunction.{tad_matches_filter-Perm}

-- What a page holds: `limit` items from `offset` on, or all of them at the limit 0.
abbrev pub window : {A : Type 0} → ℕ → ℕ → List A → List A
window limit offset xs = if limit == 0 then drop offset xs else take limit (drop offset xs)

abbrev pub asks : ℕ → ℕ → List Filter → ListRequest
asks limit offset filters = record { limit = pos limit; offset = pos offset; filters = filters }

skip_offset-drop : {A : Type 0} (o : ℕ) (xs : List A) → skip_offset (pos o) xs ≡ drop o xs
skip_offset-drop zero xs = refl
skip_offset-drop (suc o) xs = ground (arith, drop_all (suc o) xs)

cut_limit-take :
    {A : Type 0} (l : ℕ) (ys : List A) → cut_limit (pos l) ys ≡ (if l == 0 then ys else take l ys)
cut_limit-take zero ys = refl
cut_limit-take (suc l) ys = ground (arith, take_all (suc l) ys)

pub paginate-window :
    {A : Type 0} (limit offset : ℕ) (fs : List Filter) (xs : List A)
    → paginate (asks limit offset fs) xs
      ≡ record { items = window limit offset xs; total = int32 (length xs) }
unfolding paginate
paginate-window limit offset fs xs =
    ap (λ ys. record { items = ys; total = int32 (length xs) })
      (ap (cut_limit (pos limit)) (skip_offset-drop offset xs)
        ∙ cut_limit-take limit (drop offset xs))

module _ (runtime : Runtime) (h : Handler) where
  abbrev pub matching_footprints : List Filter → List ProductFootprint
  matching_footprints fs = select (λ fp. footprint_matches_filters runtime fp fs) h.footprints

  abbrev pub matching_tads : List Filter → List Tad
  matching_tads fs = select (λ tad. tad_matches_filter runtime tad fs) h.tads

  footprints_no_filter :
      (fps : List ProductFootprint)
      → select (λ fp. footprint_matches_filters runtime fp []) fps ≡ fps
  unfolding footprint_matches_filters
  footprints_no_filter [] = refl
  footprints_no_filter (fp ∷ fps) = ap (◌∷◌ fp) (footprints_no_filter fps)

  pub matching_footprints_nil : matching_footprints [] ≡ h.footprints
  matching_footprints_nil = footprints_no_filter h.footprints

  -- `ListFootprints` answers with the window of the matching footprints that the limit and the
  -- offset ask for, in their order, and with the number of all that match.
  pub list_footprints-window :
      (limit offset : ℕ) (fs : List Filter)
      → list_footprints runtime h (asks limit offset fs)
        ≡ ok (record {
          items = window limit offset (matching_footprints fs);
          total = int32 (length (matching_footprints fs));
        })
  unfolding list_footprints
  list_footprints-window limit offset fs =
      ap ok (paginate-window limit offset fs (matching_footprints fs))

  select_no_filter :
      (tads : List Tad) → select (λ tad. tad_matches_filter runtime tad []) tads ≡ tads
  unfolding tad_matches_filter
  select_no_filter [] = refl
  select_no_filter (tad ∷ tads) = ap (◌∷◌ tad) (select_no_filter tads)

  pub matching_tads_nil : matching_tads [] ≡ h.tads
  matching_tads_nil = select_no_filter h.tads

  filter_or_all :
      (fs : List Filter)
      → (if ltb 0 (length fs) then filter_tads runtime h h.tads fs else h.tads) ≡ matching_tads fs
  unfolding filter_tads
  filter_or_all [] = sym (select_no_filter h.tads)
  filter_or_all (f ∷ fs) = rw (lt→ltb 0 (suc (length fs)) (omega arith)) refl

  list_tads-paginate :
      (req : ListRequest)
      → list_transport_activity_data runtime h req ≡ ok (paginate req (matching_tads req.filters))
  unfolding list_transport_activity_data
  list_tads-paginate req = ap (λ xs. ok (paginate req xs)) (filter_or_all req.filters)

  -- `ListTransportActivityData` answers with the window of the matching TADs that the limit and
  -- the offset ask for, in their order, and with the number of all that match.
  pub list_tads-window :
      (limit offset : ℕ) (fs : List Filter)
      → list_transport_activity_data runtime h (asks limit offset fs)
        ≡ ok (record {
          items = window limit offset (matching_tads fs);
          total = int32 (length (matching_tads fs));
        })
  list_tads-window limit offset fs =
      list_tads-paginate (asks limit offset fs)
      ∙ ap ok (paginate-window limit offset fs (matching_tads fs))

  -- The order in which the filters of a request for TADs come does not change the answer.
  pub list_tads-Perm :
      (req : ListRequest) {gs : List Filter}
      → Perm req.filters gs
      → list_transport_activity_data runtime h req
        ≡ list_transport_activity_data runtime h (record req { filters = gs })
  unfolding paginate
  list_tads-Perm req {gs} p =
      list_tads-paginate req
      ∙ ap (λ (test : Tad → Bool). ok (paginate req (select test h.tads)))
          (fun_ext (λ tad. tad_matches_filter-Perm runtime tad p))
      ∙ sym (list_tads-paginate (record req { filters = gs }))
