-- ===== src/Demo/Handler.antt =====
-- handlers/ileapdemo/handler.go: the three methods of the service.
use ileap_go.Common.{
  Bool, ◌&&◌, List, [], ◌∷◌, ltb, leb, if◌then◌else◌, length, take, drop, select, Bytes, codes,
  bytes_eq, ℤ, pos, negsuc, int32,
}
use ileap_go.Filter.{Filter}
use ileap_go.Service.{not_found, Result, ok, err, ListRequest, ListResponse, Service}
use ileap_go.Demo.Match.{
  Runtime, ProductFootprint, Tad, footprint_matches_filters, tad_matches_filter,
}

pub record Handler : Type 0 where
  pub footprints : List ProductFootprint
  pub tads : List Tad

-- `if offset > 0 {… }`
abbrev pub skip_offset : {A : Type 0} → ℤ → List A → List A
skip_offset (pos offset) filtered =
    if ltb 0 offset
    then (if leb (length filtered) offset then [] else drop offset filtered)
    else filtered
skip_offset (negsuc _) filtered = filtered

-- `if limit > 0 && len(filtered) > limit {… }`
abbrev pub cut_limit : {A : Type 0} → ℤ → List A → List A
cut_limit (pos limit) filtered =
    if ltb 0 limit && ltb limit (length filtered) then take limit filtered else filtered
cut_limit (negsuc _) filtered = filtered

-- The page of a list that a request asks for, and the total: the end of both list methods.
unfoldable pub paginate : {A : Type 0} → ListRequest → List A → ListResponse A
paginate req filtered = record {
  items = cut_limit req.limit (skip_offset req.offset filtered);
  total = int32 (length filtered);
}

unfoldable pub find_footprint : List ProductFootprint → Bytes → Result ProductFootprint
unfolding bytes_eq
find_footprint [] id = err not_found (codes "not_found")
find_footprint (fp ∷ fps) id =
    let rest = find_footprint fps id in if bytes_eq fp.id id then ok fp else rest

abbrev has_filter : List Filter → Bool
has_filter filters = ltb 0 (length filters)

module _ (runtime : Runtime) (h : Handler) where
  unfoldable pub get_footprint : Bytes → Result ProductFootprint
  unfolding find_footprint
  get_footprint id = find_footprint h.footprints id

  unfoldable pub list_footprints : ListRequest → Result (ListResponse ProductFootprint)
  unfolding paginate footprint_matches_filters
  list_footprints req =
      ok (
        paginate req (select (λ fp. footprint_matches_filters runtime fp req.filters) h.footprints))

  unfoldable pub filter_tads : List Tad → List Filter → List Tad
  unfolding tad_matches_filter
  filter_tads tads filters = select (λ tad. tad_matches_filter runtime tad filters) tads

  unfoldable pub list_transport_activity_data : ListRequest → Result (ListResponse Tad)
  unfolding paginate filter_tads
  list_transport_activity_data req =
      ok (paginate req (if has_filter req.filters then filter_tads h.tads req.filters else h.tads))

  -- The handler as the server sees it.
  unfoldable pub demo_service : Service ProductFootprint Tad
  unfolding get_footprint list_footprints list_transport_activity_data
  demo_service = record {
    list_footprints = list_footprints;
    get_footprint = get_footprint;
    list_transport_activity_data = list_transport_activity_data;
  }
