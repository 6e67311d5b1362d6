-- ===== src/Server/Requests.antt =====
-- How the list endpoints treat a request: server.go, `listFootprints`, `listTADs`, `parseLimit` and
-- `parseOffset`.
use ileap_go.Common.{ℕ, ◌≡◌, refl, some, codes, int32}
use ileap_go.Odata.Parse.{parse_filter}
use ileap_go.Service.{Service}
use ileap_go.Server.Http.{get, Request}
use ileap_go.Server.Query.{parse_limit, parse_offset, query_to_tad_filters}
use ileap_go.Server.Lists.{footprints_url, tads_url, write_page, list_footprints, list_tads}

module _ {Footprint Tad : Type 0} (service : Service Footprint Tad) (r : Request) (limit offset : ℕ)
    (limit_read : parse_limit r.query ≡ some limit)
    (offset_read : parse_offset r.query ≡ some offset) where
  pub list_footprints_lem :
      list_footprints service r
      ≡ write_page (footprints_url r.base_url) limit offset (
          service.list_footprints (record {
            limit = int32 limit;
            offset = int32 offset;
            filters = parse_filter (get r.query (codes "$filter"));
          }))
  unfolding list_footprints
  list_footprints_lem = rw (limit_read, list_footprints) (rw (offset_read, list_footprints) refl)

  pub list_tads_lem :
      list_tads service r
      ≡ write_page (tads_url r.base_url) limit offset (
          service.list_transport_activity_data (record {
            limit = int32 limit;
            offset = int32 offset;
            filters = query_to_tad_filters r.query;
          }))
  unfolding list_tads
  list_tads_lem = rw (limit_read, list_tads) (rw (offset_read, list_tads) refl)
