-- ===== src/Server/Lists.antt =====
-- server.go: `listFootprints`, `getFootprint` and `listTADs`, over the service that the server is
-- given. The text of an error of `parseLimit` or `parseOffset` is left out of the message.
use ileap_go.Common.{
  ℕ, ◌+◌, ◌++◌, none, some, ◌==◌, if◌then◌else◌, length, Bytes, codes, ℤ, pos, ltb_ℤ, int32, int64,
  itoa,
}
use ileap_go.Odata.Parse.{parse_filter}
use ileap_go.Service.{Result, ok, err, ListResponse, Service}
use ileap_go.Server.Http.{
  get, Request, bad_request, data_list, data_item, Response, write_error, write_handler_error,
}
use ileap_go.Server.Query.{parse_limit, parse_offset, query_to_tad_filters}

-- The two URLs of a next page: the limit comes first for footprints, the offset for TADs.
abbrev pub footprints_url : Bytes → ℕ → ℤ → Bytes
footprints_url base limit next =
    base ++ (codes "/2/footprints?limit=" ++ (itoa (pos limit) ++ (codes "&offset=" ++ itoa next)))

abbrev pub tads_url : Bytes → ℕ → ℤ → Bytes
tads_url base limit next =
    base ++ (codes "/2/ileap/tad?offset=" ++ (itoa next ++ (codes "&limit=" ++ itoa (pos limit))))

abbrev pub link_value : Bytes → Bytes
link_value url = codes "<" ++ (url ++ codes ">; rel=\"next\"")

-- The limit of the next page.
abbrev pub link_limit : ℕ → ℕ → ℕ
link_limit limit count = if limit == 0 then count else limit

-- What follows the service's call in both handlers.
unfoldable pub write_page :
    {A : Type 0} → (ℕ → ℤ → Bytes) → ℕ → ℕ → Result (ListResponse A) → Response A
write_page url limit offset (err code text) = write_handler_error code text
write_page url limit offset (ok resp) =
    let count = length resp.items in
    let next = int64 (offset + count) in
    record {
      status = 200;
      link =
          if ltb_ℤ next resp.total
          then some (link_value (url (link_limit limit count) next))
          else none;
      body = data_list resp.items;
    }

module _ {Footprint Tad : Type 0} (service : Service Footprint Tad) where
  unfoldable pub list_footprints : Request → Response Footprint
  list_footprints r = elim (parse_limit r.query) [
    | none ↦ write_error 400 bad_request (codes "invalid limit")
    | some limit ↦ elim (parse_offset r.query) [
      | none ↦ write_error 400 bad_request (codes "invalid offset")
      | some offset ↦ write_page (footprints_url r.base_url) limit offset (
          service.list_footprints (record {
            limit = int32 limit;
            offset = int32 offset;
            filters = parse_filter (get r.query (codes "$filter"));
          }))
    ]
  ]

  unfoldable pub get_footprint : Bytes → Response Footprint
  get_footprint id = elim (service.get_footprint id) [
    | err code text ↦ write_handler_error code text
    | ok fp ↦ record { status = 200; link = none; body = data_item fp }
  ]

  unfoldable pub list_tads : Request → Response Tad
  list_tads r = elim (parse_limit r.query) [
    | none ↦ write_error 400 bad_request (codes "invalid limit")
    | some limit ↦ elim (parse_offset r.query) [
      | none ↦ write_error 400 bad_request (codes "invalid offset")
      | some offset ↦ write_page (tads_url r.base_url) limit offset (
          service.list_transport_activity_data (record {
            limit = int32 limit;
            offset = int32 offset;
            filters = query_to_tad_filters r.query;
          }))
    ]
  ]
