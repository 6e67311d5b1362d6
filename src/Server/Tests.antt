-- ===== src/Server/Tests.antt =====
-- Instances of the theorems about the HTTP server, over a small demo service.
use ileap_go.Common.{
  All, none, [], ◌∷◌, ◌++◌, ◌+◌, atoi, digits_value, ◌≡◌, refl, some, arith, take, drop, length,
  Bytes, codes,
}
use ileap_go.Odata.Parse.{parse_filter}
use ileap_go.Demo.Handler.{demo_service}
use ileap_go.Demo.Pages.{matching_footprints}
use ileap_go.Demo.Tests.{ascii, bread, shop}
use ileap_go.Server.Http.{get, Request}
use ileap_go.Server.Query.{parse_limit, parse_offset, query_to_tad_filters}
use ileap_go.Server.Lists.{list_footprints, list_tads}
use ileap_go.Server.Walk.{Walk, page_request, page}
use ileap_go.Conformance.Links.{IsClean, IsClean-text}
use ileap_go.Server.Walk.Demo.{
  footprints_path, tads_path, list_footprints-Walk, list_tads-Walk, list_footprints-Walk_filtered,
  list_footprints-wrapped,
}

abbrev host : Bytes
host = codes "https://h"

host-IsClean : All IsClean host
host-IsClean = IsClean-text host refl

list_footprints-Walk_example :
    Walk
      (list_footprints (demo_service ascii shop))
      host
      footprints_path
      (page_request host 2 0)
      (drop 0 shop.footprints)
list_footprints-Walk_example =
    list_footprints-Walk ascii shop host 2 (omega arith) (omega arith) host-IsClean 0 (omega arith)
      (omega arith)

-- `?limit=1`
abbrev one_tad : Request
one_tad = record { base_url = host; query = (codes "limit", codes "1" ∷ []) ∷ [] }

one_limit : parse_limit one_tad.query ≡ some 1
unfolding parse_limit atoi digits_value
one_limit = refl

one_offset : parse_offset one_tad.query ≡ some 0
unfolding parse_offset
one_offset = refl

one_filters : query_to_tad_filters one_tad.query ≡ []
unfolding query_to_tad_filters
one_filters = refl

list_tads-Walk_example :
    Walk (list_tads (demo_service ascii shop)) host tads_path one_tad (drop 0 shop.tads)
list_tads-Walk_example =
    list_tads-Walk ascii shop host 1 (omega arith) (omega arith) host-IsClean one_tad 0 refl
      one_limit one_offset one_filters (omega arith) (omega arith)

-- `?limit=1&$filter=productCategoryCpc eq '234'`
abbrev filtered : Request
filtered = record {
  base_url = host;
  query =
      (codes "limit", codes "1" ∷ [])
      ∷ (codes "$filter", codes "productCategoryCpc eq '234'" ∷ [])
      ∷ [];
}

abbrev filter_text : Bytes
filter_text = get filtered.query (codes "$filter")

filtered_matches : matching_footprints ascii shop (parse_filter filter_text) ≡ bread ∷ bread ∷ []
unfolding demo_service parse_filter get
filtered_matches = refl

filtered_limit : parse_limit filtered.query ≡ some 1
unfolding parse_limit atoi digits_value
filtered_limit = refl

filtered_offset : parse_offset filtered.query ≡ some 0
unfolding parse_offset
filtered_offset = refl

two_match : length (matching_footprints ascii shop (parse_filter filter_text)) ≡ 2
two_match = rw filtered_matches refl

list_footprints-Walk_filtered_example :
    Walk (list_footprints (demo_service ascii shop)) host footprints_path filtered (
      take 1 (drop 0 (matching_footprints ascii shop (parse_filter filter_text)))
      ++ drop (0 + 1) shop.footprints)
list_footprints-Walk_filtered_example =
    list_footprints-Walk_filtered ascii shop filtered 1 0 filtered_limit filtered_offset
      (omega arith) (rw two_match (omega arith)) (rw two_match (omega arith)) (omega arith)
      host-IsClean

list_footprints-wrapped_example :
    list_footprints (demo_service ascii shop) (page_request host 2 (4294967296 + 1))
    ≡ page none (take 2 (drop 1 shop.footprints))
list_footprints-wrapped_example =
    list_footprints-wrapped ascii shop host 2 1 (omega arith) (omega arith) (omega arith)
      (omega arith)
