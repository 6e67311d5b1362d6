-- ===== src/Server/Walk/Demo.antt =====
-- The `Link` headers of the list endpoints (server.go, `listFootprints` and `listTADs`) over the demo
-- service (handlers/ileapdemo/handler.go).
use ileap_go.Common.{
  All, ap₂, ℕ, zero, suc, ◌+◌, ◌≤◌, ◌<◌, List, [], ◌++◌, ◌≡◌, refl, ap, ◌∙◌, none, some, arith,
  length, take, drop, length-take, length-drop, Bytes, codes, ℤ, pos, int32, int32_small,
}
use ileap_go.Url.Digits.{
  page_text, parse_query-page_text, tads_query, tads_text, parse_query-tads_text,
}
use ileap_go.Conformance.Links.{IsClean, IsClean-text, IsClean-page_text, IsClean-tads_text}
use ileap_go.Odata.Parse.{parse_filter}
use ileap_go.Server.Http.{get, Request}
use ileap_go.Server.Query.{parse_limit, parse_offset, query_to_tad_filters}
use ileap_go.Server.Lists.{
  footprints_url, tads_url, link_value, write_page, list_footprints, list_tads,
}
use ileap_go.Demo.Match.{Runtime}
use ileap_go.Demo.Handler.{Handler, demo_service}
use ileap_go.Server.Requests.{list_footprints_lem, list_tads_lem}
use ileap_go.Demo.Pages.{
  window, matching_footprints, matching_footprints_nil, matching_tads_nil, list_footprints-window,
  list_tads-window,
}
use ileap_go.Server.Walk.{
  link_last, page_request, page, followed, followed-link_value, Walk, more, parse_limit-page_query,
  parse_offset-page_query, parse_limit-tads_query, parse_offset-tads_query, served, write_page_more,
  Walk-from,
}

-- What stands between the URL of the server and the query of a page.
abbrev pub footprints_path : Bytes
footprints_path = codes "/2/footprints?"

abbrev pub tads_path : Bytes
tads_path = codes "/2/ileap/tad?"

window_positive :
    {A : Type 0} (limit offset : ℕ) (xs : List A)
    → 0 < limit
    → window limit offset xs ≡ take limit (drop offset xs)
window_positive (suc n) offset xs p = ground arith
window_positive zero offset xs p = elim p [ ]

module _ (runtime : Runtime) (h : Handler) (base : Bytes) (limit : ℕ) (positive : 0 < limit)
    (fits : limit < 2147483648) (clean : All IsClean base) where
  footprints_page :
      (offset : ℕ)
      → offset < 2147483648
      → list_footprints (demo_service runtime h) (page_request base limit offset)
        ≡ write_page (footprints_url base) limit offset (served limit offset h.footprints)
  unfolding demo_service parse_filter get
  footprints_page offset k =
      list_footprints_lem (demo_service runtime h) (page_request base limit offset) limit offset
        (parse_limit-page_query limit offset positive (omega arith))
        (parse_offset-page_query limit offset (omega arith))
      ∙ ap (write_page (footprints_url base) limit offset) (
          rw (int32_small limit fits) (
            rw (int32_small offset k) (
              list_footprints-window runtime h limit offset []
              ∙ rw matching_footprints_nil
                  (rw (window_positive limit offset h.footprints positive) refl))))

  footprints_link :
      (offset : ℕ)
      → followed base footprints_path (link_value (footprints_url base limit (pos offset)))
        ≡ some (page_request base limit offset)
  footprints_link offset =
      followed-link_value base footprints_path (page_text limit offset) clean
        (IsClean-text footprints_path refl) (IsClean-page_text limit offset)
      ∙ ap (λ q. some (record { base_url = base; query = q })) (parse_query-page_text limit offset)

  -- A client that asks the demo service for footprints with a positive limit, and follows each
  -- Link, comes to the end and has got every footprint from its first offset on, once and in order;
  -- the limit, the offset and the number of footprints are below 2 ^ 31, and the URL of the
  -- server has no semicolon and no angle bracket.
  pub list_footprints-Walk :
      (offset : ℕ)
      → offset < 2147483648
      → length h.footprints < 2147483648
      → Walk
          (list_footprints (demo_service runtime h))
          base
          footprints_path
          (page_request base limit offset)
          (drop offset h.footprints)
  list_footprints-Walk offset k short =
      Walk-from _ (footprints_url base) base footprints_path (page_request base limit) limit
        h.footprints short positive footprints_page footprints_link (length h.footprints) offset
        (page_request base limit offset) (omega arith) k (footprints_page offset k)

  abbrev tads_request : ℕ → Request
  tads_request offset = record { base_url = base; query = tads_query limit offset }

  -- A request for TADs without filters, as it is read.
  tads_page :
      (r : Request) (offset : ℕ)
      → r.base_url ≡ base
      → parse_limit r.query ≡ some limit
      → parse_offset r.query ≡ some offset
      → query_to_tad_filters r.query ≡ []
      → offset < 2147483648
      → list_tads (demo_service runtime h) r
        ≡ write_page (tads_url base) limit offset (served limit offset h.tads)
  unfolding demo_service
  tads_page r offset b l o f k =
      list_tads_lem (demo_service runtime h) r limit offset l o
      ∙ ap₂ (λ u v. write_page (tads_url u) limit offset v) b
          (rw (int32_small limit fits) (
            rw (int32_small offset k) (
              rw f (
                list_tads-window runtime h limit offset []
                ∙ rw matching_tads_nil (rw (window_positive limit offset h.tads positive) refl)))))

  next_tads :
      (offset : ℕ)
      → offset < 2147483648
      → list_tads (demo_service runtime h) (tads_request offset)
        ≡ write_page (tads_url base) limit offset (served limit offset h.tads)
  unfolding query_to_tad_filters
  next_tads offset k =
      tads_page (tads_request offset) offset refl
        (parse_limit-tads_query limit offset positive (omega arith))
        (parse_offset-tads_query limit offset (omega arith)) refl k

  tads_link :
      (offset : ℕ)
      → followed base tads_path (link_value (tads_url base limit (pos offset)))
        ≡ some (tads_request offset)
  tads_link offset =
      followed-link_value base tads_path (tads_text limit offset) clean
        (IsClean-text tads_path refl) (IsClean-tads_text limit offset)
      ∙ ap (λ q. some (record { base_url = base; query = q })) (parse_query-tads_text limit offset)

  -- A client that asks the demo service for TADs with a positive limit and no filter, and follows
  -- each Link, comes to the end and has got every TAD from its first offset on, once and in order;
  -- the limit, the offset and the number of TADs are below 2 ^ 31, and the URL of the server has no
  -- semicolon and no angle bracket.
  pub list_tads-Walk :
      (r : Request) (offset : ℕ)
      → r.base_url ≡ base
      → parse_limit r.query ≡ some limit
      → parse_offset r.query ≡ some offset
      → query_to_tad_filters r.query ≡ []
      → offset < 2147483648
      → length h.tads < 2147483648
      → Walk (list_tads (demo_service runtime h)) base tads_path r (drop offset h.tads)
  list_tads-Walk r offset b l o f k short =
      Walk-from _ (tads_url base) base tads_path tads_request limit h.tads short positive next_tads
        tads_link (length h.tads) offset r (omega arith) k (tads_page r offset b l o f k)

-- A Link keeps the limit and the offset of a request, and not its filter: a client that asks the
-- demo service for a filtered list of footprints with a positive limit that leaves some of them
-- out, and follows each Link, gets the first page of the footprints that match and then the rest of
-- all footprints, whether they match or not; the numbers of both are below 2 ^ 31,
-- and the URL of the server has no semicolon and no angle bracket.
pub list_footprints-Walk_filtered :
    (runtime : Runtime) (h : Handler) (r : Request) (limit offset : ℕ)
    → parse_limit r.query ≡ some limit
    → parse_offset r.query ≡ some offset
    → 0 < limit
    → offset + limit
      < length (matching_footprints runtime h (parse_filter (get r.query (codes "$filter"))))
    → length (matching_footprints runtime h (parse_filter (get r.query (codes "$filter"))))
      < 2147483648
    → length h.footprints < 2147483648
    → All IsClean r.base_url
    → Walk (list_footprints (demo_service runtime h)) r.base_url footprints_path r (
        take limit (
          drop offset
            (matching_footprints runtime h (parse_filter (get r.query (codes "$filter")))))
        ++ drop (offset + limit) h.footprints)
unfolding demo_service
list_footprints-Walk_filtered runtime h r limit offset limit_read offset_read positive left short
      all_short clean =
    let fs = parse_filter (get r.query (codes "$filter")) in
    let xs = matching_footprints runtime h fs in
    more (link_value (footprints_url r.base_url limit (pos (offset + limit))))
      (list_footprints_lem (demo_service runtime h) r limit offset limit_read offset_read
        ∙ ap (write_page (footprints_url r.base_url) limit offset) (
            rw (int32_small limit (omega arith)) (
              rw (int32_small offset (omega arith)) (
                list_footprints-window runtime h limit offset fs
                ∙ rw (window_positive limit offset xs positive) refl)))
        ∙ write_page_more (footprints_url r.base_url) limit offset xs short positive left)
      (footprints_link runtime h r.base_url limit positive (omega arith) clean (offset + limit))
      (list_footprints-Walk runtime h r.base_url limit positive (omega arith) clean (offset + limit)
        (omega arith) all_short)

int32_wrapped : (k : ℕ) → k < 2147483648 → int32 (4294967296 + k) ≡ pos k
int32_wrapped k h = ground arith

-- Where the offset lies behind the total, the page has no `Link`, whatever it holds.
write_page_beyond :
    {A : Type 0} (url : ℕ → ℤ → Bytes) (limit offset k : ℕ) (xs : List A)
    → length xs < 2147483648
    → length xs ≤ offset
    → offset < 4611686018427387904
    → write_page url limit offset (served limit k xs) ≡ page none (take limit (drop k xs))
unfolding write_page
write_page_beyond url limit offset k xs h m n =
    let taken = length-take limit (drop k xs) in
    let dropped = length-drop k xs in
    ap (λ link. page link (take limit (drop k xs)))
      (link_last _ _ _ (omega (arith, taken, dropped)) h (omega (arith, taken, dropped)))

-- A client that asks the demo service for footprints with a positive limit, and from the offset 2 ^
-- 32 + k on, gets those from the offset k on and no Link; the limit, k and the number of footprints
-- are below 2 ^ 31.
pub list_footprints-wrapped :
    (runtime : Runtime) (h : Handler) (base : Bytes) (limit k : ℕ)
    → 0 < limit
    → limit < 2147483648
    → k < 2147483648
    → length h.footprints < 2147483648
    → list_footprints (demo_service runtime h) (page_request base limit (4294967296 + k))
      ≡ page none (take limit (drop k h.footprints))
unfolding demo_service parse_filter get
list_footprints-wrapped runtime h base limit k positive fits small short =
    list_footprints_lem (demo_service runtime h) (page_request base limit (4294967296 + k)) limit
      (4294967296 + k) (parse_limit-page_query limit (4294967296 + k) positive (omega arith))
      (parse_offset-page_query limit (4294967296 + k) (omega arith))
    ∙ ap (write_page (footprints_url base) limit (4294967296 + k)) (
        rw (int32_small limit fits) (
          rw (int32_wrapped k small) (
            list_footprints-window runtime h limit k []
            ∙ rw matching_footprints_nil
                (rw (window_positive limit k h.footprints positive) refl))))
    ∙ write_page_beyond (footprints_url base) limit (4294967296 + k) k h.footprints short
        (omega arith) (omega arith)
