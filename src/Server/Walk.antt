-- ===== src/Server/Walk.antt =====
-- Following the `Link` headers of the list endpoints (server.go, `listFootprints` and `listTADs`).
pub mod Demo
use ileap_go.Common.{
  All, All-append, ℕ, zero, suc, ◌+◌, ◌≤◌, ◌<◌, ◌^◌, List, [], ◌∷◌, ◌++◌, ◌≡◌, refl, ap, ap₂, subst,
  ◌∙◌, Option, none, some, arith, length, take, drop, length-take, length-drop, take-append-drop,
  drop-drop, take_all, leb, leb→le, Bool-cases, inl, inr, Bytes, codes, ℤ, pos, itoa, itoa_cons,
  atoi-itoa, int32, int64, int32_small, int64_small, ltb_ℤ, if◌then◌else◌,
}
use ileap_go.Url.{parse_query}
use ileap_go.Url.Digits.{page_query, tads_query}
use ileap_go.Server.Auth.{strip_prefix}
use ileap_go.Conformance.Checks.{next_url}
use ileap_go.Conformance.SignedIn.{strip_prefix-append}
use ileap_go.Conformance.Links.{IsClean, next_url-link_value}
use ileap_go.Service.{ok, Result, ListResponse}
use ileap_go.Odata.Parse.{parse_filter}
use ileap_go.Server.Http.{Values, get, Request, data_list, Response}
use ileap_go.Server.Query.{parse_limit, parse_offset, query_to_tad_filters}
use ileap_go.Server.Lists.{
  footprints_url, tads_url, link_value, write_page, list_footprints, list_tads,
}
use ileap_go.Demo.Match.{Runtime}
use ileap_go.Demo.Handler.{Handler, demo_service}
use ileap_go.Server.Requests.{list_footprints_lem, list_tads_lem}
use ileap_go.Demo.Pages.{
  window, matching_footprints, matching_footprints_nil, matching_tads_nil, list_footprints-window,
  list_tads-window,
}

abbrev pub page_request : Bytes → ℕ → ℕ → Request
page_request base limit offset = record { base_url = base; query = page_query limit offset }

-- The request of a client that follows a `Link`: its URL is found in the header as the conformance
-- suite does it, and its query is parsed; `none` is a URL of another site or path.
abbrev pub requested : Bytes → Option Bytes → Option Request
requested base none = none
requested base (some raw_query) = some (record { base_url = base; query = parse_query raw_query })

abbrev pub followed : Bytes → Bytes → Bytes → Option Request
followed base path link = requested base (strip_prefix (base ++ path) (next_url link))

-- The request that a link of ours leads to.
pub followed-link_value :
    (base path raw_query : Bytes)
    → All IsClean base
    → All IsClean path
    → All IsClean raw_query
    → followed base path (link_value (base ++ (path ++ raw_query)))
      ≡ some (record { base_url = base; query = parse_query raw_query })
followed-link_value base path raw_query b p q =
    let url = base ++ (path ++ raw_query) in
    let clean : All IsClean url =
      All-append IsClean base _ b (All-append IsClean path raw_query p q) in
    ap (λ u. requested base (strip_prefix (base ++ path) u)) (next_url-link_value url clean)
    ∙ ap (requested base) (strip_prefix-append base path raw_query)

abbrev pub page : {A : Type 0} → Option Bytes → List A → Response A
page link items = record { status = 200; link = link; body = data_list items }

-- A client that starts with a request and follows every link, at a site and a path, gets these
-- items in the end.
pub data Walk {A : Type 0} (serve : Request → Response A) (base path : Bytes)
    : Request → List A → Type 0 where
  last : {r : Request} {xs : List A} → serve r ≡ page none xs → Walk serve base path r xs
  more :
      {r next : Request} {xs ys : List A} (link : Bytes)
      → serve r ≡ page (some link) xs
      → followed base path link ≡ some next
      → Walk serve base path next ys
      → Walk serve base path r (xs ++ ys)

-- A page request is read back as the limit and the offset that it was made from.
pub parse_limit-page_query :
    (limit offset : ℕ)
    → 0 < limit
    → limit < 2 ^ 63
    → parse_limit (page_query limit offset) ≡ some limit
unfolding parse_limit
parse_limit-page_query zero offset p h = elim p [ ]
parse_limit-page_query (suc n) offset p h =
    let (c, cs, e) = itoa_cons (suc n) in
    rw (e, parse_limit) (rw (rw e at (atoi-itoa (suc n) h)) refl)

pub parse_offset-page_query :
    (limit offset : ℕ) → offset < 2 ^ 63 → parse_offset (page_query limit offset) ≡ some offset
unfolding parse_offset
parse_offset-page_query limit offset h =
    let (c, cs, e) = itoa_cons offset in
    rw (e, parse_offset) (rw (rw e at (atoi-itoa offset h)) refl)

-- The same where the offset comes first.
pub parse_limit-tads_query :
    (limit offset : ℕ)
    → 0 < limit
    → limit < 2 ^ 63
    → parse_limit (tads_query limit offset) ≡ some limit
unfolding parse_limit
parse_limit-tads_query zero offset p h = elim p [ ]
parse_limit-tads_query (suc n) offset p h =
    let (c, cs, e) = itoa_cons (suc n) in
    rw (e, parse_limit) (rw (rw e at (atoi-itoa (suc n) h)) refl)

pub parse_offset-tads_query :
    (limit offset : ℕ) → offset < 2 ^ 63 → parse_offset (tads_query limit offset) ≡ some offset
unfolding parse_offset
parse_offset-tads_query limit offset h =
    let (c, cs, e) = itoa_cons offset in
    rw (e, parse_offset) (rw (rw e at (atoi-itoa offset h)) refl)

-- The page of `xs` that a service with this window answers with.
abbrev pub served : {A : Type 0} → ℕ → ℕ → List A → Result (ListResponse A)
served limit offset xs =
    ok (record { items = take limit (drop offset xs); total = int32 (length xs) })

pub link_last :
    {A : Type 0} (a : A) (next total : ℕ)
    → next < 9223372036854775808
    → total < 2147483648
    → total ≤ next
    → (if ltb_ℤ (int64 next) (int32 total) then some a else none) ≡ none
link_last a next total h k m = rw (int64_small next h, int32_small total k) (ground arith)

link_more :
    {A : Type 0} (a : A) (next total : ℕ)
    → total < 2147483648
    → next < total
    → (if ltb_ℤ (int64 next) (int32 total) then some a else none) ≡ some a
link_more a next total k m = rw (int64_small next (omega arith), int32_small total k) (ground arith)

module _ {A : Type 0} (url : ℕ → ℤ → Bytes) (limit offset : ℕ) (xs : List A) where
  write_page_last :
      length xs < 2147483648
      → offset < 2147483648
      → length xs ≤ offset + limit
      → write_page url limit offset (served limit offset xs) ≡ page none (drop offset xs)
  unfolding write_page
  write_page_last h k m =
      let n = length-drop offset xs in
      let whole = take_all limit (drop offset xs) (omega (arith, n)) in
      ap₂ page
        (link_last _ _ _ (omega (arith, ap length whole, n)) h (omega (arith, ap length whole, n)))
        whole

  pub write_page_more :
      length xs < 2147483648
      → 0 < limit
      → offset + limit < length xs
      → write_page url limit offset (served limit offset xs)
        ≡ page (some (link_value (url limit (pos (offset + limit))))) (take limit (drop offset xs))
  unfolding write_page
  write_page_more h p m =
      let full : length (take limit (drop offset xs)) ≡ limit =
        omega (arith, length-take limit (drop offset xs), length-drop offset xs) in
      ap (λ link. page link (take limit (drop offset xs)))
        (rw full (
          link_more _ (offset + limit) (length xs) h m
          ∙ rw (int64_small (offset + limit) (omega arith)) (ground arith)))

-- Every endpoint that answers its page requests with the windows of `xs`, and whose links lead to
-- page requests, is walked to the end.
module _ {A : Type 0} (serve : Request → Response A) (url : ℕ → ℤ → Bytes) (base path : Bytes)
    (at_offset : ℕ → Request) (limit : ℕ) (xs : List A) (short : length xs < 2147483648)
    (positive : 0 < limit)
    (serves : (offset : ℕ)
      → offset < 2147483648
      → serve (at_offset offset) ≡ write_page url limit offset (served limit offset xs))
    (links : (offset : ℕ)
      → followed base path (link_value (url limit (pos offset))) ≡ some (at_offset offset)) where
  pub Walk-from :
      (fuel offset : ℕ) (r : Request)
      → length xs ≤ offset + fuel
      → offset < 2147483648
      → serve r ≡ write_page url limit offset (served limit offset xs)
      → Walk serve base path r (drop offset xs)
  Walk-from zero offset r f h e =
      last (e ∙ write_page_last url limit offset xs short h (omega arith))
  Walk-from (suc fuel) offset r f h e = elim (Bool-cases (leb (length xs) (offset + limit))) [
    | inl done ↦ last (e ∙ write_page_last url limit offset xs short h (leb→le _ _ done))
    | inr left ↦
        let m : offset + limit < length xs = ground arith in
        let rest =
          Walk-from fuel (offset + limit) (at_offset (offset + limit)) (omega arith) (omega arith)
            (serves (offset + limit) (omega arith)) in
        let split : take limit (drop offset xs) ++ drop (offset + limit) xs ≡ drop offset xs =
          rw (← drop-drop offset limit xs) (take-append-drop limit (drop offset xs)) in
        subst (Walk serve base path r) split (
          more (link_value (url limit (pos (offset + limit))))
            (e ∙ write_page_more url limit offset xs short positive m) (links (offset + limit))
            rest)
  ]
