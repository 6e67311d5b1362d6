-- ===== src/Client/Requests/Queries.antt =====
-- client_footprint_list.go and client_tad_list.go: what server.go reads of the queries that the
-- client writes.
use ileap_go.Common.{
  itoa-All, ℕ, zero, suc, ◌<◌, ◌^◌, All-append, List, [], ◌∷◌, ◌++◌, ◌≡◌, refl, ap, ◌∙◌, some,
  arith, All, Bytes, codes, ℤ, pos, negsuc, itoa, itoa_cons, atoi-itoa,
}
use ileap_go.Server.Http.{Values, get}
use ileap_go.Server.Query.{parse_limit, parse_offset, query_to_tad_filters}
use ileap_go.Server.Token.Escaped.{IsByte}
use ileap_go.Url.{Pair, encode, encode_pairs, flatten, sort_keys, set, add, collect, parse_query}
use ileap_go.Url.Parsed.{IsText, parse_query-encode_pairs}
use ileap_go.Client.Requests.{footprints_query, tads_query}

-- The limit that a query asks for: none if it is not positive.
abbrev pub asked : ℤ → ℕ
asked (pos n) = n
asked (negsuc n) = 0

-- The pairs of a query, in the order of their keys.
abbrev limit_pairs : ℤ → List Pair
limit_pairs (pos zero) = []
limit_pairs (pos (suc n)) = (codes "limit", itoa (pos (suc n))) ∷ []
limit_pairs (negsuc n) = []

abbrev filter_pairs : Bytes → List Pair
filter_pairs [] = []
filter_pairs (c ∷ cs) = (codes "$filter", c ∷ cs) ∷ []

footprints_query_lem :
    (limit : ℤ) (filter : Bytes)
    → footprints_query (record { limit = limit; filter = filter })
      ≡ encode_pairs (filter_pairs filter ++ limit_pairs limit)
unfolding footprints_query encode flatten sort_keys set
footprints_query_lem (pos zero) [] = refl
footprints_query_lem (pos (suc n)) [] = ground arith
footprints_query_lem (negsuc n) [] = ground arith
footprints_query_lem (pos zero) (c ∷ cs) = ground arith
footprints_query_lem (pos (suc n)) (c ∷ cs) = ground arith
footprints_query_lem (negsuc n) (c ∷ cs) = ground arith

itoa-IsByte : (n : ℕ) → All IsByte (itoa (pos n))
itoa-IsByte = itoa-All IsByte (λ d h. omega arith)

limit_pairs-IsText : (limit : ℤ) → All IsText (limit_pairs limit)
limit_pairs-IsText (pos zero) = tt
limit_pairs-IsText (pos (suc n)) = ((ground arith, itoa-IsByte (suc n)), tt)
limit_pairs-IsText (negsuc n) = tt

filter_pairs-IsText : (filter : Bytes) → All IsByte filter → All IsText (filter_pairs filter)
filter_pairs-IsText [] h = tt
filter_pairs-IsText (c ∷ cs) h = ((ground arith, h), tt)

-- What the server reads of the query.
abbrev pub read_query : ℤ → Bytes → Values
read_query limit filter = collect [] (filter_pairs filter ++ limit_pairs limit)

pub parse_query-footprints_query :
    (limit : ℤ) (filter : Bytes)
    → All IsByte filter
    → parse_query (footprints_query (record { limit = limit; filter = filter }))
      ≡ read_query limit filter
parse_query-footprints_query limit filter h =
    ap parse_query (footprints_query_lem limit filter)
    ∙ parse_query-encode_pairs (filter_pairs filter ++ limit_pairs limit) (
        All-append IsText (filter_pairs filter) (limit_pairs limit) (filter_pairs-IsText filter h)
          (limit_pairs-IsText limit))

pub tads_query_lem :
    (limit : ℤ) → tads_query limit ≡ footprints_query (record { limit = limit; filter = [] })
unfolding tads_query footprints_query
tads_query_lem limit = refl

limit_itoa :
    (n : ℕ)
    → suc n < 2 ^ 63
    → parse_limit ((codes "limit", itoa (pos (suc n)) ∷ []) ∷ []) ≡ some (suc n)
unfolding parse_limit get
limit_itoa n h =
    let (c, cs, e) = itoa_cons (suc n) in
    rw (e, parse_limit) (rw (rw e at (atoi-itoa (suc n) h)) refl)

pub parse_limit-read_query :
    (limit : ℤ) (filter : Bytes)
    → asked limit < 2 ^ 63
    → parse_limit (read_query limit filter) ≡ some (asked limit)
unfolding parse_limit get collect add
parse_limit-read_query (pos zero) [] h = refl
parse_limit-read_query (pos (suc n)) [] h = limit_itoa n h
parse_limit-read_query (negsuc n) [] h = refl
parse_limit-read_query (pos zero) (c ∷ cs) h = refl
parse_limit-read_query (pos (suc n)) (c ∷ cs) h = limit_itoa n h
parse_limit-read_query (negsuc n) (c ∷ cs) h = refl

pub parse_offset-read_query :
    (limit : ℤ) (filter : Bytes) → parse_offset (read_query limit filter) ≡ some 0
unfolding parse_offset get collect add
parse_offset-read_query (pos zero) [] = refl
parse_offset-read_query (pos (suc n)) [] = refl
parse_offset-read_query (negsuc n) [] = refl
parse_offset-read_query (pos zero) (c ∷ cs) = refl
parse_offset-read_query (pos (suc n)) (c ∷ cs) = refl
parse_offset-read_query (negsuc n) (c ∷ cs) = refl

pub get_filter-read_query :
    (limit : ℤ) (filter : Bytes) → get (read_query limit filter) (codes "$filter") ≡ filter
unfolding get collect add
get_filter-read_query (pos zero) [] = refl
get_filter-read_query (pos (suc n)) [] = refl
get_filter-read_query (negsuc n) [] = refl
get_filter-read_query (pos zero) (c ∷ cs) = refl
get_filter-read_query (pos (suc n)) (c ∷ cs) = refl
get_filter-read_query (negsuc n) (c ∷ cs) = refl

pub filters-read_query : (limit : ℤ) → query_to_tad_filters (read_query limit []) ≡ []
unfolding query_to_tad_filters collect add
filters-read_query (pos zero) = refl
filters-read_query (pos (suc n)) = refl
filters-read_query (negsuc n) = refl
