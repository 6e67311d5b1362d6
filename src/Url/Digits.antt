-- ===== src/Url/Digits.antt =====
-- The queries of the URLs that server.go, `listFootprints` and `listTADs`, puts in a header `Link`, and
-- how they are read back.
use ileap_go.Common.{
  ℕ, true, [], ◌∷◌, ◌++◌, ◌≡◌, refl, sym, ap, ap₂, ◌∙◌, arith, All, Bytes, codes, join, pos, itoa,
  itoa-All,
}
use ileap_go.Server.Token.Escaped.{is_unreserved, query_escape, IsByte}
use ileap_go.Server.Http.{Values}
use ileap_go.Url.{encode_pair, encode_pairs, add, collect, parse_query}
use ileap_go.Url.Parsed.{parse_query-encode_pairs}

query_escape-unreserved : (s : Bytes) → All (λ c. is_unreserved c ≡ true) s → query_escape s ≡ s
unfolding query_escape
query_escape-unreserved [] h = refl
query_escape-unreserved (c ∷ s) (u, h) =
    rw (u, query_escape) (ap (λ t. c ∷ t) (query_escape-unreserved s h))

query_escape-itoa : (n : ℕ) → query_escape (itoa (pos n)) ≡ itoa (pos n)
query_escape-itoa n =
    query_escape-unreserved (itoa (pos n))
      (itoa-All (λ c. is_unreserved c ≡ true) (λ d h. ground arith) n)

-- The query for a page of footprints, and that for a page of TADs.
abbrev pub page_query : ℕ → ℕ → Values
page_query limit offset =
    (codes "limit", itoa (pos limit) ∷ []) ∷ (codes "offset", itoa (pos offset) ∷ []) ∷ []

abbrev pub tads_query : ℕ → ℕ → Values
tads_query limit offset =
    (codes "offset", itoa (pos offset) ∷ []) ∷ (codes "limit", itoa (pos limit) ∷ []) ∷ []

-- The query of a URL of `listFootprints`.
abbrev pub page_text : ℕ → ℕ → Bytes
page_text limit offset =
    codes "limit=" ++ (itoa (pos limit) ++ (codes "&offset=" ++ itoa (pos offset)))

page_text_lem :
    (limit offset : ℕ)
    → page_text limit offset
      ≡ encode_pairs ((codes "limit", itoa (pos limit)) ∷ (codes "offset", itoa (pos offset)) ∷ [])
unfolding encode_pairs encode_pair query_escape join
page_text_lem limit offset =
    ap₂ (λ l o. codes "limit=" ++ (l ++ (codes "&offset=" ++ o))) (sym (query_escape-itoa limit))
      (sym (query_escape-itoa offset))

collect_page :
    (limit offset : ℕ)
    → collect [] ((codes "limit", itoa (pos limit)) ∷ (codes "offset", itoa (pos offset)) ∷ [])
      ≡ page_query limit offset
unfolding collect add
collect_page limit offset = refl

itoa-IsByte : (n : ℕ) → All IsByte (itoa (pos n))
itoa-IsByte = itoa-All IsByte (λ d h. omega arith)

-- It is read back as the limit and the offset that it was made from.
pub parse_query-page_text :
    (limit offset : ℕ) → parse_query (page_text limit offset) ≡ page_query limit offset
parse_query-page_text limit offset =
    ap parse_query (page_text_lem limit offset)
    ∙ parse_query-encode_pairs _
        ((ground arith, itoa-IsByte limit), ((ground arith, itoa-IsByte offset), tt))
    ∙ collect_page limit offset

-- The query of a URL of `listTADs`.
abbrev pub tads_text : ℕ → ℕ → Bytes
tads_text limit offset =
    codes "offset=" ++ (itoa (pos offset) ++ (codes "&limit=" ++ itoa (pos limit)))

tads_text_lem :
    (limit offset : ℕ)
    → tads_text limit offset
      ≡ encode_pairs ((codes "offset", itoa (pos offset)) ∷ (codes "limit", itoa (pos limit)) ∷ [])
unfolding encode_pairs encode_pair query_escape join
tads_text_lem limit offset =
    ap₂ (λ o l. codes "offset=" ++ (o ++ (codes "&limit=" ++ l))) (sym (query_escape-itoa offset))
      (sym (query_escape-itoa limit))

collect_tads :
    (limit offset : ℕ)
    → collect [] ((codes "offset", itoa (pos offset)) ∷ (codes "limit", itoa (pos limit)) ∷ [])
      ≡ tads_query limit offset
unfolding collect add
collect_tads limit offset = refl

pub parse_query-tads_text :
    (limit offset : ℕ) → parse_query (tads_text limit offset) ≡ tads_query limit offset
parse_query-tads_text limit offset =
    ap parse_query (tads_text_lem limit offset)
    ∙ parse_query-encode_pairs _
        ((ground arith, itoa-IsByte offset), ((ground arith, itoa-IsByte limit), tt))
    ∙ collect_tads limit offset
