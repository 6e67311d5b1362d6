-- ===== src/Url/Parsed.antt =====
-- Queries of the package `net/url`: `ParseQuery` reads back what `Values.Encode` writes.
use ileap_go.Common.{
  ==_self, ℕ, false, List, [], ◌∷◌, ◌++◌, ◌≡◌, refl, ap, ◌∙◌, some, ◌==◌, any, map, arith, All,
  All-append, Bytes, bytes_eq, join,
}
use ileap_go.Server.Http.{Values}
use ileap_go.Server.Auth.{split}
use ileap_go.Server.Token.Escaped.{
  query_escape, query_escape-All, IsByte, query_unescape-query_escape,
}
use ileap_go.Url.{
  Pair, encode_pair, encode_pairs, add, cut, decode_part, parts_loop, parse_query, collect,
}

-- A byte that is no separator of a query.
abbrev pub Other : ℕ → ℕ → Type 0
Other sep c = (c == sep) ≡ false

cut_key : (s t : Bytes) → All (Other b'=') s → cut b'=' (s ++ (b'=' ∷ t)) ≡ (s, t)
unfolding cut
cut_key [] t h = refl
cut_key (c ∷ s) t (p, h) = rw (p, cut_key s t h) refl

pub split_part :
    (sep : ℕ) (s t : Bytes) → All (Other sep) s → split sep (s ++ (sep ∷ t)) ≡ s ∷ split sep t
unfolding split
split_part sep [] t h = rw (==_self sep) refl
split_part sep (c ∷ s) t (p, h) = rw (p, split_part sep s t h) refl

split_last : (s : Bytes) → All (Other b'&') s → split b'&' s ≡ s ∷ []
unfolding split
split_last [] h = refl
split_last (c ∷ s) (p, h) = rw (p, split_last s h) refl

any_none : (s : Bytes) → All (Other b';') s → any (λ c. c == b';') s ≡ false
any_none [] h = refl
any_none (c ∷ s) (p, h) = rw (p, any_none s h) refl

-- An escaped text has no separators.
escaped_and : (s : Bytes) → All IsByte s → All (Other b'&') (query_escape s)
escaped_and =
    query_escape-All (Other b'&') (λ c u. ground arith) (λ n h. ground arith) (ground arith)
      (ground arith)

escaped_equals : (s : Bytes) → All IsByte s → All (Other b'=') (query_escape s)
escaped_equals =
    query_escape-All (Other b'=') (λ c u. ground arith) (λ n h. ground arith) (ground arith)
      (ground arith)

escaped_semicolon : (s : Bytes) → All IsByte s → All (Other b';') (query_escape s)
escaped_semicolon =
    query_escape-All (Other b';') (λ c u. ground arith) (λ n h. ground arith) (ground arith)
      (ground arith)

-- A key and a value of bytes.
abbrev pub IsText : Pair → Type 0
IsText (k, v) = All IsByte k × All IsByte v

encode_pair_and : (pair : Pair) → IsText pair → All (Other b'&') (encode_pair pair)
unfolding encode_pair
encode_pair_and (k, v) (h, i) =
    All-append (Other b'&') (query_escape k) (b'=' ∷ query_escape v) (escaped_and k h)
      (refl, escaped_and v i)

encode_pair_semicolon : (pair : Pair) → IsText pair → All (Other b';') (encode_pair pair)
unfolding encode_pair
encode_pair_semicolon (k, v) (h, i) =
    All-append (Other b';') (query_escape k) (b'=' ∷ query_escape v) (escaped_semicolon k h)
      (refl, escaped_semicolon v i)

nonempty : (s t : Bytes) (c : ℕ) → bytes_eq (s ++ (c ∷ t)) [] ≡ false
unfolding bytes_eq
nonempty [] t c = refl
nonempty (x ∷ s) t c = refl

encode_pair_nonempty : (pair : Pair) → bytes_eq (encode_pair pair) [] ≡ false
unfolding encode_pair
encode_pair_nonempty (k, v) = nonempty (query_escape k) (query_escape v) b'='

cut-encode_pair :
    (k v : Bytes) → All IsByte k → cut b'=' (encode_pair (k, v)) ≡ (query_escape k, query_escape v)
unfolding encode_pair
cut-encode_pair k v h = cut_key (query_escape k) (query_escape v) (escaped_equals k h)

decode_part-encode_pair : (pair : Pair) → IsText pair → decode_part (encode_pair pair) ≡ some pair
unfolding decode_part
decode_part-encode_pair (k, v) (h, i) =
    rw
      (
        encode_pair_nonempty (k, v),
        any_none (encode_pair (k, v)) (encode_pair_semicolon (k, v) (h, i)),
        cut-encode_pair k v h,
        query_unescape-query_escape k h,
        query_unescape-query_escape v i,
      )
      refl

split-encode_pairs :
    (pair : Pair) (pairs : List Pair)
    → All IsText (pair ∷ pairs)
    → split b'&' (encode_pairs (pair ∷ pairs)) ≡ map encode_pair (pair ∷ pairs)
unfolding encode_pairs join
split-encode_pairs pair [] (h, _) = split_last (encode_pair pair) (encode_pair_and pair h)
split-encode_pairs pair (next ∷ pairs) (h, hs) =
    split_part b'&' (encode_pair pair) _ (encode_pair_and pair h)
    ∙ ap (λ parts. encode_pair pair ∷ parts) (split-encode_pairs next pairs hs)

parts_loop-collect :
    (values : Values) (pairs : List Pair)
    → All IsText pairs
    → parts_loop values (map encode_pair pairs) ≡ collect values pairs
unfolding parts_loop collect
parts_loop-collect values [] h = refl
parts_loop-collect values (pair ∷ pairs) (h, hs) =
    rw (decode_part-encode_pair pair h, parts_loop) (parts_loop-collect (add pair values) pairs hs)

encode_nil : parse_query (encode_pairs []) ≡ collect [] []
unfolding parse_query encode_pairs join collect
encode_nil = refl

-- A query that is written from pairs of texts is read back as these pairs.
pub parse_query-encode_pairs :
    (pairs : List Pair) → All IsText pairs → parse_query (encode_pairs pairs) ≡ collect [] pairs
unfolding parse_query
parse_query-encode_pairs [] h = encode_nil
parse_query-encode_pairs (pair ∷ pairs) h =
    ap (parts_loop []) (split-encode_pairs pair pairs h) ∙ parts_loop-collect [] (pair ∷ pairs) h
