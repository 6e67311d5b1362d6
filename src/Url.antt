-- ===== src/Url.antt =====
-- The queries and forms of the package `net/url` that client_footprint_list.go, client_tad_list.go
-- and handlers/ileapclerk/client.go write, and that server.go reads: `Values.Encode` and
-- `ParseQuery`.
pub mod Parsed
pub mod Digits
use ileap_go.Common.{
  ℕ, ◌+◌, Bool, true, false, ◌||◌, List, [], ◌∷◌, ◌++◌, Option, none, some, ltb, ◌==◌,
  if◌then◌else◌, any, map, Bytes, codes, bytes_eq, join,
}
use ileap_go.Server.Http.{Values}
use ileap_go.Server.Auth.{split}
use ileap_go.Server.Token.{query_unescape}
use ileap_go.Server.Token.Escaped.{query_escape}

-- `a < b` on Go strings.
unfoldable pub bytes_ltb : Bytes → Bytes → Bool
bytes_ltb [] [] = false
bytes_ltb [] (y ∷ b) = true
bytes_ltb (x ∷ a) [] = false
bytes_ltb (x ∷ a) (y ∷ b) = let rest = bytes_ltb a b in if x == y then rest else ltb x y

-- A key with one of its values.
abbrev pub Pair : Type 0
Pair = Bytes × Bytes

unfoldable pub insert : Bytes × List Bytes → Values → Values
unfolding bytes_ltb
insert (k, vs) [] = (k, vs) ∷ []
insert (k, vs) ((l, ws) ∷ values) =
    let rest = insert (k, vs) values in
    if bytes_ltb l k then (l, ws) ∷ rest else (k, vs) ∷ (l, ws) ∷ values

-- The keys in order.
unfoldable pub sort_keys : Values → Values
unfolding insert
sort_keys [] = []
sort_keys (entry ∷ values) = insert entry (sort_keys values)

unfoldable pub flatten : Values → List Pair
flatten [] = []
flatten ((k, vs) ∷ values) = map (λ v. (k, v)) vs ++ flatten values

unfoldable pub encode_pair : Pair → Bytes
unfolding query_escape
encode_pair (k, v) = query_escape k ++ (b'=' ∷ query_escape v)

unfoldable pub encode_pairs : List Pair → Bytes
unfolding encode_pair join
encode_pairs pairs = join (codes "&") (map encode_pair pairs)

-- `Values.Encode`
unfoldable pub encode : Values → Bytes
unfolding sort_keys flatten encode_pairs
encode values = encode_pairs (flatten (sort_keys values))

-- `m[key] = append(m[key], value)`
unfoldable pub add : Pair → Values → Values
unfolding bytes_eq
add (k, v) [] = (k, v ∷ []) ∷ []
add (k, v) ((l, ws) ∷ values) =
    let rest = add (k, v) values in
    if bytes_eq l k then (l, ws ++ v ∷ []) ∷ values else (l, ws) ∷ rest

-- `Values.Set`
unfoldable pub set : Bytes → Bytes → Values → Values
unfolding bytes_eq
set k v [] = (k, v ∷ []) ∷ []
set k v ((l, ws) ∷ values) =
    let rest = set k v values in if bytes_eq l k then (l, v ∷ []) ∷ values else (l, ws) ∷ rest

-- `strings.Cut(key, "=")`
unfoldable pub cut : ℕ → Bytes → Pair
cut sep [] = ([], [])
cut sep (c ∷ s) =
    let (before, after) = cut sep s in if c == sep then ([], s) else (c ∷ before, after)

abbrev pub both : Option Bytes → Option Bytes → Option Pair
both (some k) (some v) = some (k, v)
both _ _ = none

-- One part of a query, where `none` is a part that is passed over.
unfoldable pub decode_part : Bytes → Option Pair
unfolding cut query_unescape
decode_part part =
    if bytes_eq part [] || any (λ c. c == b';') part
    then none
    else let (k, v) = cut b'=' part in both (query_unescape k) (query_unescape v)

abbrev pub add_if_any : Option Pair → Values → Values
add_if_any none values = values
add_if_any (some pair) values = add pair values

unfoldable pub parts_loop : Values → List Bytes → Values
unfolding decode_part add
parts_loop values [] = values
parts_loop values (part ∷ parts) = parts_loop (add_if_any (decode_part part) values) parts

-- `ParseQuery`, as `URL.Query` calls it: a part that is malformed is passed over.
unfoldable pub parse_query : Bytes → Values
unfolding parts_loop split
parse_query query = parts_loop [] (split b'&' query)

-- What the pairs of a query make, one after the other.
unfoldable pub collect : Values → List Pair → Values
unfolding add
collect values [] = values
collect values (pair ∷ pairs) = collect (add pair values) pairs
