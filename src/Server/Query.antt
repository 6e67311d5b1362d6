-- ===== src/Server/Query.antt =====
-- server.go: the query parameters of the list endpoints.
use ileap_go.Common.{
  ℕ, Bool, List, [], ◌∷◌, ◌++◌, Option, none, some, if◌then◌else◌, any, Bytes, codes, bytes_eq,
  trim_space, ℤ, pos, atoi,
}
use ileap_go.Filter.{eq, Filter}
use ileap_go.Server.Http.{Values, get}

-- `limit <= 0` is refused; the result is a natural number.
abbrev positive : Option ℤ → Option ℕ
positive (some (pos (ℕ.suc n))) = some (ℕ.suc n)
positive _ = none

abbrev non_negative : Option ℤ → Option ℕ
non_negative (some (pos n)) = some n
non_negative _ = none

-- `parseLimit`, where `none` is an error.
unfoldable pub parse_limit : Values → Option ℕ
unfolding get
parse_limit query = elim (get query (codes "limit")) [
  | [] ↦ some 0
  | c ∷ cs ↦ positive (atoi (c ∷ cs))
]

-- `parseOffset`
unfoldable pub parse_offset : Values → Option ℕ
unfolding get
parse_offset query = elim (get query (codes "offset")) [
  | [] ↦ some 0
  | c ∷ cs ↦ non_negative (atoi (c ∷ cs))
]

abbrev is_blank : Bytes → Bool
is_blank value = bytes_eq (trim_space value) []

-- The inner loop of `queryToTADFilters`, over the values of one field.
unfoldable pub values_loop : Bytes → List Filter → List Bytes → List Filter
unfolding bytes_eq trim_space
values_loop field_path filters [] = filters
values_loop field_path filters (value ∷ values) =
    values_loop field_path
      (if is_blank value
        then filters
        else filters ++ record { field_path = field_path; operator = eq; value = value } ∷ [])
      values

-- The outer loop; `skip` holds the keys that are no filters.
unfoldable pub query_loop : List Bytes → List Filter → Values → List Filter
unfolding values_loop bytes_eq
query_loop skip filters [] = filters
query_loop skip filters ((field_path, values) ∷ query) =
    query_loop skip
      (if any (bytes_eq field_path) skip then filters else values_loop field_path filters values)
      query

unfoldable pub query_to_tad_filters : Values → List Filter
unfolding query_loop
query_to_tad_filters query = query_loop (codes "limit" ∷ codes "offset" ∷ []) [] query
