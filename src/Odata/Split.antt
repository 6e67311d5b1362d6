-- ===== src/Odata/Split.antt =====
-- internal/odata/parse.go, `splitTopLevelAndClauses`: the text is cut at each `and` that stands
-- outside parentheses and string literals, with a separator on both sides.
pub mod Cuts
pub mod Steps
pub mod Moves
use ileap_go.Common.{
  ℕ, ◌+◌, ◌-◌, Bool, false, not, ◌&&◌, ◌||◌, List, [], ◌∷◌, ◌++◌, ltb, ◌==◌, if◌then◌else◌, Bytes,
  codes, equal_fold,
}

-- `isSeparator`
unfoldable pub is_separator : ℕ → Bool
is_separator b = b == b' ' || b == b'\t' || b == b'\n' || b == b'\r' || b == b'(' || b == b')'

-- `data[i]`, or a space where the text ends.
abbrev pub byte_after : Bytes → ℕ
byte_after [] = b' '
byte_after (c ∷ _) = c

-- `matchesTopLevelAndAt(data, i)`, where `data[i:]` is the text and `before` is `data[i-1]`, or a
-- space at the start.
unfoldable pub matches_top_level_and_at : ℕ → Bytes → Bool
unfolding is_separator equal_fold
matches_top_level_and_at before (a ∷ b ∷ c ∷ rest) =
    if not (equal_fold (a ∷ b ∷ c ∷ []) (codes "and"))
    then false
    else is_separator before && is_separator (byte_after rest)
matches_top_level_and_at before _ = false

-- The variables of the loop. `clause` is `filter[start:i]`, `before` is `filter[i-1]`, and `skip`
-- counts the bytes that an `i++` or `i += 2` in the body passes over.
pub record Scan : Type 0 where
  pub clauses : List Bytes
  pub clause : Bytes
  pub before : ℕ
  pub depth : ℕ
  pub in_string : Bool
  pub skip : ℕ

abbrev pub push : Scan → ℕ → Scan
push s ch = record s { clause = s.clause ++ ch ∷ []; before = ch }

-- `i+1 < len(filter) && filter[i+1] == '\''`
abbrev pub quote_next : Bytes → Bool
quote_next [] = false
quote_next (c ∷ _) = c == b'\''

-- The body of the loop at the byte `ch`, in front of `rest`.
unfoldable pub scan_step : Scan → ℕ → Bytes → Scan
scan_step s ch rest =
    if ltb 0 s.skip
    then record s { skip = s.skip - 1; before = ch }
    else if ch == b'\''
    then (if s.in_string && quote_next rest
        then record s { clause = s.clause ++ ch ∷ b'\'' ∷ []; before = ch; skip = 1 }
        else record (push s ch) { in_string = not s.in_string })
    else if s.in_string
    then push s ch
    else if ch == b'('
    then record (push s ch) { depth = s.depth + 1 }
    else if ch == b')'
    then (if ltb 0 s.depth then record (push s ch) { depth = s.depth - 1 } else push s ch)
    else if s.depth == 0 && matches_top_level_and_at s.before (ch ∷ rest)
    then record s { clauses = s.clauses ++ s.clause ∷ []; clause = []; before = ch; skip = 2 }
    else push s ch

unfoldable pub scan : Scan → Bytes → Scan
scan s [] = s
scan s (ch ∷ rest) = scan (scan_step s ch rest) rest

abbrev pub scan_start : Scan
scan_start = record {
  clauses = [];
  clause = [];
  before = b' ';
  depth = 0;
  in_string = false;
  skip = 0;
}

unfoldable pub split_top_level_and_clauses : Bytes → List Bytes
unfolding scan scan_step matches_top_level_and_at
split_top_level_and_clauses filter = let s = scan scan_start filter in s.clauses ++ s.clause ∷ []
