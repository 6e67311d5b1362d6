-- ===== src/Odata/Split/Steps.antt =====
-- The rounds of `splitTopLevelAndClauses` (internal/odata/parse.go) over the parts of a clause.

use ileap_go.Common.{
  ℕ, suc, ◌+◌, Bool, true, false, ◌&&◌, List, [], ◌∷◌, ◌++◌, ◌≡◌, refl, ap, ◌∙◌, arith, ◌==◌,
  if_elim, Bytes, codes, fold, equal_fold,
}
use ileap_go.Odata.Split.{
  is_separator, byte_after, matches_top_level_and_at, Scan, quote_next, scan_step, scan,
}

abbrev pub at : List Bytes → Bytes → ℕ → ℕ → Bool → Scan
at cs clause before depth in_string = record {
  clauses = cs;
  clause = clause;
  before = before;
  depth = depth;
  in_string = in_string;
  skip = 0;
}

-- Neither a quote nor a parenthesis.
abbrev pub IsPlain : ℕ → Type 0
IsPlain c = ((c == b'\'') ≡ false) × ((c == b'(') ≡ false) × ((c == b')') ≡ false)

-- A byte that does not separate words.
abbrev pub IsWord : ℕ → Type 0
IsWord c = (is_separator c ≡ false) × ((c == b'\'') ≡ false)

-- A plain byte that no `and` begins with.
abbrev pub IsCalm : ℕ → Type 0
IsCalm c = IsPlain c × ((fold c == b'a') ≡ false)

pub word-IsPlain : (c : ℕ) → IsWord c → IsPlain c
unfolding is_separator
word-IsPlain c h = ground arith

pub matches_inside :
    (before : ℕ) (t : Bytes)
    → is_separator before ≡ false
    → matches_top_level_and_at before t ≡ false
unfolding matches_top_level_and_at
matches_inside before [] h = refl
matches_inside before (a ∷ []) h = refl
matches_inside before (a ∷ n ∷ []) h = refl
matches_inside before (a ∷ n ∷ d ∷ t) h =
    if_elim (λ m. m ≡ false) _ (λ _. refl) (λ _. ap (λ b. b && is_separator (byte_after t)) h)

pub matches_calm :
    (before c : ℕ) (t : Bytes)
    → (fold c == b'a') ≡ false
    → matches_top_level_and_at before (c ∷ t) ≡ false
unfolding matches_top_level_and_at equal_fold
matches_calm before c [] h = refl
matches_calm before c (n ∷ []) h = refl
matches_calm before c (n ∷ d ∷ t) h = rw (h, matches_top_level_and_at, equal_fold) refl

module _ (cs : List Bytes) (clause : Bytes) (before depth : ℕ) where
  pub scan_step-plain :
      (c : ℕ) (rest : Bytes)
      → IsPlain c
      → (depth == 0 && matches_top_level_and_at before (c ∷ rest)) ≡ false
      → scan_step (at cs clause before depth false) c rest ≡ at cs (clause ++ c ∷ []) c depth false
  unfolding scan_step
  scan_step-plain c rest p h = rw (p.0, p.1, p.2, h, scan_step) refl

  pub scan_step-open :
      (rest : Bytes)
      → scan_step (at cs clause before depth false) b'(' rest
        ≡ at cs (clause ++ b'(' ∷ []) b'(' (depth + 1) false
  unfolding scan_step
  scan_step-open rest = refl

  pub scan_step-close :
      (rest : Bytes)
      → scan_step (at cs clause before (suc depth) false) b')' rest
        ≡ at cs (clause ++ b')' ∷ []) b')' depth false
  unfolding scan_step
  scan_step-close rest = ground arith

  pub scan_step-quote :
      (rest : Bytes)
      → scan_step (at cs clause before depth false) b'\'' rest
        ≡ at cs (clause ++ b'\'' ∷ []) b'\'' depth true
  unfolding scan_step
  scan_step-quote rest = refl

  pub scan_step-unquote :
      (rest : Bytes)
      → quote_next rest ≡ false
      → scan_step (at cs clause before depth true) b'\'' rest
        ≡ at cs (clause ++ b'\'' ∷ []) b'\'' depth false
  unfolding scan_step
  scan_step-unquote rest h = rw (h, scan_step) refl

  pub scan_step-in_string :
      (c : ℕ) (rest : Bytes)
      → (c == b'\'') ≡ false
      → scan_step (at cs clause before depth true) c rest ≡ at cs (clause ++ c ∷ []) c depth true
  unfolding scan_step
  scan_step-in_string c rest h = rw (h, scan_step) refl

  pub scan-doubled :
      (rest : Bytes)
      → scan (at cs clause before depth true) (b'\'' ∷ b'\'' ∷ rest)
        ≡ scan (at cs (clause ++ b'\'' ∷ b'\'' ∷ []) b'\'' depth true) rest
  unfolding scan scan_step
  scan-doubled rest = refl

-- The rounds of the three bytes `and` between spaces.
cut_and :
    (cs : List Bytes) (clause : Bytes) (before : ℕ) (rest : Bytes)
    → scan (at cs clause before 0 false) (codes " and " ++ rest)
      ≡ scan (at (cs ++ (clause ++ b' ' ∷ []) ∷ []) [] b'd' 0 false) (b' ' ∷ rest)
unfolding scan scan_step matches_top_level_and_at
cut_and cs clause before rest = refl

-- The word ` and ` outside parentheses ends a clause.
pub scan-and :
    (cs : List Bytes) (clause : Bytes) (before : ℕ) (rest : Bytes)
    → scan (at cs clause before 0 false) (codes " and " ++ rest)
      ≡ scan (at (cs ++ (clause ++ b' ' ∷ []) ∷ []) (b' ' ∷ []) b' ' 0 false) rest
unfolding scan
scan-and cs clause before rest =
    cut_and cs clause before rest
    ∙ ap (λ s. scan s rest)
        (scan_step-plain _ [] b'd' 0 b' ' rest (refl, refl, refl)
          (matches_calm b'd' b' ' rest refl))
