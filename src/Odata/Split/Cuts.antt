-- ===== src/Odata/Split/Cuts.antt =====
-- Splitting loses nothing but the words `and` (internal/odata/parse.go, `splitTopLevelAndClauses`).
use ileap_go.Common.{
  ℕ, zero, suc, ◌-◌, Bool, true, false, ◌&&◌, List, [], ◌∷◌, ◌++◌, ◌≡◌, refl, sym, ap, subst, ◌∙◌,
  inl, inr, arith, ltb, ◌==◌, Bool-cases, if_elim, drop, Bytes, codes, equal_fold, append_assoc,
  append-nil,
}
use ileap_go.Odata.Split.{
  matches_top_level_and_at, Scan, quote_next, scan_step, scan, scan_start,
  split_top_level_and_clauses,
}

-- The text is these pieces, with an `and` of any case between each and the next.
pub data Cuts : List Bytes → Bytes → Type 0 where
  whole : {piece : Bytes} → Cuts (piece ∷ []) piece
  cut :
      {piece rest : Bytes} {pieces : List Bytes} (word : Bytes)
      → equal_fold word (codes "and") ≡ true
      → Cuts pieces rest
      → Cuts (piece ∷ pieces) (piece ++ (word ++ rest))

-- What is still to be cut: the open clause and the text in front, less the bytes to pass over.
abbrev pending : Scan → Bytes → Bytes
pending s text = s.clause ++ drop s.skip text

-- One round keeps the pending text, or cuts an `and` off it.
data Round (s : Scan) (ch : ℕ) (rest : Bytes) (s' : Scan) : Type 0 where
  keeps : s'.clauses ≡ s.clauses → pending s' rest ≡ pending s (ch ∷ rest) → Round s ch rest s'
  cuts :
      {n d : ℕ} {next : Bytes}
      → s.skip ≡ 0
      → rest ≡ n ∷ d ∷ next
      → equal_fold (ch ∷ n ∷ d ∷ []) (codes "and") ≡ true
      → s'.clauses ≡ s.clauses ++ s.clause ∷ []
      → pending s' rest ≡ next
      → Round s ch rest s'

matches-and :
    (before a : ℕ) (rest : Bytes)
    → matches_top_level_and_at before (a ∷ rest) ≡ true
    → (n : ℕ) × (d : ℕ) × (next : Bytes) × (rest ≡ n ∷ d ∷ next)
      × (equal_fold (a ∷ n ∷ d ∷ []) (codes "and") ≡ true)
unfolding matches_top_level_and_at
matches-and before a [] e = cc
matches-and before a (n ∷ []) e = cc
matches-and before a (n ∷ d ∷ next) e = (
  n,
  d,
  next,
  refl,
  elim (Bool-cases (equal_fold (a ∷ n ∷ d ∷ []) (codes "and"))) [
    | inl h ↦ h
    | inr h ↦ absurd (cc (rw (h, matches_top_level_and_at) at e))
  ],
)

drop_pos : (k ch : ℕ) (rest : Bytes) → ltb 0 k ≡ true → drop (k - 1) rest ≡ drop k (ch ∷ rest)
drop_pos zero ch rest h = cc
drop_pos (suc k) ch rest h = ap (λ n. drop n rest) (omega arith)

drop_push :
    (k ch : ℕ) (clause rest : Bytes)
    → ltb 0 k ≡ false
    → (clause ++ ch ∷ []) ++ drop k rest ≡ clause ++ drop k (ch ∷ rest)
drop_push zero ch clause rest h = append_assoc clause (ch ∷ []) rest
drop_push (suc k) ch clause rest h = absurd (ground arith)

-- A quote in front of a quote: both are taken over, and one is passed over next.
drop_pair :
    (k ch : ℕ) (clause rest : Bytes)
    → ltb 0 k ≡ false
    → quote_next rest ≡ true
    → (clause ++ ch ∷ b'\'' ∷ []) ++ drop 1 rest ≡ clause ++ drop k (ch ∷ rest)
drop_pair k ch clause [] h q = cc
drop_pair zero ch clause (c ∷ rest) h q =
    append_assoc clause (ch ∷ b'\'' ∷ []) rest ∙ ap (λ b. clause ++ ch ∷ b ∷ rest) (ground arith)
drop_pair (suc k) ch clause (c ∷ rest) h q = absurd (ground arith)

skip_zero : (k : ℕ) → ltb 0 k ≡ false → k ≡ 0
skip_zero k h = ground arith

and_right : (a b : Bool) → (a && b) ≡ true → b ≡ true
and_right a b h = ground arith

abbrev cut_at : Scan → ℕ → Scan
cut_at s ch = record s { clauses = s.clauses ++ s.clause ∷ []; clause = []; before = ch; skip = 2 }

cut_at-Round :
    (s : Scan) (ch : ℕ) (rest : Bytes)
    → ltb 0 s.skip ≡ false
    → matches_top_level_and_at s.before (ch ∷ rest) ≡ true
    → Round s ch rest (cut_at s ch)
cut_at-Round s ch rest h m =
    let (n, d, next, e, w) = matches-and s.before ch rest m in
    cuts (skip_zero s.skip h) e w refl (ap (drop 2) e)

scan_step-Round : (s : Scan) (ch : ℕ) (rest : Bytes) → Round s ch rest (scan_step s ch rest)
unfolding scan_step
scan_step-Round s ch rest =
    if_elim (Round s ch rest) (ltb 0 s.skip)
      (λ h. keeps refl (ap (λ t. s.clause ++ t) (drop_pos s.skip ch rest h)))
      (λ h.
        let pushed = drop_push s.skip ch s.clause rest h in
        if_elim (Round s ch rest) (ch == b'\'')
          (λ _.
            if_elim (Round s ch rest) (s.in_string && quote_next rest)
              (λ q. keeps refl (drop_pair s.skip ch s.clause rest h (and_right s.in_string _ q)))
              (λ _. keeps refl pushed))
          (λ _.
            if_elim (Round s ch rest) s.in_string (λ _. keeps refl pushed)
              (λ _.
                if_elim (Round s ch rest) (ch == b'(') (λ _. keeps refl pushed)
                  (λ _.
                    if_elim (Round s ch rest) (ch == b')')
                      (λ _.
                        if_elim (Round s ch rest) (ltb 0 s.depth) (λ _. keeps refl pushed)
                          (λ _. keeps refl pushed))
                      (λ _.
                        if_elim (Round s ch rest)
                          (s.depth == 0 && matches_top_level_and_at s.before (ch ∷ rest))
                          (λ m. cut_at-Round s ch rest h (and_right (s.depth == 0) _ m))
                          (λ _. keeps refl pushed))))))

-- What the whole scan adds to the clauses that it had.
abbrev Adds : Scan → Bytes → Type 0
Adds s text =
    (pieces : List Bytes) × ((scan s text).clauses ++ (scan s text).clause ∷ []
      ≡ s.clauses ++ pieces)
    × Cuts pieces (pending s text)

drop_zero : (k : ℕ) (xs : Bytes) → k ≡ 0 → xs ≡ drop k xs
drop_zero zero xs e = refl
drop_zero (suc k) xs e = absurd (omega arith)

drop_nil : (k : ℕ) → drop {A = ℕ} k [] ≡ []
drop_nil zero = refl
drop_nil (suc k) = refl

Adds-Round :
    (s s' : Scan) (ch : ℕ) (rest : Bytes)
    → scan s (ch ∷ rest) ≡ scan s' rest
    → Round s ch rest s'
    → Adds s' rest
    → Adds s (ch ∷ rest)
Adds-Round s s' ch rest e (keeps c p) (pieces, same, k) =
    (pieces, rw e (same ∙ ap (λ cs. cs ++ pieces) c), subst (Cuts pieces) p k)
Adds-Round s s' ch rest e (cuts {n} {d} {next} z r w c p) (pieces, same, k) = (
  s.clause ∷ pieces,
  rw e (same ∙ ap (λ cs. cs ++ pieces) c ∙ append_assoc s.clauses (s.clause ∷ []) pieces),
  subst (λ t. Cuts (s.clause ∷ pieces) (s.clause ++ t))
      (sym (ap (◌∷◌ ch) r) ∙ drop_zero s.skip (ch ∷ rest) z)
      (cut (ch ∷ n ∷ d ∷ []) w (subst (Cuts pieces) p k)),
)

scan-Adds : (text : Bytes) (s : Scan) → Adds s text
unfolding scan
scan-Adds [] s = (
  s.clause ∷ [],
  refl,
  subst (Cuts (s.clause ∷ []))
      (sym (ap (λ t. s.clause ++ t) (drop_nil s.skip) ∙ append-nil s.clause)) whole,
)
scan-Adds (ch ∷ rest) s =
    Adds-Round s (scan_step s ch rest) ch rest refl (scan_step-Round s ch rest)
      (scan-Adds rest (scan_step s ch rest))

-- The clauses of a text, with an `and` between each and the next, are the text again: splitting
-- drops no byte, adds none, and moves none from one clause to another.
pub split-Cuts : (filter : Bytes) → Cuts (split_top_level_and_clauses filter) filter
unfolding split_top_level_and_clauses
split-Cuts filter = let (pieces, same, k) = scan-Adds filter scan_start in rw same k
