-- ===== src/Odata/Split/Moves.antt =====
-- Texts that `splitTopLevelAndClauses` (internal/odata/parse.go) takes over whole into the open
-- clause.
use Prim.Native.Nat.add
use ileap_go.Common.{
  ℕ, zero, suc, ◌+◌, Bool, true, false, ◌&&◌, List, [], ◌∷◌, ◌++◌, ◌≡◌, ap, ap₂, ◌∙◌, arith, ◌==◌,
  Bool-cases, inl, inr, All, Bytes, append_assoc, append-nil, replicate,
}
use ileap_go.Odata.Quote.{escape}
use ileap_go.Odata.Split.{is_separator, matches_top_level_and_at, quote_next, scan}
use ileap_go.Odata.Split.Steps.{
  at, IsPlain, IsWord, IsCalm, word-IsPlain, matches_inside, matches_calm, scan_step-plain,
  scan_step-open, scan_step-close, scan_step-quote, scan_step-unquote, scan_step-in_string,
  scan-doubled,
}

-- A text that the scan takes over whole into the open clause, with what follows it.
pub record Moves (before depth depth' : ℕ) (x rest : Bytes) : Type 0 where
  pub moves :
      (cs : List Bytes) (clause : Bytes)
      → (b : ℕ) × (scan (at cs clause before depth false) (x ++ rest)
          ≡ scan (at cs (clause ++ x) b depth' false) rest)

pub Moves-nil : (before depth : ℕ) (rest : Bytes) → Moves before depth depth [] rest
Moves-nil before depth rest = record { moves = λ cs clause. (before, rw append-nil) }

-- One text after another.
pub Moves-then :
    {before depth depth₁ depth₂ : ℕ} {x y rest : Bytes}
    → Moves before depth depth₁ x (y ++ rest)
    → ((b : ℕ) → Moves b depth₁ depth₂ y rest)
    → Moves before depth depth₂ (x ++ y) rest
Moves-then {depth₂ = depth₂} {x = x} {y = y} {rest = rest} f g = record {
  moves = λ cs clause.
      let (b, e) = f.moves cs clause in
      let (b', e') = (g b).moves cs (clause ++ x) in
      (
        b',
        ap (scan _) (append_assoc x y rest)
            ∙ e
            ∙ e'
            ∙ ap (λ t. scan (at cs t b' depth₂ false) rest) (append_assoc clause x y),
      );
}

-- A conjunction whose second member fails.
pub no_match : (a b : Bool) → b ≡ false → (a && b) ≡ false
no_match a b h = ground arith

-- One plain byte where no `and` begins, and what is taken over behind it.
Moves-byte :
    {before depth depth' c : ℕ} {x rest : Bytes}
    → IsPlain c
    → (depth == 0 && matches_top_level_and_at before (c ∷ (x ++ rest))) ≡ false
    → Moves c depth depth' x rest
    → Moves before depth depth' (c ∷ x) rest
unfolding scan
Moves-byte {before} {depth} {depth'} {c} {x} {rest} p h m = record {
  moves = λ cs clause.
      let (b, e) = m.moves cs (clause ++ c ∷ []) in
      (
        b,
        ap (λ s. scan s (x ++ rest)) (scan_step-plain cs clause before depth c (x ++ rest) p h)
            ∙ e
            ∙ ap (λ t. scan (at cs t b depth' false) rest) (append_assoc clause (c ∷ []) x),
      );
}

-- The rest of a word: no byte of it follows a separator.
pub Moves-word :
    (x : Bytes) (before depth : ℕ) (rest : Bytes)
    → All IsWord x
    → is_separator before ≡ false
    → Moves before depth depth x rest
Moves-word [] before depth rest h s = Moves-nil before depth rest
Moves-word (c ∷ x) before depth rest (w, h) s =
    Moves-byte (word-IsPlain c w)
      (no_match (depth == 0) _ (matches_inside before (c ∷ x ++ rest) s))
      (Moves-word x c depth rest h w.0)

-- A word, behind any byte, if no `and` begins there or it stands in parentheses.
pub Moves-head :
    (c : ℕ) (x : Bytes) (before depth : ℕ) (rest : Bytes)
    → All IsWord (c ∷ x)
    → (depth == 0 && matches_top_level_and_at before (c ∷ (x ++ rest))) ≡ false
    → Moves before depth depth (c ∷ x) rest
Moves-head c x before depth rest (w, h) m =
    Moves-byte (word-IsPlain c w) m (Moves-word x c depth rest h w.0)

pub Moves-calm :
    (x : Bytes) (before depth : ℕ) (rest : Bytes) → All IsCalm x → Moves before depth depth x rest
Moves-calm [] before depth rest h = Moves-nil before depth rest
Moves-calm (c ∷ x) before depth rest (w, h) =
    Moves-byte w.0 (no_match (depth == 0) _ (matches_calm before c (x ++ rest) w.1))
      (Moves-calm x c depth rest h)

-- Opening and closing parentheses.
pub Moves-open :
    (n before depth : ℕ) (rest : Bytes) → Moves before depth (n + depth) (replicate n b'(') rest
unfolding scan
Moves-open zero before depth rest = rw add.zero (Moves-nil before depth rest)
Moves-open (suc n) before depth rest = record {
  moves = λ cs clause.
      let (b, e) = (Moves-open n b'(' (depth + 1) rest).moves cs (clause ++ b'(' ∷ []) in
      (
        b,
        ap (λ s. scan s (replicate n b'(' ++ rest)) (scan_step-open cs clause before depth _)
            ∙ e
            ∙ ap₂ (λ t d. scan (at cs t b d false) rest)
                (append_assoc clause (b'(' ∷ []) (replicate n b'(')) (omega arith),
      );
}

pub Moves-close :
    (n before depth : ℕ) (rest : Bytes) → Moves before (n + depth) depth (replicate n b')') rest
unfolding scan
Moves-close zero before depth rest = rw add.zero (Moves-nil before depth rest)
Moves-close (suc n) before depth rest = rw add.suc (record {
  moves = λ cs clause.
      let (b, e) = (Moves-close n b')' depth rest).moves cs (clause ++ b')' ∷ []) in
      (
        b,
        ap (λ s. scan s (replicate n b')' ++ rest)) (scan_step-close cs clause before (n + depth) _)
            ∙ e
            ∙ ap (λ t. scan (at cs t b depth false) rest)
                (append_assoc clause (b')' ∷ []) (replicate n b')')),
      );
})

-- Inside a literal, up to its closing quote.
scan-escape :
    (v : Bytes) (cs : List Bytes) (clause : Bytes) (before depth : ℕ) (rest : Bytes)
    → quote_next rest ≡ false
    → scan (at cs clause before depth true) (escape v ++ b'\'' ∷ rest)
      ≡ scan (at cs (clause ++ (escape v ++ b'\'' ∷ [])) b'\'' depth false) rest
unfolding scan
scan-escape [] cs clause before depth rest h =
    ap (λ s. scan s rest) (scan_step-unquote cs clause before depth rest h)
scan-escape (c ∷ v) cs clause before depth rest h = elim (Bool-cases (c == b'\'')) [
  | inl e ↦ rw e (
      scan-doubled cs clause before depth (escape v ++ b'\'' ∷ rest)
      ∙ scan-escape v cs (clause ++ b'\'' ∷ b'\'' ∷ []) b'\'' depth rest h
      ∙ ap (λ t. scan (at cs t b'\'' depth false) rest)
          (append_assoc clause (b'\'' ∷ b'\'' ∷ []) _))
  | inr e ↦ rw e (
      ap (λ s. scan s (escape v ++ b'\'' ∷ rest)) (scan_step-in_string cs clause before depth c _ e)
      ∙ scan-escape v cs (clause ++ c ∷ []) c depth rest h
      ∙ ap (λ t. scan (at cs t b'\'' depth false) rest) (append_assoc clause (c ∷ []) _))
]

-- A string literal, if no quote follows it.
pub Moves-literal :
    (v : Bytes) (before depth : ℕ) (rest : Bytes)
    → quote_next rest ≡ false
    → Moves before depth depth (b'\'' ∷ (escape v ++ b'\'' ∷ [])) rest
unfolding scan
Moves-literal v before depth rest h = record {
  moves = λ cs clause. (
    b'\'',
    ap₂ scan (scan_step-quote cs clause before depth _) (append_assoc (escape v) (b'\'' ∷ []) rest)
        ∙ scan-escape v cs (clause ++ b'\'' ∷ []) b'\'' depth rest h
        ∙ ap (λ t. scan (at cs t b'\'' depth false) rest) (append_assoc clause (b'\'' ∷ []) _),
  );
}
