-- ===== src/Odata/Clause/Scanned.antt =====
-- The splitter takes a clause's text over whole (internal/odata/parse.go, `splitTopLevelAndClauses`).
use ileap_go.Common.{
  ℕ, zero, suc, ◌+◌, true, false, not, List, [], ◌∷◌, ◌++◌, ◌≡◌, refl, arith, ◌==◌, if_elim, All,
  All-append, Bytes, codes, fold, equal_fold, replicate, subst,
}
use ileap_go.Filter.{Operator, unspecified, eq, ne, lt, le, gt, ge}
use ileap_go.Odata.Lexer.{is_ident_start, is_ident_part}
use ileap_go.Odata.Split.{is_separator, matches_top_level_and_at, quote_next}
use ileap_go.Odata.Split.Steps.{IsWord, IsCalm}
use ileap_go.Odata.Split.Moves.{
  Moves, Moves-then, Moves-head, Moves-calm, Moves-open, Moves-close, Moves-literal, Moves-nil,
  no_match,
}
use ileap_go.Odata.Clause.{
  Target, field, any_of, Clause, segments_text, path_text, operator_text, comparison_text,
  body_text, clause_text, IsIdent, IsTarget, IsClause,
}

-- A byte behind which `and` cannot go on.
abbrev IsEnd : ℕ → Type 0
IsEnd c = ((fold c == b'n') ≡ false) × ((fold c == b'd') ≡ false)

-- A word other than `and` is not taken for one.
matches_other :
    (c : ℕ) (x : Bytes) (before r : ℕ) (rest : Bytes)
    → All IsWord (c ∷ x)
    → equal_fold (c ∷ x) (codes "and") ≡ false
    → IsEnd r
    → matches_top_level_and_at before (c ∷ (x ++ r ∷ rest)) ≡ false
unfolding matches_top_level_and_at equal_fold
matches_other c [] before r [] h e k = refl
matches_other c [] before r (s ∷ rest) h e k = ground arith
matches_other c (d ∷ []) before r rest h e k = ground arith
matches_other c (d ∷ f ∷ []) before r rest h e k = rw (e, matches_top_level_and_at, equal_fold) refl
matches_other c (d ∷ f ∷ g ∷ x) before r rest (_, (_, (_, (w, _)))) e k =
    if_elim (λ m. m ≡ false) (not (equal_fold (c ∷ d ∷ f ∷ []) (codes "and"))) (λ _. refl)
      (λ _. no_match (is_separator before) (is_separator g) w.0)

ident-IsWord : (c : ℕ) → is_ident_part c ≡ true → IsWord c
unfolding is_ident_part is_separator
ident-IsWord c h = ground arith

start-IsWord : (c : ℕ) → is_ident_start c ≡ true → IsWord c
unfolding is_ident_start is_separator
start-IsWord c h = ground arith

part-IsWord : (x : Bytes) → All (λ d. is_ident_part d ≡ true) x → All IsWord x
part-IsWord [] h = tt
part-IsWord (c ∷ x) (p, h) = (ident-IsWord c p, part-IsWord x h)

ident_IsWord : (x : Bytes) → IsIdent x → All IsWord x
ident_IsWord [] h = absurd h
ident_IsWord (c ∷ x) (p, h) = (start-IsWord c p, part-IsWord x h)

segments_IsWord : (xs : List Bytes) → All IsIdent xs → All IsWord (segments_text xs)
unfolding is_separator
segments_IsWord [] h = tt
segments_IsWord (x ∷ xs) (p, h) =
    ((refl, refl), All-append IsWord x (segments_text xs) (ident_IsWord x p) (segments_IsWord xs h))

path_IsWord :
    (first : Bytes) (more : List Bytes)
    → IsIdent first
    → All IsIdent more
    → All IsWord (path_text first more)
path_IsWord first more p h =
    All-append IsWord first (segments_text more) (ident_IsWord first p) (segments_IsWord more h)

operator_text-IsCalm : (o : Operator) → All IsCalm (operator_text o)
operator_text-IsCalm unspecified = tt
operator_text-IsCalm eq = (((refl, refl, refl), refl), (((refl, refl, refl), refl), tt))
operator_text-IsCalm ne = (((refl, refl, refl), refl), (((refl, refl, refl), refl), tt))
operator_text-IsCalm lt = (((refl, refl, refl), refl), (((refl, refl, refl), refl), tt))
operator_text-IsCalm le = (((refl, refl, refl), refl), (((refl, refl, refl), refl), tt))
operator_text-IsCalm gt = (((refl, refl, refl), refl), (((refl, refl, refl), refl), tt))
operator_text-IsCalm ge = (((refl, refl, refl), refl), (((refl, refl, refl), refl), tt))

Moves-comparison :
    (o : Operator) (v : Bytes) (before depth : ℕ) (rest : Bytes)
    → quote_next rest ≡ false
    → Moves before depth depth (comparison_text o v) rest
Moves-comparison o v before depth rest q =
    Moves-then
      (Moves-calm (b' ' ∷ operator_text o) before depth _
        (((refl, refl, refl), refl), operator_text-IsCalm o))
      (λ b.
        Moves-then (Moves-calm (b' ' ∷ []) b depth _ (((refl, refl, refl), refl), tt))
          (λ b'. Moves-literal v b' depth rest q))

-- A word that ends in `/any` is not the word `and`.
any_word : (c : ℕ) (x : Bytes) → equal_fold (c ∷ (x ++ codes "/any")) (codes "and") ≡ false
unfolding equal_fold
any_word c [] = ground arith
any_word c (d ∷ []) = ground arith
any_word c (d ∷ e ∷ []) = ground arith
any_word c (d ∷ e ∷ f ∷ x) = ground arith

any_IsWord : (x : Bytes) → All IsWord x → All IsWord (x ++ codes "/any")
unfolding is_separator
any_IsWord x h =
    All-append IsWord x (codes "/any") h
      ((refl, refl), ((refl, refl), ((refl, refl), ((refl, refl), tt))))

-- A word other than `and`, in front of a byte that ends it.
Moves-name :
    (c : ℕ) (x : Bytes) (before depth r : ℕ) (rest : Bytes)
    → All IsWord (c ∷ x)
    → equal_fold (c ∷ x) (codes "and") ≡ false
    → IsEnd r
    → Moves before depth depth (c ∷ x) (r ∷ rest)
Moves-name c x before depth r rest h e k =
    Moves-head c x before depth (r ∷ rest) h
      (no_match (depth == 0) _ (matches_other c x before r rest h e k))

-- Any word, inside parentheses.
Moves-inside :
    (x : Bytes) (before depth : ℕ) (rest : Bytes)
    → All IsWord x
    → Moves before (suc depth) (suc depth) x rest
Moves-inside [] before depth rest h = Moves-nil before (suc depth) rest
Moves-inside (c ∷ x) before depth rest h = Moves-head c x before (suc depth) rest h (ground arith)

Moves-field :
    (first : Bytes) (more : List Bytes) (before depth r : ℕ) (rest : Bytes)
    → IsIdent first
    → All IsIdent more
    → equal_fold (path_text first more) (codes "and") ≡ false
    → IsEnd r
    → Moves before depth depth (path_text first more) (r ∷ rest)
Moves-field [] more before depth r rest p h e k = absurd p
Moves-field (c ∷ x) more before depth r rest p h e k =
    Moves-name c (x ++ segments_text more) before depth r rest (path_IsWord (c ∷ x) more p h) e k

Moves-collection :
    (first : Bytes) (more : List Bytes) (before depth r : ℕ) (rest : Bytes)
    → IsIdent first
    → All IsIdent more
    → IsEnd r
    → Moves before depth depth (path_text first more ++ codes "/any") (r ∷ rest)
Moves-collection [] more before depth r rest p h k = absurd p
Moves-collection (c ∷ x) more before depth r rest p h k =
    Moves-name c ((x ++ segments_text more) ++ codes "/any") before depth r rest
      (any_IsWord (c ∷ (x ++ segments_text more)) (path_IsWord (c ∷ x) more p h))
      (any_word c (x ++ segments_text more)) k

Moves-open_one : (before depth : ℕ) (rest : Bytes) → Moves before depth (suc depth) (b'(' ∷ []) rest
Moves-open_one before depth rest =
    subst (λ n. Moves before depth n (b'(' ∷ []) rest) (omega arith)
      (Moves-open 1 before depth rest)

Moves-close_two :
    (before depth : ℕ) (rest : Bytes) → Moves before (suc (suc depth)) depth (replicate 2 b')') rest
Moves-close_two before depth rest =
    subst (λ n. Moves before n depth (replicate 2 b')') rest) (omega arith)
      (Moves-close 2 before depth rest)

Moves-body :
    (t : Target) (o : Operator) (v : Bytes) (before depth : ℕ) (rest : Bytes)
    → IsTarget t
    → quote_next rest ≡ false
    → Moves before depth depth (body_text t o v) rest
Moves-body (field first more) o v before depth rest (p, h, e) q =
    Moves-then (Moves-field first more before depth b' ' _ p h e (refl, refl))
      (λ b. Moves-comparison o v b depth rest q)
Moves-body (any_of first more alias inner) o v before depth rest (p, h, _, a, i) q =
    Moves-then (Moves-collection first more before depth b'(' _ p h (refl, refl)) (λ b.
      Moves-then (Moves-open_one b depth _) (λ b.
        Moves-then (Moves-inside alias b depth _ (ident_IsWord alias a)) (λ b.
          Moves-then (Moves-calm (b':' ∷ []) b (suc depth) _ (((refl, refl, refl), refl), tt)) (λ b.
            Moves-then (Moves-open_one b (suc depth) _) (λ b.
              Moves-then
                (Moves-inside (path_text alias inner) b (suc depth) _ (path_IsWord alias inner a i))
                (λ b.
                  Moves-then (Moves-comparison o v b (suc (suc depth)) _ refl)
                    (λ b. Moves-close_two b depth rest)))))))

quote_next-close :
    (n : ℕ) (rest : Bytes) → quote_next rest ≡ false → quote_next (replicate n b')' ++ rest) ≡ false
quote_next-close zero rest q = q
quote_next-close (suc n) rest q = refl

-- The scan takes the text of a clause over whole, and is outside parentheses behind it.
pub Moves-clause :
    (c : Clause) (before : ℕ) (rest : Bytes)
    → IsClause c
    → quote_next rest ≡ false
    → Moves before 0 0 (clause_text c) rest
Moves-clause c before rest h q = Moves-then (Moves-open c.parens before 0 _) (λ b.
    Moves-then
      (Moves-body c.target c.operator c.value b (c.parens + 0) _ h.target
        (quote_next-close c.parens rest q))
      (λ b'. Moves-close c.parens b' 0 rest))
