-- ===== src/Odata/Parser/NoOpen.antt =====
-- The parser of internal/odata/parse.go on tokens without an opening parenthesis: `parseAnyEq` fails.
use ileap_go.Common.{
  Bool, true, false, not, ◌&&◌, ◌||◌, List, [], ◌∷◌, ◌++◌, ◌≡◌, refl, Option, none, some, if_elim,
  All, Bytes, codes, equal_fold,
}
use ileap_go.Odata.Lexer.{TokenKind, ident, slash, dot, l_paren, Token}
use ileap_go.Odata.Parser.{
  Tokens, Parser, same_kind, peek, advance, match_kind, match_keyword, match_ident, path_loop,
  stops_before_any, parse_path, parse_any_eq, ◌>>=◌, ◌>>◌,
}

-- Tokens with no opening parenthesis among them, and a result that leaves such.
abbrev pub NoOpen : Tokens → Type 0
NoOpen ts = All (λ t. same_kind t.kind l_paren ≡ false) ts

data Leaves {A : Type 0} : Option (A × Tokens) → Type 0 where
  fails : Leaves none
  leaves : (a : A) (rest : Tokens) → NoOpen rest → Leaves (some (a, rest))

advance-NoOpen : (ts : Tokens) → NoOpen ts → NoOpen (advance ts)
advance-NoOpen [] h = h
advance-NoOpen (t ∷ ts) h = h.1

-- The path ends in front of this token.
abbrev ends : Token → Bool
ends next = not (same_kind next.kind slash) && not (same_kind next.kind dot)

path_loop-Leaves :
    (stop : Bool) (segments : List Bytes) (ts : Tokens)
    → NoOpen ts
    → Leaves (path_loop stop segments ts)
unfolding path_loop
path_loop-Leaves stop segments [] h = leaves segments [] tt
path_loop-Leaves stop segments (next ∷ []) h =
    if_elim Leaves (ends next) (λ _. leaves segments (next ∷ []) h) (λ _. fails)
path_loop-Leaves stop segments (next ∷ part ∷ after) (p, (q, h)) =
    let here = leaves segments (next ∷ part ∷ after) (p, (q, h)) in
    if_elim Leaves (ends next) (λ _. here)
      (λ _.
        if_elim Leaves (stops_before_any stop next (part ∷ after)) (λ _. here)
          (λ _.
            if_elim Leaves (not (same_kind part.kind ident)) (λ _. fails)
              (λ _. path_loop-Leaves stop (segments ++ part.text ∷ []) after h)))

bind-none :
    {A B : Type 0} (r : Option (A × Tokens)) (f : A → Parser B)
    → Leaves r
    → ((a : A) (rest : Tokens) → NoOpen rest → f a rest ≡ none)
    → elim r [ none ↦ none | some (a, rest) ↦ f a rest ] ≡ none
bind-none r f fails k = refl
bind-none r f (leaves a rest h) k = k a rest h

bind-Leaves :
    {A B : Type 0} (r : Option (A × Tokens)) (f : A → Parser B)
    → Leaves r
    → ((a : A) (rest : Tokens) → NoOpen rest → Leaves (f a rest))
    → Leaves (elim r [ none ↦ none | some (a, rest) ↦ f a rest ])
bind-Leaves r f fails k = fails
bind-Leaves r f (leaves a rest h) k = k a rest h

match_ident-Leaves : (ts : Tokens) → NoOpen ts → Leaves (match_ident ts)
unfolding match_ident
match_ident-Leaves ts h =
    if_elim Leaves (not (same_kind (peek ts).kind ident)) (λ _. fails)
      (λ _. leaves (peek ts) (advance ts) (advance-NoOpen ts h))

match_kind-Leaves : (k : TokenKind) (ts : Tokens) → NoOpen ts → Leaves (match_kind k ts)
unfolding match_kind
match_kind-Leaves k ts h =
    if_elim Leaves (not (same_kind (peek ts).kind k)) (λ _. fails)
      (λ _. leaves tt (advance ts) (advance-NoOpen ts h))

match_keyword-Leaves : (w : Bytes) (ts : Tokens) → NoOpen ts → Leaves (match_keyword w ts)
unfolding match_keyword
match_keyword-Leaves w ts h =
    if_elim Leaves (not (same_kind (peek ts).kind ident) || not (equal_fold (peek ts).text w))
      (λ _. fails) (λ _. leaves tt (advance ts) (advance-NoOpen ts h))

parse_path-Leaves : (stop : Bool) (ts : Tokens) → NoOpen ts → Leaves (parse_path stop ts)
unfolding parse_path
parse_path-Leaves stop ts h =
    bind-Leaves (match_ident ts) _ (match_ident-Leaves ts h)
      (λ first rest k. path_loop-Leaves stop (first.text ∷ []) rest k)

match_kind-NoOpen : (ts : Tokens) → NoOpen ts → match_kind l_paren ts ≡ none
unfolding match_kind
match_kind-NoOpen [] h = refl
match_kind-NoOpen (t ∷ ts) (p, h) = rw (p, match_kind)

-- Without a parenthesis there is no `any`.
pub parse_any_eq-NoOpen : (ts : Tokens) → NoOpen ts → parse_any_eq ts ≡ none
unfolding parse_any_eq
parse_any_eq-NoOpen ts h =
    bind-none (parse_path true ts) _ (parse_path-Leaves true ts h) (λ path ts₁ h₁.
      bind-none (match_kind slash ts₁) _ (match_kind-Leaves slash ts₁ h₁) (λ _ ts₂ h₂.
        bind-none (match_keyword (codes "any") ts₂) _ (match_keyword-Leaves (codes "any") ts₂ h₂)
          (λ _ ts₃ h₃. rw (match_kind-NoOpen ts₃ h₃, ◌>>◌, ◌>>=◌) refl)))
