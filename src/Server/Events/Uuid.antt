-- ===== src/Server/Events/Uuid.antt =====
-- server.go, `uuidRegexp`: the texts that it matches.
use ileap_go.Common.{
  ℕ, zero, suc, Bool, true, ◌&&◌, List, [], ◌∷◌, ◌++◌, ◌≡◌, refl, ap, subst, append-nil, leb, ◌==◌,
  ◌||◌, ◌∙◌, ◌↔◌, ◌⊎◌, inl, inr, Bool-cases, All, Bytes, length, replicate, arith, ◌≤◌,
}
use ileap_go.Server.Token.{is_hex}
use ileap_go.Server.Events.{match_string, uuid_pattern}

-- A hexadecimal digit.
abbrev pub IsHex : ℕ → Type 0
IsHex c = ((b'0' ≤ c) × (c ≤ b'9')) ⊎ ((b'a' ≤ c) × (c ≤ b'f')) ⊎ ((b'A' ≤ c) × (c ≤ b'F'))

is_hex_iff : (c : ℕ) → (is_hex c ≡ true) ↔ IsHex c
unfolding is_hex
is_hex_iff c = ground arith

-- So many hexadecimal digits.
abbrev pub IsGroup : ℕ → Bytes → Type 0
IsGroup n x = (length x ≡ n) × All IsHex x

-- The groups of a UUID, with the digits of its version and its variant.
pub record IsUuid (id : Bytes) : Type 0 where
  pub a : Bytes
  pub b : Bytes
  pub c : Bytes
  pub d : Bytes
  pub e : Bytes
  pub version : ℕ
  pub variant : ℕ
  pub text : id ≡ a ++ b'-' ∷ (b ++ b'-' ∷ version ∷ (c ++ b'-' ∷ variant ∷ (d ++ b'-' ∷ e)))
  pub groups : IsGroup 8 a × IsGroup 4 b × IsGroup 3 c × IsGroup 3 d × IsGroup 12 e
  pub has_version : (b'1' ≤ version) × (version ≤ b'5')
  pub has_variant :
      (variant ≡ b'8')
      ⊎ (variant ≡ b'9')
      ⊎ (variant ≡ b'a')
      ⊎ (variant ≡ b'b')
      ⊎ (variant ≡ b'A')
      ⊎ (variant ≡ b'B')

match_cons :
    (test : ℕ → Bool) (tests : List (ℕ → Bool)) (s : Bytes)
    → match_string (test ∷ tests) s ≡ true
    → (c : ℕ) × (cs : Bytes) × (s ≡ c ∷ cs) × (test c ≡ true) × (match_string tests cs ≡ true)
unfolding match_string
match_cons test tests [] e = absurd (cc e)
match_cons test tests (c ∷ cs) e = elim (Bool-cases (test c)) [
  | inl b ↦ (c, cs, refl, b, rw b at e)
  | inr b ↦ absurd (cc (rw b at e))
]

match-IsGroup :
    (n : ℕ) (tests : List (ℕ → Bool)) (s : Bytes)
    → match_string (replicate n is_hex ++ tests) s ≡ true
    → (x : Bytes) × (y : Bytes) × (s ≡ x ++ y) × IsGroup n x × (match_string tests y ≡ true)
match-IsGroup zero tests s e = ([], s, refl, (refl, tt), e)
match-IsGroup (suc n) tests s e =
    let (c, cs, f, h, m) = match_cons is_hex (replicate n is_hex ++ tests) s e in
    let (x, y, g, (l, hs), k) = match-IsGroup n tests cs m in
    (c ∷ x, y, f ∙ ap (λ t. c ∷ t) g, (ap suc l, ((is_hex_iff c).0 h, hs)), k)

match_end : (s : Bytes) → match_string [] s ≡ true → s ≡ []
unfolding match_string
match_end [] e = refl
match_end (c ∷ s) e = absurd (cc e)

abbrev is_dash : ℕ → Bool
is_dash c = c == b'-'

abbrev is_version : ℕ → Bool
is_version c = leb b'1' c && leb c b'5'

abbrev is_variant : ℕ → Bool
is_variant c = c == b'8' || c == b'9' || c == b'a' || c == b'b' || c == b'A' || c == b'B'

-- The pattern from the last, the fourth and the third group on.
abbrev from_last : List (ℕ → Bool)
from_last = is_dash ∷ (replicate 12 is_hex ++ [])

abbrev from_variant : List (ℕ → Bool)
from_variant = is_dash ∷ is_variant ∷ (replicate 3 is_hex ++ from_last)

abbrev from_version : List (ℕ → Bool)
from_version = is_dash ∷ is_version ∷ (replicate 3 is_hex ++ from_variant)

is_dash_lem : (c : ℕ) → is_dash c ≡ true → c ≡ b'-'
is_dash_lem c h = ground arith

is_version_lem : (v : ℕ) → is_version v ≡ true → (b'1' ≤ v) × (v ≤ b'5')
is_version_lem v h = ground arith

is_variant_lem :
    (w : ℕ)
    → is_variant w ≡ true
    → (w ≡ b'8') ⊎ (w ≡ b'9') ⊎ (w ≡ b'a') ⊎ (w ≡ b'b') ⊎ (w ≡ b'A') ⊎ (w ≡ b'B')
is_variant_lem w h = ground arith

match_dash :
    (tests : List (ℕ → Bool)) (s : Bytes)
    → match_string (is_dash ∷ tests) s ≡ true
    → (cs : Bytes) × (s ≡ b'-' ∷ cs) × (match_string tests cs ≡ true)
match_dash tests s m =
    let (c, cs, e, h, k) = match_cons is_dash tests s m in
    (cs, e ∙ ap (λ x. x ∷ cs) (is_dash_lem c h), k)

match_string-IsUuid : (id : Bytes) → match_string uuid_pattern id ≡ true → IsUuid id
match_string-IsUuid id m =
    let (a, s₁, e₁, ga, m₁) =
      match-IsGroup 8 (is_dash ∷ (replicate 4 is_hex ++ from_version)) id m in
    let (s₂, e₂, m₂) = match_dash (replicate 4 is_hex ++ from_version) s₁ m₁ in
    let (b, s₃, e₃, gb, m₃) = match-IsGroup 4 from_version s₂ m₂ in
    let (s₄, e₄, m₄) = match_dash _ s₃ m₃ in
    let (v, s₅, e₅, hv, m₅) = match_cons is_version (replicate 3 is_hex ++ from_variant) s₄ m₄ in
    let (c, s₆, e₆, gc, m₆) = match-IsGroup 3 from_variant s₅ m₅ in
    let (s₇, e₇, m₇) = match_dash _ s₆ m₆ in
    let (w, s₈, e₈, hw, m₈) = match_cons is_variant (replicate 3 is_hex ++ from_last) s₇ m₇ in
    let (d, s₉, e₉, gd, m₉) = match-IsGroup 3 from_last s₈ m₈ in
    let (t₁, f₁, n₁) = match_dash (replicate 12 is_hex ++ []) s₉ m₉ in
    let (e, t₂, f₂, ge, n₂) = match-IsGroup 12 [] t₁ n₁ in
    let last : t₁ ≡ e = f₂ ∙ ap (λ t. e ++ t) (match_end t₂ n₂) ∙ append-nil e in
    let ends : s₇ ≡ w ∷ (d ++ b'-' ∷ e) =
      e₈ ∙ ap (λ t. w ∷ t) (e₉ ∙ ap (λ t. d ++ t) (f₁ ∙ ap (λ t. b'-' ∷ t) last)) in
    let middle : s₄ ≡ v ∷ (c ++ b'-' ∷ w ∷ (d ++ b'-' ∷ e)) =
      e₅ ∙ ap (λ t. v ∷ t) (e₆ ∙ ap (λ t. c ++ t) (e₇ ∙ ap (λ t. b'-' ∷ t) ends)) in
    record {
      a = a;
      b = b;
      c = c;
      d = d;
      e = e;
      version = v;
      variant = w;
      text =
          e₁
          ∙ ap (λ t. a ++ t)
              (e₂ ∙ ap (λ t. b'-' ∷ t) (e₃ ∙ ap (λ t. b ++ t) (e₄ ∙ ap (λ t. b'-' ∷ t) middle)));
      groups = (ga, gb, gc, gd, ge);
      has_version = is_version_lem v hv;
      has_variant = is_variant_lem w hw;
    }

group_match :
    (n : ℕ) (tests : List (ℕ → Bool)) (x y : Bytes)
    → IsGroup n x
    → match_string tests y ≡ true
    → match_string (replicate n is_hex ++ tests) (x ++ y) ≡ true
unfolding match_string
group_match zero tests [] y g m = m
group_match zero tests (c ∷ x) y (l, h) m = absurd (omega (arith, l))
group_match (suc n) tests [] y (l, h) m = absurd (omega (arith, l))
group_match (suc n) tests (c ∷ x) y (l, (h, hs)) m =
    rw ((is_hex_iff c).1 h) (group_match n tests x y (omega (arith, l), hs) m)

cons_match :
    (test : ℕ → Bool) (tests : List (ℕ → Bool)) (c : ℕ) (s : Bytes)
    → test c ≡ true
    → match_string tests s ≡ true
    → match_string (test ∷ tests) (c ∷ s) ≡ true
unfolding match_string
cons_match test tests c s h m = rw h m

nil_match : match_string [] [] ≡ true
unfolding match_string
nil_match = refl

version_digit : (v : ℕ) → (b'1' ≤ v) × (v ≤ b'5') → is_version v ≡ true
version_digit v h = ground arith

variant_digit :
    (w : ℕ)
    → (w ≡ b'8') ⊎ (w ≡ b'9') ⊎ (w ≡ b'a') ⊎ (w ≡ b'b') ⊎ (w ≡ b'A') ⊎ (w ≡ b'B')
    → is_variant w ≡ true
variant_digit w h = ground arith

IsUuid-match_string : (id : Bytes) → IsUuid id → match_string uuid_pattern id ≡ true
IsUuid-match_string id u =
    let (ga, gb, gc, gd, ge) = u.groups in
    let last : match_string (replicate 12 is_hex ++ []) u.e ≡ true =
      subst (λ t. match_string (replicate 12 is_hex ++ []) t ≡ true) (append-nil u.e)
        (group_match 12 [] u.e [] ge nil_match) in
    let four =
      group_match 3 from_last u.d (b'-' ∷ u.e) gd
        (cons_match is_dash (replicate 12 is_hex ++ []) b'-' u.e refl last) in
    let is_w : is_variant u.variant ≡ true = variant_digit u.variant u.has_variant in
    let is_v : is_version u.version ≡ true = version_digit u.version u.has_version in
    let three =
      group_match 3 from_variant u.c _ gc
        (cons_match is_dash _ b'-' _ refl (cons_match is_variant _ u.variant _ is_w four)) in
    let two =
      group_match 4 from_version u.b _ gb
        (cons_match is_dash _ b'-' _ refl (cons_match is_version _ u.version _ is_v three)) in
    ap (match_string uuid_pattern) u.text
    ∙ group_match 8 (is_dash ∷ (replicate 4 is_hex ++ from_version)) u.a _ ga
        (cons_match is_dash (replicate 4 is_hex ++ from_version) b'-' _ refl two)

-- The pattern matches exactly the UUIDs.
pub match_string_iff : (id : Bytes) → (match_string uuid_pattern id ≡ true) ↔ IsUuid id
match_string_iff id = (match_string-IsUuid id, IsUuid-match_string id)
