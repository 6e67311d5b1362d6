-- ===== src/Server/Auth/Admission.antt =====
-- Whom the middlewares of server.go admit, and how they refuse the others.
use ileap_go.Common.{
  ℕ, Bool, true, false, [], ◌∷◌, ◌++◌, ◌≡◌, ◌≢◌, refl, sym, ap, subst, ◌∙◌, ◌↔◌, ◌⊎◌, inl, inr,
  some, arith, ◌==◌, if◌then◌else◌, Option-cases, Bytes, codes,
}
use ileap_go.Service.{Code, unimplemented, unauthenticated, Result, ok, err}
use ileap_go.Server.Http.{ErrorCode, bad_request, access_denied, token_expired}
use ileap_go.Server.Auth.{
  TokenInfo, AuthHandler, Clock, strip_prefix, is_expired_jwt, Gate, admitted, refused,
  check_bearer, pact_verdict, ileap_verdict, ileap_checked, pact_gate, pact_events_gate, ileap_gate,
}

strip_prefix_iff : (p s : Bytes) {t : Bytes} → (strip_prefix p s ≡ some t) ↔ (s ≡ p ++ t)
unfolding strip_prefix
strip_prefix_iff [] s = ground arith
strip_prefix_iff (a ∷ p) [] = ground arith
strip_prefix_iff (a ∷ p) (c ∷ s) {t = t} = ground (arith, strip_prefix_iff p s {t = t})

-- A header with a bearer token that is not empty.
abbrev pub Bears : Bytes → Bytes → Type 0
Bears header token = (header ≡ codes "Bearer " ++ token) × (token ≢ [])

module _ (status : ℕ) (code : ErrorCode) (proceed : Bytes → Gate) where
  check_bearer-Bears :
      (header token : Bytes)
      → Bears header token
      → check_bearer status code proceed header ≡ proceed token
  unfolding check_bearer strip_prefix
  check_bearer-Bears header [] (e, n) = absurd (n refl)
  check_bearer-Bears header (d ∷ ds) (e, n) = rw e refl

  -- The header bears a token, which is proceeded with, or it is refused.
  pub check_bearer-cases :
      (header : Bytes)
      → ((t : Bytes) × Bears header t × (check_bearer status code proceed header ≡ proceed t))
        ⊎ ((message : Bytes) × (check_bearer status code proceed header
              ≡ refused status code message))
  unfolding check_bearer
  check_bearer-cases [] = inr (_, refl)
  check_bearer-cases (c ∷ cs) = elim (Option-cases (strip_prefix (codes "Bearer ") (c ∷ cs))) [
    | inl n ↦ inr (codes "unsupported authentication scheme", rw (n, check_bearer) refl)
    | inr ([], s) ↦ inr (codes "missing access token", rw (s, check_bearer) refl)
    | inr (d ∷ ds, s) ↦ inl (
      d ∷ ds,
      ((strip_prefix_iff (codes "Bearer ") (c ∷ cs)).0 s, λ n. absurd (cc n)),
      rw (s, check_bearer) refl,
    )
  ]

  -- The gate admits exactly as what it proceeds to does.
  check_bearer_iff :
      (P : Bytes → Type 0) (header token : Bytes)
      → ((t : Bytes) → (proceed t ≡ admitted token) ↔ ((t ≡ token) × P t))
      → (check_bearer status code proceed header ≡ admitted token) ↔ (Bears header token × P token)
  check_bearer_iff P header token h = (
    (λ e. elim (check_bearer-cases header) [
      | inl (t, b, f) ↦
          let (same, q) = (h t).0 (sym f ∙ e) in subst (λ x. Bears header x × P x) same (b, q)
      | inr (message, f) ↦ absurd (cc (e, f))
    ]),
    (λ (b, q). check_bearer-Bears header token b ∙ (h token).1 (refl, q)),
  )

-- A validation that succeeds.
abbrev pub Validates : Result TokenInfo → Type 0
Validates r = (info : TokenInfo) × (r ≡ ok info)

-- A refusal does not admit, and an error does not validate.
refusal_iff :
    (c : Code) (m t token : Bytes) {g : Gate} {status : ℕ} {code : ErrorCode} {message : Bytes}
    → g ≡ refused status code message
    → (g ≡ admitted token) ↔ ((t ≡ token) × Validates (err c m))
refusal_iff c m t token e = (λ f. absurd (cc (e, f)), λ (_, (info, f)). absurd (cc f))

pact_verdict_iff :
    (status : ℕ) (t token : Bytes) (r : Result TokenInfo)
    → (pact_verdict status t r ≡ admitted token) ↔ ((t ≡ token) × Validates r)
unfolding pact_verdict
pact_verdict_iff status t token (ok info) = (λ e. (cc e, (info, refl)), λ (p, _). ap admitted p)
pact_verdict_iff status t token (err unimplemented m) = refusal_iff unimplemented m t token refl
pact_verdict_iff status t token (err c m) = refusal_iff c m t token refl

ileap_verdict_iff :
    (t token : Bytes) (r : Result TokenInfo)
    → (ileap_verdict t r ≡ admitted token) ↔ ((t ≡ token) × Validates r)
unfolding ileap_verdict
ileap_verdict_iff t token (ok info) = (λ e. (cc e, (info, refl)), λ (p, _). ap admitted p)
ileap_verdict_iff t token (err unimplemented m) = refusal_iff unimplemented m t token refl
ileap_verdict_iff t token (err unauthenticated m) = refusal_iff unauthenticated m t token refl
ileap_verdict_iff t token (err c m) = refusal_iff c m t token refl

expiry_iff :
    (expired : Bool) (t token : Bytes) (r : Result TokenInfo)
    → (ileap_checked expired t r ≡ admitted token)
      ↔ ((t ≡ token) × ((expired ≡ false) × Validates r))
expiry_iff true t token r = (λ e. absurd (cc e), λ (_, (e, _)). absurd (cc e))
expiry_iff false t token r = (
  (λ e. let (p, v) = (ileap_verdict_iff t token r).0 e in (p, (refl, v))),
  (λ (p, (_, v)). (ileap_verdict_iff t token r).1 (p, v)),
)

-- The message of a token that has expired.
abbrev pub expired_answer : Gate
expired_answer = refused 401 token_expired (codes "token expired")

verdict_expired_iff :
    (expired : Bool) (t : Bytes) (r : Result TokenInfo)
    → (ileap_checked expired t r ≡ expired_answer)
      ↔ ((expired ≡ true) ⊎ ((m : Bytes) × (r ≡ err unauthenticated m)))
unfolding ileap_verdict
verdict_expired_iff true t r = (λ _. inl refl, λ _. refl)
verdict_expired_iff false t (ok info) =
    (λ e. absurd (cc e), λ q. elim q [ inl e ↦ absurd (cc e) | inr (_, e) ↦ absurd (cc e) ])
verdict_expired_iff false t (err unauthenticated m) = (λ _. inr (m, refl), λ _. refl)
verdict_expired_iff false t (err unimplemented m) =
    (λ e. absurd (cc e), λ q. elim q [ inl e ↦ absurd (cc e) | inr (_, e) ↦ absurd (cc e) ])
verdict_expired_iff false t (err c m) =
    (λ e. absurd (cc e), λ q. elim q [ inl e ↦ absurd (cc e) | inr (_, e) ↦ absurd (cc e) ])

-- The gate for events, from that for footprints.
abbrev pub soften : Gate → Gate
soften (admitted token) = admitted token
soften (refused status code message) = refused (if status == 401 then 400 else status) code message

soften-pact_verdict :
    (t : Bytes) (r : Result TokenInfo) → pact_verdict 400 t r ≡ soften (pact_verdict 401 t r)
unfolding pact_verdict
soften-pact_verdict t (ok info) = refl
soften-pact_verdict t (err unimplemented m) = refl
soften-pact_verdict t (err c m) = refl

soften-check_bearer :
    (code : ErrorCode) (f g : Bytes → Gate) (header : Bytes)
    → ((t : Bytes) → f t ≡ soften (g t))
    → check_bearer 400 code f header ≡ soften (check_bearer 400 code g header)
unfolding check_bearer
soften-check_bearer code f g [] h = refl
soften-check_bearer code f g (c ∷ cs) h =
    elim (Option-cases (strip_prefix (codes "Bearer ") (c ∷ cs))) [
      | inl n ↦ rw (n, check_bearer) refl
      | inr ([], s) ↦ rw (s, check_bearer) refl
      | inr (d ∷ ds, s) ↦ rw (s, check_bearer) (h (d ∷ ds))
    ]

module _ {Token Config Keys : Type 0} (auth : AuthHandler Token Config Keys) where
  -- `pactAuthMiddleware` admits a request, with a token, exactly when the header holds that token
  -- as a bearer token, not empty, and the authentication handler validates it.
  pub pact_gate_iff :
      (header token : Bytes)
      → (pact_gate auth header ≡ admitted token)
        ↔ (Bears header token × Validates (auth.validate_token token))
  unfolding pact_gate
  pact_gate_iff header token =
      check_bearer_iff 400 bad_request _ (λ t. Validates (auth.validate_token t)) header token
        (λ t. pact_verdict_iff 401 t token (auth.validate_token t))

  abbrev ileap_proceed : Clock → Bytes → Gate
  ileap_proceed clock t = ileap_checked (is_expired_jwt clock t) t (auth.validate_token t)

  -- `ileapAuthMiddleware` admits a request, with a token, exactly when the header holds that token
  -- as a bearer token, not empty, it does not say that it has expired, and the authentication
  -- handler validates it.
  pub ileap_gate_iff :
      (clock : Clock) (header token : Bytes)
      → (ileap_gate auth clock header ≡ admitted token) ↔ (
          Bears header token
          × ((is_expired_jwt clock token ≡ false) × Validates (auth.validate_token token)))
  unfolding ileap_gate
  ileap_gate_iff clock header token =
      check_bearer_iff 403 access_denied (ileap_proceed clock)
        (λ t. (is_expired_jwt clock t ≡ false) × Validates (auth.validate_token t)) header token
        (λ t. expiry_iff (is_expired_jwt clock t) t token (auth.validate_token t))

  -- `ileapAuthMiddleware` answers that a token has expired exactly when the header bears a token
  -- that says so itself, or of which the authentication handler says so.
  pub ileap_gate_expired_iff :
      (clock : Clock) (header : Bytes)
      → (ileap_gate auth clock header ≡ expired_answer) ↔ (
          (token : Bytes) × Bears header token
          × ((is_expired_jwt clock token ≡ true)
              ⊎ ((m : Bytes) × (auth.validate_token token ≡ err unauthenticated m))))
  unfolding ileap_gate
  ileap_gate_expired_iff clock header = (
    (λ e. elim (check_bearer-cases 403 access_denied (ileap_proceed clock) header) [
      | inl (t, b, f) ↦ (
        t,
        b,
        (verdict_expired_iff (is_expired_jwt clock t) t (auth.validate_token t)).0 (sym f ∙ e),
      )
      | inr (message, f) ↦ absurd (cc (e, f))
    ]),
    (λ (t, b, q).
        check_bearer-Bears 403 access_denied (ileap_proceed clock) header t b
        ∙ (verdict_expired_iff (is_expired_jwt clock t) t (auth.validate_token t)).1 q),
  )

  -- `pactEventsAuthMiddleware` does what `pactAuthMiddleware` does, but that the status 401 is 400.
  pub pact_events_gate-soften :
      (header : Bytes) → pact_events_gate auth header ≡ soften (pact_gate auth header)
  unfolding pact_events_gate pact_gate
  pact_events_gate-soften header =
      soften-check_bearer bad_request _ _ header
        (λ t. soften-pact_verdict t (auth.validate_token t))
