-- ===== src/Server/Auth/Expired.antt =====
-- server.go, `ileapAuthMiddleware` and `isExpiredJWT`: which tokens say that they have expired.
use ileap_go.Common.{
  true, false, List, [], ◌∷◌, ◌≡◌, refl, sym, ap, ◌∙◌, ◌↔◌, ◌⊎◌, some, Option-cases, Bool-cases,
  inl, inr, Bytes, codes, ℤ, ltb_ℤ, atoi,
}
use ileap_go.Service.{unauthenticated, err}
use ileap_go.Server.Auth.{
  AuthHandler, Clock, Json, number, text, null_json, other_json, claim, payload, split, expired_at,
  is_expired_jwt, admitted, ileap_gate,
}
use ileap_go.Server.Auth.Admission.{
  Bears, Validates, expired_answer, ileap_gate_iff, ileap_gate_expired_iff,
}
use ileap_go.Clerk.Validation.{Parts, three_parts}
use ileap_go.Clerk.Validation.Split.{Cut, three_parts-Cut, Cut-three_parts}

-- The claim is a number, or a text that reads as one, below now.
abbrev pub IsOver : ℤ → Json → Type 0
IsOver now (number n) = ltb_ℤ n now ≡ true
IsOver now (text s) = (n : ℤ) × (atoi s ≡ some n) × (ltb_ℤ n now ≡ true)
IsOver now null_json = ⊥
IsOver now other_json = ⊥

expired_at_iff : (now : ℤ) (v : Json) → (expired_at now v ≡ true) ↔ IsOver now v
unfolding expired_at
expired_at_iff now (number n) = (λ e. e, λ e. e)
expired_at_iff now (text s) = elim (Option-cases (atoi s)) [
  | inl e ↦ ((λ f. absurd (cc (rw (e, expired_at) at f))), (λ (n, f, _). absurd (cc (sym f ∙ e))))
  | inr (n, e) ↦ ((λ f. (n, e, rw (e, expired_at) at f)), (λ (m, f, o). rw (f, expired_at) o))
]
expired_at_iff now null_json = (λ e. absurd (cc e), λ h. absurd h)
expired_at_iff now other_json = (λ e. absurd (cc e), λ h. absurd h)

-- The payload is the second of three parts.
payload-parts :
    (parts : List Bytes) (body : Bytes)
    → payload parts ≡ some body
    → (p : Parts) × (three_parts parts ≡ some p) × (p.body ≡ body)
payload-parts [] body e = absurd (cc e)
payload-parts (h ∷ []) body e = absurd (cc e)
payload-parts (h ∷ b ∷ []) body e = absurd (cc e)
payload-parts (h ∷ b ∷ s ∷ []) body e = (record { header = h; body = b; signature = s }, refl, cc e)
payload-parts (h ∷ b ∷ s ∷ t ∷ ts) body e = absurd (cc e)

parts-payload :
    (parts : List Bytes) (p : Parts) → three_parts parts ≡ some p → payload parts ≡ some p.body
parts-payload [] p e = absurd (cc e)
parts-payload (h ∷ []) p e = absurd (cc e)
parts-payload (h ∷ b ∷ []) p e = absurd (cc e)
parts-payload (h ∷ b ∷ s ∷ []) p e =
    let same : record { header = h; body = b; signature = s } ≡ p = cc e in
    ap (λ (q : Parts). some q.body) same
parts-payload (h ∷ b ∷ s ∷ t ∷ ts) p e = absurd (cc e)

-- A token of three parts, the second of which is the JSON of claims in base64, with an expiry that
-- is over.
pub record SaysExpired (clock : Clock) (token : Bytes) : Type 0 where
  pub parts : Parts
  pub cut : Cut token parts
  pub payload_bytes : Bytes
  pub decoded : clock.decode_raw_url parts.body ≡ some payload_bytes
  pub claims : List (Bytes × Json)
  pub unmarshalled : clock.unmarshal_claims payload_bytes ≡ some claims
  pub exp : Json
  pub claimed : claim (codes "exp") claims ≡ some exp
  pub over : IsOver clock.now exp

module _ (clock : Clock) (token : Bytes) where
  is_expired_jwt-SaysExpired : is_expired_jwt clock token ≡ true → SaysExpired clock token
  unfolding is_expired_jwt
  is_expired_jwt-SaysExpired e = elim (Option-cases (payload (split b'.' token))) [
    | inl n ↦ absurd (cc (rw (n, is_expired_jwt) at e))
    | inr (body, b) ↦ elim (Option-cases (clock.decode_raw_url body)) [
      | inl n ↦ absurd (cc (rw (b, n, is_expired_jwt) at e))
      | inr (bytes, d) ↦ elim (Option-cases (clock.unmarshal_claims bytes)) [
        | inl n ↦ absurd (cc (rw (b, d, n, is_expired_jwt) at e))
        | inr (claims, u) ↦ elim (Option-cases (claim (codes "exp") claims)) [
          | inl n ↦ absurd (cc (rw (b, d, u, n, is_expired_jwt) at e))
          | inr (exp, c) ↦
              let (p, three, same) = payload-parts (split b'.' token) body b in
              record {
                parts = p;
                cut = three_parts-Cut token p three;
                payload_bytes = bytes;
                decoded = ap clock.decode_raw_url same ∙ d;
                claims = claims;
                unmarshalled = u;
                exp = exp;
                claimed = c;
                over = (expired_at_iff clock.now exp).0 (rw (b, d, u, c, is_expired_jwt) at e);
              }
        ]
      ]
    ]
  ]

  SaysExpired-is_expired_jwt : SaysExpired clock token → is_expired_jwt clock token ≡ true
  unfolding is_expired_jwt
  SaysExpired-is_expired_jwt h =
      let body = parts-payload (split b'.' token) h.parts (Cut-three_parts token h.parts h.cut) in
      rw (body, h.decoded, h.unmarshalled, h.claimed, is_expired_jwt)
        ((expired_at_iff clock.now h.exp).1 h.over)

  current_iff : (is_expired_jwt clock token ≡ false) ↔ (¬ SaysExpired clock token)
  current_iff = (
    (λ e h. absurd (cc (sym (SaysExpired-is_expired_jwt h) ∙ e))),
    (λ n. elim (Bool-cases (is_expired_jwt clock token)) [
      | inl b ↦ absurd (n (is_expired_jwt-SaysExpired b))
      | inr b ↦ b
    ]),
  )

module _ {Token Config Keys : Type 0} (auth : AuthHandler Token Config Keys) (clock : Clock)
    (header : Bytes) where
  -- `ileapAuthMiddleware` admits a request, with a token, exactly when the header holds that token
  -- as a bearer token, not empty, the token does not say that it has expired, by a claim exp that
  -- is a number or reads as one, and the authentication handler validates it.
  pub ileap_gate_admits_iff :
      (token : Bytes)
      → (ileap_gate auth clock header ≡ admitted token) ↔ (
          Bears header token
          × ((¬ SaysExpired clock token) × Validates (auth.validate_token token)))
  ileap_gate_admits_iff token = (
    (λ e.
        let (b, (c, v)) = (ileap_gate_iff auth clock header token).0 e in
        (b, ((current_iff clock token).0 c, v))),
    (λ (b, (c, v)).
        (ileap_gate_iff auth clock header token).1 (b, ((current_iff clock token).1 c, v))),
  )

  -- `ileapAuthMiddleware` answers that a token has expired exactly when the header bears a token
  -- that says so itself, by a claim exp that is a number or reads as one, or of which the
  -- authentication handler says so.
  pub ileap_gate_expires_iff : (ileap_gate auth clock header ≡ expired_answer) ↔ (
      (token : Bytes) × Bears header token
      × (SaysExpired clock token
          ⊎ ((m : Bytes) × (auth.validate_token token ≡ err unauthenticated m))))
  ileap_gate_expires_iff = (
    (λ e.
        let (token, b, q) = (ileap_gate_expired_iff auth clock header).0 e in
        (
          token,
          b,
          elim q [ inl x ↦ inl (is_expired_jwt-SaysExpired clock token x) | inr m ↦ inr m ],
        )),
    (λ (token, b, q). (ileap_gate_expired_iff auth clock header).1 (
      token,
      b,
      elim q [ inl x ↦ inl (SaysExpired-is_expired_jwt clock token x) | inr m ↦ inr m ],
    )),
  )
