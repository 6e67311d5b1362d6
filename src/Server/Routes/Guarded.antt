-- ===== src/Server/Routes/Guarded.antt =====
-- server.go, `registerRoutes`: no endpoint succeeds without a valid token.
use ileap_go.Common.{ℕ, Bool, true, false, ◌≡◌, refl, ◌⊎◌, inl, inr, arith, Bytes, ◌==◌}
use ileap_go.Service.{Service, unimplemented, unauthenticated, Result, ok, err}
use ileap_go.Server.Http.{Request, Response, ErrorCode, bad_request, access_denied}
use ileap_go.Server.Auth.{
  TokenInfo, AuthHandler, Clock, is_expired_jwt, Gate, admitted, refused, check_bearer,
  pact_verdict, ileap_verdict, ileap_checked, pact_gate, ileap_gate, through,
}
use ileap_go.Server.Auth.Admission.{
  Bears, Validates, soften, check_bearer-cases, pact_gate_iff, ileap_gate_iff,
  pact_events_gate-soften,
}
use ileap_go.Server.Events.{Codec, EventRequest}
use ileap_go.Server.Routes.{footprints_route, footprint_route, tads_route, events_route}

-- A gate that admits, or that refuses with a status other than 200.
abbrev Honest : Gate → Type 0
Honest (admitted token) = Unit {0}
Honest (refused status code message) = (status == 200) ≡ false

pact_verdict-Honest : (t : Bytes) (r : Result TokenInfo) → Honest (pact_verdict 401 t r)
unfolding pact_verdict
pact_verdict-Honest t (ok info) = tt
pact_verdict-Honest t (err unimplemented m) = refl
pact_verdict-Honest t (err c m) = refl

ileap_checked-Honest :
    (expired : Bool) (t : Bytes) (r : Result TokenInfo) → Honest (ileap_checked expired t r)
unfolding ileap_verdict
ileap_checked-Honest true t r = refl
ileap_checked-Honest false t (ok info) = tt
ileap_checked-Honest false t (err unimplemented m) = refl
ileap_checked-Honest false t (err unauthenticated m) = refl
ileap_checked-Honest false t (err c m) = refl

check_bearer-Honest :
    (status : ℕ) (code : ErrorCode) (proceed : Bytes → Gate) (header : Bytes)
    → (status == 200) ≡ false
    → ((t : Bytes) → Honest (proceed t))
    → Honest (check_bearer status code proceed header)
check_bearer-Honest status code proceed header s h =
    elim (check_bearer-cases status code proceed header) [
      | inl (t, _, e) ↦ rw e (h t)
      | inr (message, e) ↦ rw e s
    ]

soften-Honest : (g : Gate) → Honest g → Honest (soften g)
soften-Honest (admitted token) h = tt
soften-Honest (refused status code message) h = ground arith

-- A request that is answered with the status 200 was admitted.
through-Honest :
    {A : Type 0} (g : Gate) (next : Bytes → Response A)
    → Honest g
    → (through g next).status ≡ 200
    → (token : Bytes) × (g ≡ admitted token)
unfolding through
through-Honest (admitted token) next h e = (token, refl)
through-Honest (refused status code message) next h e = absurd (ground arith)

soften-admitted : (g : Gate) {token : Bytes} → soften g ≡ admitted token → g ≡ admitted token
soften-admitted (admitted t) e = e
soften-admitted (refused status code message) e = absurd (cc e)

-- The header bears a token that the authentication handler validates.
abbrev pub Authorized :
    {Token Config Keys : Type 0} → AuthHandler Token Config Keys → Bytes → Type 0
Authorized auth header =
    (token : Bytes) × Bears header token × Validates (auth.validate_token token)

module _ {Footprint Tad Token Config Keys : Type 0} (auth : AuthHandler Token Config Keys)
    (clock : Clock) (codec : Codec) (service : Service Footprint Tad) where
  pact-Honest : (header : Bytes) → Honest (pact_gate auth header)
  unfolding pact_gate
  pact-Honest header =
      check_bearer-Honest 400 bad_request _ header refl
        (λ t. pact_verdict-Honest t (auth.validate_token t))

  ileap-Honest : (header : Bytes) → Honest (ileap_gate auth clock header)
  unfolding ileap_gate
  ileap-Honest header =
      check_bearer-Honest 403 access_denied _ header refl
        (λ t. ileap_checked-Honest (is_expired_jwt clock t) t (auth.validate_token t))

  pact-Authorized :
      (header : Bytes) {token : Bytes}
      → pact_gate auth header ≡ admitted token
      → Authorized auth header
  pact-Authorized header {token = token} e =
      let (b, v) = (pact_gate_iff auth header token).0 e in (token, b, v)

  footprints_route-Authorized :
      (header : Bytes) (r : Request)
      → (footprints_route auth clock codec service header r).status ≡ 200
      → Authorized auth header
  unfolding footprints_route
  footprints_route-Authorized header r e =
      let (token, g) = through-Honest (pact_gate auth header) _ (pact-Honest header) e in
      pact-Authorized header g

  footprint_route-Authorized :
      (header id : Bytes)
      → (footprint_route auth clock codec service header id).status ≡ 200
      → Authorized auth header
  unfolding footprint_route
  footprint_route-Authorized header id e =
      let (token, g) = through-Honest (pact_gate auth header) _ (pact-Honest header) e in
      pact-Authorized header g

  tads_route-Authorized :
      (header : Bytes) (r : Request)
      → (tads_route auth clock codec service header r).status ≡ 200
      → Authorized auth header
  unfolding tads_route
  tads_route-Authorized header r e =
      let (token, g) = through-Honest (ileap_gate auth clock header) _ (ileap-Honest header) e in
      let (b, (_, v)) = (ileap_gate_iff auth clock header token).0 g in (token, b, v)

  events_route-Authorized :
      (header : Bytes) (r : EventRequest)
      → (events_route auth clock codec service {A = Tad} header r).status ≡ 200
      → Authorized auth header
  unfolding events_route
  events_route-Authorized header r e =
      let soft = pact_events_gate-soften auth header in
      let (token, g) =
        through-Honest (soften (pact_gate auth header)) _
          (soften-Honest (pact_gate auth header) (pact-Honest header)) (rw soft at e) in
      pact-Authorized header (soften-admitted (pact_gate auth header) g)

  -- A footprint, TADs and the acceptance of an event are sent with the status 200 only to a request
  -- whose header bears a token that the authentication handler validates.
  pub routes-Authorized :
      (header : Bytes) (r : Request) (id : Bytes) (event : EventRequest)
      → ((footprints_route auth clock codec service header r).status ≡ 200)
        ⊎ ((footprint_route auth clock codec service header id).status ≡ 200)
        ⊎ ((tads_route auth clock codec service header r).status ≡ 200)
        ⊎ ((events_route auth clock codec service {A = Tad} header event).status ≡ 200)
      → Authorized auth header
  routes-Authorized header r id event e = elim e [
    | inl a ↦ footprints_route-Authorized header r a
    | inr (inl a) ↦ footprint_route-Authorized header id a
    | inr (inr (inl a)) ↦ tads_route-Authorized header r a
    | inr (inr (inr a)) ↦ events_route-Authorized header event a
  ]
