-- ===== src/Clerk/Api/Granted.antt =====
-- handlers/ileapclerk/client.go: the client keeps what `IssueToken` relies on.
use ileap_go.Common.{
  List, [], ◌∷◌, ◌≡◌, refl, ap, subst, inl, inr, none, some, Bool-cases, All, Bytes, codes,
  bytes_eq,
}
use ileap_go.Client.Http.{HttpRequest, HttpResponse, Sent, failed, answered}
use ileap_go.Clerk.Tokens.{SignInResult, Config}
use ileap_go.Clerk.Tokens.Cached.{IsSound}
use ileap_go.Clerk.Api.{
  Session, SignInResponse, Decoded, decoded, cut_off, malformed, Called, done, refused, Fapi,
  of_decoded, is_success, read_answer, first_jwt, session_of, with_jwt, and_jwt, jwt_of, call,
  sign_in_request, touch_request, token_request, touch_session, activate, signed_in, read_sign_in,
  sign_in, create_session_token, error_of, value_of, token_of, non_empty, clerk_client,
}

read_answer_done :
    {A : Type 0} (read : HttpResponse → Called A) (v : A) (sent : Sent)
    → read_answer read sent ≡ done v
    → (response : HttpResponse) × (sent ≡ answered response) × (read response ≡ done v)
read_answer_done read v failed e = absurd (cc e)
read_answer_done read v (answered response) e =
    elim (Bool-cases (is_success response.status_code)) [
      | inl b ↦ (response, refl, rw b at e)
      | inr b ↦ absurd (cc (rw b at e))
    ]

-- A value comes from a response with a status of success.
call_done :
    {A : Type 0} (fapi : Fapi) (request : HttpRequest) (read : HttpResponse → Called A) (v : A)
    → call fapi request read ≡ done v
    → (response : HttpResponse) × (fapi.send request ≡ answered response) × (read response ≡ done v)
unfolding call
call_done fapi request read v e = elim (Bool-cases (fapi.is_valid_url request.url)) [
  | inr b ↦ absurd (cc (rw (b, call) at e))
  | inl b ↦ read_answer_done read v (fapi.send request) (rw (b, call) at e)
]

of_decoded_done : {A : Type 0} (d : Decoded A) (v : A) → of_decoded d ≡ done v → d ≡ decoded v
of_decoded_done (decoded w) v e = let same : w ≡ v = cc e in ap decoded same
of_decoded_done cut_off v e = absurd (cc e)
of_decoded_done malformed v e = absurd (cc e)

read_sign_in_done :
    (fapi : Fapi) (org header : Bytes) (d : Decoded SignInResponse) (r : SignInResult)
    → read_sign_in fapi org header (of_decoded d) ≡ done r
    → (result : SignInResponse) × (d ≡ decoded result) × (signed_in fapi org header result ≡ done r)
read_sign_in_done fapi org header (decoded result) r e = (result, refl, e)
read_sign_in_done fapi org header cut_off r e = absurd (cc e)
read_sign_in_done fapi org header malformed r e = absurd (cc e)

with_jwt_done :
    (session header : Bytes) (c : Called Bytes) (r : SignInResult)
    → with_jwt session header c ≡ done r
    → (jwt : Bytes) × (c ≡ done jwt) × (jwt ≡ r.jwt) × (session ≡ r.session_id)
with_jwt_done session header (refused e) r h = absurd (cc h)
with_jwt_done session header (done jwt) r h =
    let same : record { jwt = jwt; session_id = session; auth_header = header } ≡ r = cc h in
    (jwt, refl, ap (λ (x : SignInResult). x.jwt) same, ap (λ (x : SignInResult). x.session_id) same)

jwt_of_done :
    (c : Called SignInResponse) (jwt : Bytes)
    → jwt_of c ≡ done jwt
    → (result : SignInResponse) × (c ≡ done result) × (first_jwt result.sessions ≡ done jwt)
jwt_of_done (refused e) jwt h = absurd (cc h)
jwt_of_done (done result) jwt h = (result, refl, h)

and_jwt_done : (c : Called Bytes) (jwt : Bytes) → and_jwt non_empty c ≡ done jwt → c ≡ done jwt
and_jwt_done (refused e) jwt h = absurd (cc h)
and_jwt_done (done []) jwt h = absurd (cc h)
and_jwt_done (done (c ∷ cs)) jwt h = h

-- `Mine jwt`: the token was given to the client; `Owns id`: so was the session.
module _ (Mine Owns : Bytes → Type 0) where
  abbrev pub IsOwned : Bytes → Type 0
  IsOwned [] = Unit
  IsOwned (c ∷ cs) = Owns (c ∷ cs)

  first_jwt-Mine :
      (sessions : List Session) (jwt : Bytes)
      → All (λ s. Mine s.jwt) sessions
      → first_jwt sessions ≡ done jwt
      → Mine jwt
  first_jwt-Mine [] jwt h e = absurd (cc e)
  first_jwt-Mine (s ∷ sessions) jwt (m, h) e = elim (Bool-cases (bytes_eq s.jwt [])) [
    | inl b ↦ absurd (cc (rw b at e))
    | inr b ↦ let same : s.jwt ≡ jwt = cc (rw b at e) in subst Mine same m
  ]

  owned : (id : Bytes) → Owns id → IsOwned id
  owned [] h = tt
  owned (c ∷ cs) h = h

  session_of-IsOwned :
      (id : Bytes) (sessions : List Session)
      → IsOwned id
      → All (λ s. Owns s.id) sessions
      → IsOwned (session_of id sessions)
  session_of-IsOwned [] [] h k = tt
  session_of-IsOwned [] (s ∷ sessions) h (o, k) = owned s.id o
  session_of-IsOwned (c ∷ cs) sessions h k = h

  session_of-Owns :
      (id : Bytes) (sessions : List Session) (jwt : Bytes)
      → IsOwned id
      → All (λ s. Owns s.id) sessions
      → first_jwt sessions ≡ done jwt
      → Owns (session_of id sessions)
  session_of-Owns [] [] jwt h k e = absurd (cc e)
  session_of-Owns [] (s ∷ sessions) jwt h (o, k) e = o
  session_of-Owns (c ∷ cs) sessions jwt h k e = h

  -- The Clerk API answers the client's requests with what is the client's.
  pub record Answers (fapi : Fapi) (id secret : Bytes) : Type 0 where
    pub signs :
        (response : HttpResponse) (result : SignInResponse)
        → fapi.send (sign_in_request fapi id secret) ≡ answered response
        → fapi.decode_sign_in response ≡ decoded result
        → All (λ s. Mine s.jwt) result.sessions
          × (All (λ s. Owns s.id) result.sessions × IsOwned result.created_session_id)
    pub touches :
        (session org header : Bytes) (response : HttpResponse) (result : SignInResponse)
        → Owns session
        → fapi.send (touch_request fapi session org header) ≡ answered response
        → fapi.decode_sign_in response ≡ decoded result
        → All (λ s. Mine s.jwt) result.sessions
    pub creates :
        (session template header : Bytes) (response : HttpResponse) (jwt : Bytes)
        → Owns session
        → fapi.send (token_request fapi session template header) ≡ answered response
        → fapi.decode_token response ≡ decoded jwt
        → Mine jwt

  module _ (fapi : Fapi) (id secret : Bytes) (answers : Answers fapi id secret) where
    touch_session-Mine :
        (session org header jwt : Bytes)
        → Owns session
        → touch_session fapi session org header ≡ done jwt
        → Mine jwt
    unfolding touch_session
    touch_session-Mine session org header jwt o e =
        let (result, c, f) = jwt_of_done _ jwt e in
        let (response, sent, d) =
          call_done fapi (touch_request fapi session org header)
            (λ response. of_decoded (fapi.decode_sign_in response)) result c in
        first_jwt-Mine result.sessions jwt
          (answers.touches session org header response result o sent
            (of_decoded_done (fapi.decode_sign_in response) result d))
          f

    create_session_token-Mine :
        (session template header jwt : Bytes)
        → Owns session
        → create_session_token fapi session template header ≡ done jwt
        → Mine jwt
    unfolding create_session_token
    create_session_token-Mine session template header jwt o e =
        let (response, sent, d) =
          call_done fapi (token_request fapi session template header)
            (λ response. of_decoded (fapi.decode_token response)) jwt (and_jwt_done _ jwt e) in
        answers.creates session template header response jwt o sent
          (of_decoded_done (fapi.decode_token response) jwt d)

    activate-Mine :
        (org header session : Bytes) (r : SignInResult)
        → IsOwned session
        → activate fapi org header session ≡ done r
        → Mine r.jwt × Owns r.session_id
    activate-Mine org header [] r o e = absurd (cc e)
    activate-Mine org header (c ∷ cs) r o e =
        let (jwt, f, j, s) = with_jwt_done (c ∷ cs) header _ r e in
        (subst Mine j (touch_session-Mine (c ∷ cs) org header jwt o f), subst Owns s o)

    signed_in-Mine :
        (org header : Bytes) (result : SignInResponse) (r : SignInResult)
        → All (λ s. Mine s.jwt) result.sessions
        → All (λ s. Owns s.id) result.sessions
        → IsOwned result.created_session_id
        → signed_in fapi org header result ≡ done r
        → Mine r.jwt × Owns r.session_id
    unfolding signed_in
    signed_in-Mine [] header result r m o i e =
        elim (Bool-cases (bytes_eq result.status (codes "complete"))) [
          | inr b ↦ absurd (cc (rw (b, signed_in) at e))
          | inl b ↦
              let (jwt, f, j, s) =
                with_jwt_done (session_of result.created_session_id result.sessions) header
                  (first_jwt result.sessions) r (rw (b, signed_in) at e) in
              (
                subst Mine j (first_jwt-Mine result.sessions jwt m f),
                subst Owns s (session_of-Owns result.created_session_id result.sessions jwt i o f),
              )
        ]
    signed_in-Mine (c ∷ cs) header result r m o i e =
        elim (Bool-cases (bytes_eq result.status (codes "complete"))) [
          | inr b ↦ absurd (cc (rw (b, signed_in) at e))
          | inl b ↦
              activate-Mine (c ∷ cs) header _ r
                (session_of-IsOwned result.created_session_id result.sessions i o)
                (rw (b, signed_in) at e)
        ]

    sign_in-Mine :
        (org : Bytes) (r : SignInResult)
        → sign_in fapi id secret org ≡ done r
        → Mine r.jwt × Owns r.session_id
    unfolding sign_in
    sign_in-Mine org r e =
        let (response, sent, read) = call_done fapi (sign_in_request fapi id secret) _ r e in
        let (result, d, f) = read_sign_in_done fapi org response.authorization _ r read in
        let (m, (o, i)) = answers.signs response result sent d in
        signed_in-Mine org response.authorization result r m o i f

error_of-none : (c : Called SignInResult) → error_of c ≡ none → c ≡ done (value_of c)
error_of-none (refused e) h = absurd (cc h)
error_of-none (done r) h = refl

token_of-some : (c : Called Bytes) (jwt : Bytes) → token_of c ≡ some jwt → c ≡ done jwt
token_of-some (refused e) jwt h = absurd (cc h)
token_of-some (done t) jwt h = let same : t ≡ jwt = cc h in ap done same

-- The HTTP client of the Clerk API keeps what IssueToken relies on: all that it answers to a client
-- that it signs in is given to that client, if the API answers a sign-in with tokens and sessions
-- of the client, and what is asked for a session of the client with tokens of the client.
pub clerk_client-IsSound :
    (fapi : Fapi) (config : Config) (Grants : Bytes → Bytes → Bytes → Type 0)
    (Owns : Bytes → Type 0) (id secret : Bytes)
    → Answers (Grants id secret) Owns fapi id secret
    → IsSound config Grants (clerk_client fapi) id secret
unfolding clerk_client
clerk_client-IsSound fapi config Grants Owns id secret answers =
    let org = config.active_org_id in
    record {
      signed_in = λ f.
          (sign_in-Mine (Grants id secret) Owns fapi id secret answers org _
            (error_of-none (sign_in fapi id secret org) f)).0;
      created = λ template jwt f e.
          create_session_token-Mine (Grants id secret) Owns fapi id secret answers _ template _ jwt
            (sign_in-Mine (Grants id secret) Owns fapi id secret answers org _
              (error_of-none (sign_in fapi id secret org) f)).1
            (token_of-some _ jwt e);
    }
