-- ===== src/Client/Retry/Attempts.antt =====
-- retry.go, `RoundTrip`: how often a request is sent, and with which body.
use ileap_go.Common.{
  ℕ, zero, suc, ◌+◌, ◌≤◌, ◌<◌, true, false, not, [], ◌∷◌, ◌≡◌, refl, ap, Option, some, arith, ◌==◌,
  if_elim, replicate, Bytes, bytes_eq, ℤ, pos, negsuc,
}
use ileap_go.Client.Retry.{
  Outgoing, Answer, answered, is_idempotent, should_retry, Reader, World, Outcome, returned,
  cancelled, readable, Trace, sent_first, reached, retries, round_trip_loop, round_trip,
}

abbrev at_start : Bytes → Option Reader
at_start body = some (record { buffer = body; position = 0 })

-- A trace with `suc n` attempts, each with the whole body.
abbrev pub Sends : Bytes → ℕ → Option Trace → Type 0
Sends body most trace =
    (n : ℕ) × (outcome : Outcome) × (trace ≡ some (replicate (suc n) body, outcome)) × (n ≤ most)

reached_lem : (m : ℤ) (a : ℕ) → reached m a ≡ false → a < retries m
reached_lem (pos n) a h = ground arith
reached_lem (negsuc n) a h = absurd (cc h)

module _ (world : World) (max_retries : ℤ) (req : Outgoing) where
  loop-Sends :
      (body : Bytes) (fuel attempt : ℕ)
      → attempt + fuel ≡ retries max_retries
      → Sends body fuel (round_trip_loop world max_retries req (suc fuel) attempt (at_start body))
  unfolding round_trip_loop
  loop-Sends body zero attempt h =
      if_elim (Sends body 0) (reached max_retries attempt) (λ _. (0, returned _, refl, omega arith))
        (λ r. absurd (omega (arith, reached_lem max_retries attempt r, h)))
  loop-Sends body (suc fuel) attempt h =
      if_elim (Sends body (suc fuel)) (reached max_retries attempt)
        (λ _. (0, returned _, refl, omega arith))
        (λ _.
          if_elim (Sends body (suc fuel))
            (not (should_retry (world.round_trip_next attempt body).0 req))
            (λ _. (0, returned _, refl, omega arith))
            (λ _.
              if_elim (Sends body (suc fuel)) (world.sleep_with_context attempt)
                (λ _.
                  let (n, outcome, e, k) = loop-Sends body fuel (suc attempt) (omega (arith, h)) in
                  (suc n, outcome, ap (sent_first body) e, omega (arith, k)))
                (λ _. (0, cancelled, refl, omega arith))))

  -- The retry loop ends: a request with a body is sent at least once and at most once more than the
  -- number of retries, and every attempt is given the whole body, whatever the transport read of it
  -- before.
  pub round_trip-Sends :
      (body : Bytes)
      → Sends body (retries max_retries) (round_trip world max_retries req (readable body))
  unfolding round_trip
  round_trip-Sends body = loop-Sends body (retries max_retries) 0 (omega arith)

  should_retry_unsafe :
      (res : Answer)
      → is_idempotent req ≡ false
      → bytes_eq res.retry_after [] ≡ true
      → (res.status_code == 429) ≡ false
      → should_retry (answered res) req ≡ false
  unfolding should_retry
  should_retry_unsafe res u r s = ground arith

  -- A request that is not idempotent, and whose first attempt is answered without Retry-After and
  -- not by 429, is not sent again: its answer is returned.
  pub round_trip_once :
      (body : Bytes) (res : Answer)
      → is_idempotent req ≡ false
      → (world.round_trip_next 0 body).0 ≡ answered res
      → bytes_eq res.retry_after [] ≡ true
      → (res.status_code == 429) ≡ false
      → round_trip world max_retries req (readable body) ≡ some (body ∷ [], returned (answered res))
  unfolding round_trip round_trip_loop
  round_trip_once body res u a r s =
      if_elim (λ t. t ≡ some (body ∷ [], returned (answered res))) (reached max_retries 0)
        (λ _. ap (λ x. some (body ∷ [], returned x)) a)
        (λ _.
          if_elim (λ t. t ≡ some (body ∷ [], returned (answered res)))
            (not (should_retry (world.round_trip_next 0 body).0 req))
            (λ _. ap (λ x. some (body ∷ [], returned x)) a)
            (λ n. absurd (cc (rw a at n, should_retry_unsafe res u r s))))
