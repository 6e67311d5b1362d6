-- ===== src/Client/Retry.antt =====
-- retry.go: the transport that sends a request again. The state is the buffered body, with the
-- position of its reader, and the number of attempts made.
pub mod Attempts
pub mod Delay
use ileap_go.Common.{
  ℕ, zero, suc, ◌+◌, Bool, true, false, not, ◌&&◌, ◌||◌, List, [], ◌∷◌, Option, none, some, ltb,
  leb, ◌==◌, if◌then◌else◌, any, drop, Bytes, codes, bytes_eq, ℤ, pos, negsuc,
}

-- The parts of a request that decide on a retry; a header that is not there is empty.
pub record Outgoing : Type 0 where
  pub method : Bytes
  pub idempotency_key : Bytes
  pub x_idempotency_key : Bytes

-- What `isDNSErr` and `isTimeoutErr` say of an error.
pub record TransportError : Type 0 where
  pub is_dns_err : Bool
  pub is_timeout_err : Bool

pub record Answer : Type 0 where
  pub status_code : ℕ
  pub retry_after : Bytes

-- The result of `http.RoundTripper`: an error or a response.
pub data Exchange : Type 0 where
  failed : TransportError → Exchange
  answered : Answer → Exchange

abbrev is_set : Bytes → Bool
is_set header = not (bytes_eq header [])

unfoldable pub is_idempotent : Outgoing → Bool
unfolding bytes_eq
is_idempotent req =
    if is_set req.idempotency_key || is_set req.x_idempotency_key
    then true
    else any (bytes_eq req.method) (
        codes "GET"
        ∷ codes "HEAD"
        ∷ codes "OPTIONS"
        ∷ codes "TRACE"
        ∷ codes "PUT"
        ∷ codes "DELETE"
        ∷ [])

unfoldable pub should_retry : Exchange → Outgoing → Bool
unfolding is_idempotent
should_retry (failed e) req = e.is_dns_err || (is_idempotent req && e.is_timeout_err)
should_retry (answered res) req =
    if is_set res.retry_after
    then true
    else if res.status_code == 429
    then true
    else if res.status_code == 502
        || res.status_code == 503
        || res.status_code == 504
        || res.status_code == 500
    then is_idempotent req
    else false

-- `bytes.Reader` over the buffered body.
pub record Reader : Type 0 where
  pub buffer : Bytes
  pub position : ℕ

-- What the transport below can read of the body.
abbrev pub unread : Option Reader → Bytes
unread none = []
unread (some br) = drop br.position br.buffer

abbrev pub read : ℕ → Option Reader → Option Reader
read count none = none
read count (some br) = some (record br { position = br.position + count })

-- `br.Seek(0, 0)`, which does not fail at the offset 0.
abbrev pub seek_start : Option Reader → Option Reader
seek_start none = none
seek_start (some br) = some (record br { position = 0 })

-- `next.RoundTrip` at each attempt, for what it can read of the body, with how much it reads; and
-- whether the sleep after an attempt ends before the context is done.
pub record World : Type 0 where
  pub round_trip_next : ℕ → Bytes → Exchange × ℕ
  pub sleep_with_context : ℕ → Bool

pub data Outcome : Type 0 where
  returned : Exchange → Outcome
  cancelled : Outcome
  buffer_failed : Outcome

-- The body of a request: none, one that can be read, or one that cannot.
pub data Body : Type 0 where
  no_body : Body
  readable : Bytes → Body
  unreadable : Body

-- What each attempt could read of the body, and how the loop ends.
abbrev pub Trace : Type 0
Trace = List Bytes × Outcome

abbrev pub sent_first : Bytes → Option Trace → Option Trace
sent_first sent none = none
sent_first sent (some (rest, outcome)) = some (sent ∷ rest, outcome)

-- `attemptCount-1 >= t.maxRetries`
abbrev pub reached : ℤ → ℕ → Bool
reached (pos n) attempt = leb n attempt
reached (negsuc n) attempt = true

abbrev pub retries : ℤ → ℕ
retries (pos n) = n
retries (negsuc n) = 0

module _ (world : World) (max_retries : ℤ) (req : Outgoing) where
  -- The loop of `RoundTrip`; the number of retries bounds its rounds.
  unfoldable pub round_trip_loop : ℕ → ℕ → Option Reader → Option Trace
  round_trip_loop zero attempt br = none
  round_trip_loop (suc fuel) attempt br =
      let sent = unread br in
      let (exchange, count) = world.round_trip_next attempt sent in
      let again = round_trip_loop fuel (suc attempt) (seek_start (read count br)) in
      if reached max_retries attempt
      then some (sent ∷ [], returned exchange)
      else if not (should_retry exchange req)
      then some (sent ∷ [], returned exchange)
      else if world.sleep_with_context attempt
      then sent_first sent again
      else some (sent ∷ [], cancelled)

  unfoldable pub round_trip : Body → Option Trace
  unfolding round_trip_loop should_retry
  round_trip no_body = round_trip_loop (suc (retries max_retries)) 0 none
  round_trip (readable body) =
      round_trip_loop (suc (retries max_retries)) 0 (some (record { buffer = body; position = 0 }))
  round_trip unreadable = some ([], buffer_failed)
