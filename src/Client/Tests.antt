-- ===== src/Client/Tests.antt =====
-- Instances of the theorems about the retry transport.
use ileap_go.Common.{
  ℕ, ◌-◌, ◌*◌, ◌/◌, ◌^◌, ◌<◌, none, negsuc, leb, if◌then◌else◌, arith, atoi, digits_value, true,
  false, [], ◌∷◌, ◌≡◌, refl, some, codes, bytes_eq, pos,
}
use ileap_go.Client.Retry.{
  Outgoing, Answer, answered, is_idempotent, World, returned, readable, retries, round_trip,
}
use ileap_go.Client.Retry.Delay.{Timing, retry_delay, retry_delay_backoff, retry_delay_seconds}
use ileap_go.Client.Retry.Attempts.{Sends, round_trip-Sends, round_trip_once}

abbrev post : Outgoing
post = record { method = codes "POST"; idempotency_key = []; x_idempotency_key = [] }

abbrev broken : Answer
broken = record { status_code = 500; retry_after = [] }

-- A server that always fails, behind a transport that reads three bytes of the body.
abbrev failing : World
failing = record {
  round_trip_next = λ attempt body. (answered broken, 3);
  sleep_with_context = λ attempt. true;
}

round_trip-Sends_example :
    Sends
      (codes "hello")
      (retries (pos 2))
      (round_trip failing (pos 2) post (readable (codes "hello")))
round_trip-Sends_example = round_trip-Sends failing (pos 2) post (codes "hello")

post_unsafe : is_idempotent post ≡ false
unfolding is_idempotent
post_unsafe = refl

no_header : bytes_eq broken.retry_after [] ≡ true
unfolding bytes_eq
no_header = refl

round_trip_once_example :
    round_trip failing (pos 2) post (readable (codes "hello"))
    ≡ some (codes "hello" ∷ [], returned (answered broken))
round_trip_once_example =
    round_trip_once failing (pos 2) post (codes "hello") broken post_unsafe refl no_header refl

-- Half of what may be drawn, and no jitter.
abbrev timing : Timing
timing = record { int63n = λ n. n / 2; until_date = λ header. none; add_jitter = λ delay. delay }

halves : (n : ℕ) → 0 < n → n / 2 < n
halves n h = omega arith

retry_delay_backoff_example :
    (w : ℕ) × (retry_delay timing 3 [] ≡ pos w) × (w < 250000000 * 2 ^ (3 - 1)) × (w < 10000000000)
retry_delay_backoff_example = retry_delay_backoff timing 3 halves

reads_seconds : atoi (codes "9999999999") ≡ some (pos 9999999999)
unfolding atoi digits_value
reads_seconds = refl

retry_delay_seconds_example :
    retry_delay timing 1 (codes "9999999999")
    ≡ timing.add_jitter (
        if leb 9999999999 9223372036
        then pos (9999999999 * 1000000000)
        else negsuc (18446744073709551615 - 9999999999 * 1000000000))
retry_delay_seconds_example =
    retry_delay_seconds timing 1 (codes "9999999999") 9999999999 reads_seconds (omega arith)
