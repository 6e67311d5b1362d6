-- ===== src/Client/Retry/Delay.antt =====
-- retry.go: `retryDelay` and `expBackoff`, in nanoseconds. The jitter of `addJitter`, which is in
-- floating point, is a parameter; the powers of two in `expBackoff` are exact in floating point, up
-- to the infinity that the cap cuts off.
use ileap_go.Common.{
  ℕ, zero, suc, ◌-◌, ◌*◌, ◌%◌, ◌^◌, ◌≤◌, ◌<◌, [], ◌∷◌, ◌≡◌, refl, ap, ◌∙◌, Option, none, some, ltb,
  leb, if◌then◌else◌, arith, Bytes, ℤ, pos, negsuc, int64, atoi,
}
use native.Mathlib.Nat.{pow-suc}

-- What the code takes from `rand` and `time`: `rand.Int63n`, the time until an HTTP date, and the
-- jitter that is added to a delay.
pub record Timing : Type 0 where
  pub int63n : ℕ → ℕ
  pub until_date : Bytes → Option ℤ
  pub add_jitter : ℤ → ℤ

-- `time.Duration(i) * time.Second`, in 64 bits.
abbrev pub times_second : ℤ → ℤ
times_second (pos n) = int64 (n * 1000000000)
times_second (negsuc n) = int64 (2 ^ 64 - suc n * 1000000000 % 2 ^ 64)

-- `int64(math.Min(float64(cap), v))`; attempts are counted from 1.
unfoldable pub backoff_limit : ℕ → ℕ
backoff_limit attempt =
    let v = 250000000 * 2 ^ (attempt - 1) in if ltb v 10000000000 then v else 10000000000

module _ (timing : Timing) where
  unfoldable pub exp_backoff : ℕ → ℤ
  exp_backoff attempt = pos (timing.int63n (backoff_limit attempt))

  abbrev dated : ℕ → Option ℤ → ℤ
  dated attempt none = exp_backoff attempt
  dated attempt (some left) = timing.add_jitter left

  abbrev pub after : ℕ → Bytes → Option ℤ → ℤ
  after attempt header none = dated attempt (timing.until_date header)
  after attempt header (some seconds) = timing.add_jitter (times_second seconds)

  -- `retryDelay`, with the header `Retry-After` of the response, which is empty without one.
  unfoldable pub retry_delay : ℕ → Bytes → ℤ
  retry_delay attempt [] = exp_backoff attempt
  retry_delay attempt (c ∷ cs) = after attempt (c ∷ cs) (atoi (c ∷ cs))

pow_positive : (n : ℕ) → 0 < 2 ^ n
pow_positive zero = omega arith
pow_positive (suc n) = omega (arith, pow_positive n, pow-suc 2 n)

-- The wait is drawn from a range that is not empty.
backoff_limit_positive : (attempt : ℕ) → 0 < backoff_limit attempt
unfolding backoff_limit
backoff_limit_positive attempt = ground (arith, pow_positive (attempt - 1))

backoff_limit_lem :
    (attempt w : ℕ)
    → w < backoff_limit attempt
    → (w < 250000000 * 2 ^ (attempt - 1)) × (w < 10000000000)
unfolding backoff_limit
backoff_limit_lem attempt w h = (ground arith, ground arith)

-- The product of a number of seconds, on both sides of the greatest that fits.
seconds_lem :
    (n : ℕ)
    → n ≤ 18446744073
    → times_second (pos n) ≡ (
        if leb n 9223372036
        then pos (n * 1000000000)
        else negsuc (18446744073709551615 - n * 1000000000))
seconds_lem n h = ground arith

-- Without Retry-After a retry waits for less than 250 ms, doubled for each attempt before it, and for
-- less than 10 s, if a number that is drawn below a positive bound is below it.
pub retry_delay_backoff :
    (timing : Timing) (attempt : ℕ)
    → ((n : ℕ) → 0 < n → timing.int63n n < n)
    → (w : ℕ) × (retry_delay timing attempt [] ≡ pos w)
      × (w < 250000000 * 2 ^ (attempt - 1))
      × (w < 10000000000)
unfolding retry_delay exp_backoff
retry_delay_backoff timing attempt draws =
    let w = timing.int63n (backoff_limit attempt) in
    let below : w < backoff_limit attempt =
      draws (backoff_limit attempt) (backoff_limit_positive attempt) in
    let (doubled, capped) = backoff_limit_lem attempt w below in (w, refl, doubled, capped)

-- With Retry-After in seconds, at most 18446744073, a retry waits for these and a jitter where they
-- are at most 9223372036; from there on the product of 64 bits is negative, and the jitter is added
-- to less than no time.
pub retry_delay_seconds :
    (timing : Timing) (attempt : ℕ) (header : Bytes) (n : ℕ)
    → atoi header ≡ some (pos n)
    → n ≤ 18446744073
    → retry_delay timing attempt header
      ≡ timing.add_jitter (
          if leb n 9223372036
          then pos (n * 1000000000)
          else negsuc (18446744073709551615 - n * 1000000000))
unfolding retry_delay atoi
retry_delay_seconds timing attempt [] n e h = absurd (cc e)
retry_delay_seconds timing attempt (c ∷ cs) n e h =
    ap (after timing attempt (c ∷ cs)) e ∙ ap timing.add_jitter (seconds_lem n h)
