-- ===== src/Agent/RetryBackoff/Bounds.antt =====
-- The bounds of a delay, and its growth.
use Prim.Native.Nat.{min}
use native.Mathlib.Nat.{
  mul-le-mul, mul-le-mul_right, pow-suc, sub-le, le_trans, pow-le-pow_left, pow-le-pow_right,
  min-le_left,
}
use time_weaver.Prelude.{
  ℕ, zero, suc, ◌+◌, ◌-◌, ◌*◌, ◌^◌, ◌≤◌, ◌≡◌, refl, none, some, arith, Bool-cases, inl, inr, leb,
  ok, ◌<◌, true, String, Result, error, if◌then◌else◌,
}
use time_weaver.Agent.RetryBackoff.{
  RetrySettings, RetryBackoff, Delay, new_backoff, float_limit, overflows, raw_delay, times_draw,
  failure_delay,
}

-- `d` is at most `n` thousandths of a millisecond, and at least.
abbrev pub AtMost : ℕ → Delay → Type 0
AtMost n d = d.milliseconds * 1000 ≤ n * d.divisor

abbrev pub AtLeast : ℕ → Delay → Type 0
AtLeast n d = n * d.divisor ≤ d.milliseconds * 1000

-- The smaller of the first delay and the cap.
abbrev pub least : RetrySettings → ℕ
least s = min s.initial_delay s.max_delay

record Within (s : RetrySettings) (d : Delay) : Type 0 where
  upper : d.milliseconds ≤ s.max_delay * d.divisor
  lower : least s * d.divisor ≤ d.milliseconds

-- The growing delay is between the least one and the cap.
raw_delay-Within : (s : RetrySettings) (n : ℕ) → 1000 ≤ s.multiplier → Within s (raw_delay s n)
unfolding raw_delay
raw_delay-Within s n m =
    elim (Bool-cases (leb (s.max_delay * 1000 ^ n) (s.initial_delay * s.multiplier ^ n))) [
      | inl capped ↦ rw capped (record { upper = omega arith; lower = omega arith })
      | inr below ↦ rw below (record { upper = ground arith; lower = grown_lower })
    ]
  where
    grown_lower : least s * 1000 ^ n ≤ s.initial_delay * s.multiplier ^ n
    grown_lower = mul-le-mul (min-le_left s.initial_delay s.max_delay) (pow-le-pow_left m n)

jittered :
    (low high x d draw floor_draw cap_draw : ℕ)
    → low * d ≤ x
    → x ≤ high * d
    → floor_draw ≤ draw
    → draw ≤ cap_draw
    → (low * floor_draw * (d * 1000) ≤ x * draw * 1000)
      × (x * draw * 1000 ≤ high * cap_draw * (d * 1000))
jittered low high x d draw floor_draw cap_draw a b c e =
    (omega (arith, mul-le-mul a c), omega (arith, mul-le-mul b e))

valid_settings :
    (s : RetrySettings) {b : RetryBackoff}
    → new_backoff s ≡ ok b
    → (1000 ≤ s.multiplier) × (b.settings ≡ s) × (b.failures ≡ 0)
unfolding new_backoff
valid_settings s e = ground arith

-- What failure_delay gives without Retry-After after some failures: an exception where the power of
-- the multiplier is no float, or else a delay within its bounds.
abbrev pub InBounds : RetrySettings → ℕ → Result String Delay → Type 0
InBounds s failures (error name) =
    (name ≡ "OverflowError") × (float_limit * 1000 ^ failures ≤ s.multiplier ^ failures)
InBounds s failures (ok d) =
    (s.multiplier ^ failures < float_limit * 1000 ^ failures)
    × AtLeast (least s * (1000 - s.jitter_ratio)) d
    × AtMost (s.max_delay * (1000 + s.jitter_ratio)) d

overflows-InBounds :
    (s : RetrySettings) (failures draw : ℕ)
    → 1000 ≤ s.multiplier
    → 1000 - s.jitter_ratio ≤ draw
    → draw ≤ 1000 + s.jitter_ratio
    → InBounds s failures (
        if overflows s failures
        then error "OverflowError"
        else ok (times_draw draw (raw_delay s failures)))
unfolding overflows
overflows-InBounds s failures draw grows low high =
    let w = raw_delay-Within s failures grows in
    elim (Bool-cases (leb (float_limit * 1000 ^ failures) (s.multiplier ^ failures))) [
      | inl over ↦ rw over (refl, ground (arith, over))
      | inr fits ↦
          let below : s.multiplier ^ failures < float_limit * 1000 ^ failures =
            ground (arith, fits) in
          let (lower, upper) =
            jittered (least s) s.max_delay (raw_delay s failures).milliseconds
              (raw_delay s failures).divisor draw (1000 - s.jitter_ratio) (1000 + s.jitter_ratio)
              w.lower w.upper low high in
          rw fits (below, lower, upper)
    ]

-- With accepted settings and after any number of failures, a call without Retry-After raises
-- OverflowError exactly if that power of the multiplier is beyond the floats, and else its delay lies
-- between the smaller of the first delay and the cap, less the jitter, and the cap, plus the jitter;
-- the delay of a call with Retry-After is that; and either way one more failure is counted.
pub failure_delay_bounds :
    (s : RetrySettings) (b : RetryBackoff) (failures draw : ℕ) (retry_after : ℕ)
    → new_backoff s ≡ ok b
    → 1000 - s.jitter_ratio ≤ draw
    → draw ≤ 1000 + s.jitter_ratio
    → let now = record b { failures = failures } in
      InBounds s failures (failure_delay none draw now).1
      × ((failure_delay (some retry_after) draw now).1
          ≡ ok (record { milliseconds = retry_after; divisor = 1 }))
      × ((failure_delay none draw now).0.failures ≡ failures + 1)
      × ((failure_delay (some retry_after) draw now).0.failures ≡ failures + 1)
unfolding failure_delay
failure_delay_bounds s b failures draw retry_after e low high =
    let v = valid_settings s e in
    rw v.1 (overflows-InBounds s failures draw v.0 low high, refl, refl, refl)

float_limit-le-pow : float_limit ≤ 2 ^ 1024
unfolding float_limit
float_limit-le-pow = sub-le (2 ^ 1024) (2 ^ 970)

split_power : (n : ℕ) → 2000 ^ n ≡ 2 ^ n * 1000 ^ n
split_power zero = refl
split_power (suc n) = rw (pow-suc 2000 n, pow-suc 2 n, pow-suc 1000 n, split_power n) (omega arith)

doubled : (limit m n : ℕ) → limit ≤ 2 ^ n → 2000 ≤ m → limit * 1000 ^ n ≤ m ^ n
doubled limit m n small doubles =
    let scaled : 2000 ^ n ≡ 2 ^ n * 1000 ^ n = split_power n in
    let most : 2000 ^ n ≤ m ^ n = pow-le-pow_left doubles n in
    let left : limit * 1000 ^ n ≤ 2 ^ n * 1000 ^ n = mul-le-mul_right (1000 ^ n) small in
    omega (arith, scaled, most, left)

-- A multiplier of two or more overflows from the 1025th failure on.
pub overflows_after :
    (s : RetrySettings) (failures : ℕ)
    → 2000 ≤ s.multiplier
    → 1024 ≤ failures
    → overflows s failures ≡ true
unfolding overflows
overflows_after s failures doubles many =
    let small : float_limit ≤ 2 ^ failures =
      le_trans float_limit-le-pow (pow-le-pow_right {n = 2} (omega arith) many) in
    let over = doubled float_limit s.multiplier failures small doubles in ground (arith, over)
