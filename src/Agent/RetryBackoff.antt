-- ===== src/Agent/RetryBackoff.antt =====
-- RetryBackoff of agent/services/time_weaver/outbox.py, over exact fractions where the source has
-- floats, but for the overflow of a power: settings and draws are thousandths, a delay is a number of
-- milliseconds over a divisor.
pub mod Bounds
mod Examples
use time_weaver.Prelude.{
  ℕ, zero, suc, ◌+◌, ◌-◌, ◌*◌, ◌^◌, Bool, Option, none, some, ◌||◌, if◌then◌else◌, leb, ltb, Result,
  ok, error, String,
}

-- `initial_delay` and `max_delay` are milliseconds, `multiplier` and `jitter_ratio` thousandths.
pub record RetrySettings : Type 0 where
  pub initial_delay : ℕ
  pub multiplier : ℕ
  pub max_delay : ℕ
  pub jitter_ratio : ℕ

pub record RetryBackoff : Type 0 where
  pub settings : RetrySettings
  pub failures : ℕ

pub record Delay : Type 0 where
  pub milliseconds : ℕ
  pub divisor : ℕ

-- RetryBackoff.__init__, which raises ValueError on settings that are out of range.
unfoldable pub new_backoff : RetrySettings → Result String RetryBackoff
new_backoff s =
    if leb s.initial_delay 0 || ltb s.multiplier 1000 || leb s.max_delay 0
    then error "retry settings are invalid"
    else if ltb 1000 s.jitter_ratio
    then error "retry_jitter_ratio must be between zero and one"
    else ok (record { settings = s; failures = 0 })

-- Where rounding to a float gives no number any more: the largest one and half of its last place.
unfoldable pub float_limit : ℕ
float_limit = 2 ^ 1024 - 2 ^ 970

-- Whether multiplier ** n raises OverflowError.
unfoldable pub overflows : RetrySettings → ℕ → Bool
overflows s n = leb (float_limit * 1000 ^ n) (s.multiplier ^ n)

-- initial_delay * multiplier ** n
abbrev pub grown : RetrySettings → ℕ → Delay
grown s n = record { milliseconds = s.initial_delay * s.multiplier ^ n; divisor = 1000 ^ n }

-- min(max_delay, grown), where the power is a float; an infinite product is more than the cap, too.
unfoldable pub raw_delay : RetrySettings → ℕ → Delay
raw_delay s n =
    if leb (s.max_delay * 1000 ^ n) (s.initial_delay * s.multiplier ^ n)
    then record { milliseconds = s.max_delay; divisor = 1 }
    else grown s n

abbrev pub times_draw : ℕ → Delay → Delay
times_draw draw raw = record {
  milliseconds = raw.milliseconds * draw;
  divisor = raw.divisor * 1000;
}

-- RetryBackoff.failure_delay: the delay or the exception. `draw` is what `random_uniform` returns, in
-- thousandths; a Retry-After that is not negative is used as it is.
unfoldable pub failure_delay : Option ℕ → ℕ → RetryBackoff → RetryBackoff × Result String Delay
unfolding overflows
failure_delay (some retry_after) draw b = (
  record b { failures = b.failures + 1 },
  ok (record { milliseconds = retry_after; divisor = 1 }),
)
failure_delay none draw b = (
  record b { failures = b.failures + 1 },
  if overflows b.settings b.failures
      then error "OverflowError"
      else ok (times_draw draw (raw_delay b.settings b.failures)),
)

unfoldable pub reset : RetryBackoff → RetryBackoff
reset b = record b { failures = 0 }
