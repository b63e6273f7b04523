-- ===== src/Agent/RetryBackoff/Examples.antt =====
-- The default retry settings: tests and instances.
use time_weaver.Prelude.{◌≡◌, refl, ◌+◌, none, some, ok, arith, true, false}
use time_weaver.Agent.RetryBackoff.{
  RetrySettings, RetryBackoff, new_backoff, failure_delay, raw_delay, overflows, float_limit,
}
use time_weaver.Agent.RetryBackoff.Bounds.{InBounds, failure_delay_bounds}

abbrev defaults : RetrySettings
defaults = record { initial_delay = 1000; multiplier = 2000; max_delay = 60000; jitter_ratio = 200 }

abbrev start : RetryBackoff
start = record { settings = defaults; failures = 0 }

accepted : new_backoff defaults ≡ ok start
unfolding new_backoff
accepted = refl

abbrev sixth : RetryBackoff
sixth = record { settings = defaults; failures = 6 }

-- The seventh delay is capped: 60 seconds, before the jitter.
seventh_capped : raw_delay defaults 6 ≡ record { milliseconds = 60000; divisor = 1 }
unfolding raw_delay
seventh_capped = refl

failure_delay_bounds_example :
    InBounds defaults 6 (failure_delay none 1100 sixth).1
    × ((failure_delay (some 5000) 1100 sixth).1 ≡ ok (record { milliseconds = 5000; divisor = 1 }))
    × ((failure_delay none 1100 sixth).0.failures ≡ 6 + 1)
    × ((failure_delay (some 5000) 1100 sixth).0.failures ≡ 6 + 1)
failure_delay_bounds_example =
    failure_delay_bounds defaults start 6 1100 5000 accepted (omega arith) (omega arith)

-- The last power that is a float, and the first one that is none.
last_power : overflows defaults 1023 ≡ false
unfolding overflows float_limit
last_power = refl

first_overflow : overflows defaults 1024 ≡ true
unfolding overflows float_limit
first_overflow = refl
