-- ===== src/Agent/LogGate/Examples.antt =====
-- The gate on a short outage: tests and instances.
use time_weaver.Prelude.{◌≡◌, refl, true, List, [], ◌∷◌, not, is_none, get, put, pop}
use time_weaver.Agent.LogGate.{failure, success, new_gate}
use time_weaver.Agent.LogGate.Streaks.{
  Call, failed, succeeded, after, streak, extend, worth_logging, failure-streak,
}

-- Two failures of one kind after a recovery, the latest first.
abbrev outage : List Call
outage =
    failed "heartbeat" "unavailable"
    ∷ failed "heartbeat" "unavailable"
    ∷ succeeded "heartbeat"
    ∷ failed "heartbeat" "unavailable"
    ∷ []

-- With a mark at every third, the third failure is logged.
third_logged : (failure "heartbeat" "unavailable" (after 3 outage)).1 ≡ (true, 3)
unfolding failure after success new_gate get put pop
third_logged = refl

other_key_logged : (failure "heartbeat" "rate_limited" (after 3 outage)).1 ≡ (true, 1)
unfolding failure after success new_gate get put pop
other_key_logged = refl

failure-streak_example :
    ((failure "heartbeat" "unavailable" (after 3 outage)).1 ≡ (
      worth_logging 3 (extend "unavailable" (streak "heartbeat" outage)).count,
      (extend "unavailable" (streak "heartbeat" outage)).count,
    ))
    × ((success "heartbeat" (after 3 outage)).1 ≡ not (is_none (streak "heartbeat" outage)))
failure-streak_example = failure-streak 3 outage "heartbeat" "unavailable"
