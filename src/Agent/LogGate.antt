-- ===== src/Agent/LogGate.antt =====
-- agent/services/time_weaver/log_gate.py: when a failure is worth a line in the log.
pub mod Streaks
mod Examples
use time_weaver.Prelude.{
  ℕ, zero, suc, ◌+◌, ◌%◌, Bool, true, false, not, Option, none, some, String, [], Dict, get, put,
  pop, ◌==◌, is_none, option_same, if◌then◌else◌, ltb, text_comparable, nat_comparable,
}

-- FailureLogGate. The key and the count of a channel stand in two dicts, as in the source.
pub record FailureLogGate : Type 0 where
  pub repeat_mark_every : ℕ
  pub keys : Dict String String
  pub counts : Dict String ℕ

-- `max(1, int(repeat_mark_every))`
unfoldable pub new_gate : ℕ → FailureLogGate
new_gate every = record {
  repeat_mark_every = if ltb 1 every then every else 1;
  keys = [];
  counts = [];
}

abbrev get_or_one : Option ℕ → ℕ
get_or_one none = 1
get_or_one (some n) = n

-- FailureLogGate.failure: whether to log, and the consecutive count.
unfoldable pub failure : String → String → FailureLogGate → FailureLogGate × (Bool × ℕ)
failure channel key gate =
    if not (option_same (get channel gate.keys) (some key))
    then (
      record gate { keys = put channel key gate.keys; counts = put channel 1 gate.counts },
      (true, 1),
    )
    else (let count = get_or_one (get channel gate.counts) + 1 in
        (
          record gate { counts = put channel count gate.counts },
          (count % gate.repeat_mark_every == 0, count),
        ))

-- FailureLogGate.success: whether a failure streak just ended.
unfoldable pub success : String → FailureLogGate → FailureLogGate × Bool
success channel gate = (
  record gate { keys = pop channel gate.keys; counts = pop channel gate.counts },
  not (is_none (get channel gate.keys)),
)
