-- ===== src/Agent/LogGate/Streaks.antt =====
-- The gate against the history of its calls.
use time_weaver.Prelude.{
  ℕ, ◌+◌, ◌≡◌, refl, Option, none, some, String, List, [], ◌∷◌, get, get-put, get-pop, ◌==◌,
  if◌then◌else◌, arith, text_comparable, eq_iff, nat_comparable, ltb, ◌∙◌, is_none, not, ◌<◌, Bool,
  true, false, ◌||◌, ◌%◌,
}
use time_weaver.Agent.LogGate.{FailureLogGate, new_gate, failure, success}

pub data Call : Type 0 where
  failed : (channel key : String) → Call
  succeeded : (channel : String) → Call

abbrev pub step : Call → FailureLogGate → FailureLogGate
step (failed channel key) gate = (failure channel key gate).0
step (succeeded channel) gate = (success channel gate).0

-- The gate after a history of calls, the latest first.
unfoldable pub after : ℕ → List Call → FailureLogGate
after every [] = new_gate every
after every (call ∷ history) = step call (after every history)

-- How many of the latest calls on the channel failed with the key, if the last one did.
pub record Streak : Type 0 where
  pub key : String
  pub count : ℕ

abbrev pub extend : String → Option Streak → Streak
extend key none = record { key = key; count = 1 }
extend key (some s) = record { key = key; count = if s.key == key then s.count + 1 else 1 }

unfoldable pub streak : String → List Call → Option Streak
streak channel [] = none
streak channel (failed other key ∷ history) =
    if other == channel then some (extend key (streak other history)) else streak channel history
streak channel (succeeded other ∷ history) =
    if other == channel then none else streak channel history

abbrev key_of : Option Streak → Option String
key_of none = none
key_of (some s) = some s.key

abbrev count_of : Option Streak → Option ℕ
count_of none = none
count_of (some s) = some s.count

record Tracks (gate : FailureLogGate) (channel : String) (s : Option Streak) : Type 0 where
  keys : get channel gate.keys ≡ key_of s
  counts : get channel gate.counts ≡ count_of s

Tracks-failure :
    (gate : FailureLogGate) (other channel key : String) (s t : Option Streak)
    → Tracks gate other s
    → Tracks gate channel t
    → Tracks
        (failure other key gate).0
        channel
        (if other == channel then some (extend key s) else t)
unfolding failure
Tracks-failure gate other channel key none t hs ht = record {
  keys = ground (arith, hs.keys, ht.keys, get-put other channel key gate.keys);
  counts = ground (arith, hs.keys, hs.counts, ht.counts, get-put other channel 1 gate.counts);
}
Tracks-failure gate other channel key (some s) t hs ht = record {
  keys = ground (
    arith,
    hs.keys,
    ht.keys,
    eq_iff other channel,
    eq_iff s.key key,
    get-put other channel key gate.keys,
  );
  counts = ground (
    arith,
    hs.keys,
    hs.counts,
    ht.counts,
    eq_iff s.key key,
    get-put other channel 1 gate.counts,
    get-put other channel (s.count + 1) gate.counts,
  );
}

Tracks-success :
    (gate : FailureLogGate) (other channel : String) (t : Option Streak)
    → Tracks gate channel t
    → Tracks (success other gate).0 channel (if other == channel then none else t)
unfolding success
Tracks-success gate other channel t ht = record {
  keys = ground (arith, ht.keys, get-pop other channel gate.keys);
  counts = ground (arith, ht.counts, get-pop other channel gate.counts);
}

after-Tracks :
    (every : ℕ) (history : List Call) (channel : String)
    → Tracks (after every history) channel (streak channel history)
unfolding after streak
after-Tracks every [] channel = unfold new_gate get in record { keys = refl; counts = refl }
after-Tracks every (failed other key ∷ history) channel =
    Tracks-failure _ other channel key _ _ (after-Tracks every history other)
      (after-Tracks every history channel)
after-Tracks every (succeeded other ∷ history) channel =
    Tracks-success _ other channel _ (after-Tracks every history channel)

abbrev pub mark : ℕ → ℕ
mark every = if ltb 1 every then every else 1

step-mark :
    (call : Call) (gate : FailureLogGate)
    → (step call gate).repeat_mark_every ≡ gate.repeat_mark_every
unfolding failure success
step-mark (failed channel key) gate = ground arith
step-mark (succeeded channel) gate = refl

after-mark :
    (every : ℕ) (history : List Call) → (after every history).repeat_mark_every ≡ mark every
unfolding after new_gate
after-mark every [] = refl
after-mark every (call ∷ history) = step-mark call (after every history) ∙ after-mark every history

-- The first failure of a streak and every later one whose number the mark divides are logged.
abbrev pub worth_logging : ℕ → ℕ → Bool
worth_logging every count = count == 1 || count % mark every == 0

abbrev IsCounted : Option Streak → Type 0
IsCounted none = Unit
IsCounted (some s) = 0 < s.count

IsCounted-if :
    (b : Bool) (s t : Option Streak) → IsCounted s → IsCounted t → IsCounted (if b then s else t)
IsCounted-if true s t hs ht = hs
IsCounted-if false s t hs ht = ht

IsCounted-extend : (key : String) (s : Option Streak) → IsCounted (some (extend key s))
IsCounted-extend key none = omega arith
IsCounted-extend key (some s) = ground arith

streak-IsCounted : (channel : String) (history : List Call) → IsCounted (streak channel history)
unfolding streak
streak-IsCounted channel [] = tt
streak-IsCounted channel (failed other key ∷ history) =
    IsCounted-if (other == channel) _ _ (IsCounted-extend key (streak other history))
      (streak-IsCounted channel history)
streak-IsCounted channel (succeeded other ∷ history) =
    IsCounted-if (other == channel) none _ tt (streak-IsCounted channel history)

answer_lem :
    (every : ℕ) (gate : FailureLogGate) (channel key : String) (s : Option Streak)
    → Tracks gate channel s
    → IsCounted s
    → gate.repeat_mark_every ≡ mark every
    → ((failure channel key gate).1
        ≡ (worth_logging every (extend key s).count, (extend key s).count))
      × ((success channel gate).1 ≡ not (is_none s))
unfolding failure success
answer_lem every gate channel key none h c m = (ground (arith, h.keys), ground (arith, h.keys))
answer_lem every gate channel key (some s) h c m =
    (ground (arith, h.keys, h.counts, eq_iff s.key key, m), ground (arith, h.keys))

-- After any history of calls, a failure is counted as the next of its streak, the failures of one
-- key on its channel since the last success or other key there, and it is logged exactly when it is
-- the streak's first or the mark divides its number; a success reports whether it ends a streak.
pub failure-streak :
    (every : ℕ) (history : List Call) (channel key : String)
    → ((failure channel key (after every history)).1 ≡ (
      worth_logging every (extend key (streak channel history)).count,
      (extend key (streak channel history)).count,
    ))
      × ((success channel (after every history)).1 ≡ not (is_none (streak channel history)))
failure-streak every history channel key =
    answer_lem every (after every history) channel key (streak channel history)
      (after-Tracks every history channel) (streak-IsCounted channel history)
      (after-mark every history)
