-- ===== src/Agent/Application/Latches.antt =====
-- At most one event of a cause between two clearings of it.
use time_weaver.Prelude.{
  ℕ, ◌+◌, ◌≤◌, ◌≡◌, refl, inl, inr, Bool, false, Option, String, List, [], ◌∷◌, ◌++◌, ◌==◌,
  if◌then◌else◌, contains, contains-add, contains-discard, text_comparable, arith, Bool-cases,
  eq_iff,
}
use time_weaver.Agent.Application.Events.{
  AgentEvent, EventReporter, report_keyed, report_event_once, clear_event_cause, the_event,
  event_key,
}

-- Calls of report_event_once and clear_event_cause, from any threads.
pub data Call : Type 0 where
  reports : (fails : Bool) → (event_type severity message : String) → (cause : Option String) → Call
  clears : (cause : String) → Call

abbrev pub perform : Call → EventReporter → EventReporter
perform (reports fails event_type severity message cause) r =
    report_event_once fails event_type severity message cause r
perform (clears cause) r = clear_event_cause cause r

abbrev pub run : List Call → EventReporter → EventReporter
run [] r = r
run (call ∷ calls) r = run calls (perform call r)

-- How many events of a key were sent, and how often it is cleared.
unfoldable pub sent_of : String → List AgentEvent → ℕ
sent_of key [] = 0
sent_of key (event ∷ events) =
    let rest = sent_of key events in if event.key == key then rest + 1 else rest

unfoldable pub clearings : String → List Call → ℕ
clearings key [] = 0
clearings key (reports fails event_type severity message cause ∷ calls) = clearings key calls
clearings key (clears cause ∷ calls) =
    let rest = clearings key calls in if cause == key then rest + 1 else rest

abbrev latched : String → EventReporter → ℕ
latched key r = if contains key r.event_causes then 1 else 0

sent_of-append :
    (key : String) (events : List AgentEvent) (event : AgentEvent)
    → sent_of key (events ++ event ∷ []) ≡ sent_of key events + (if event.key == key then 1 else 0)
unfolding sent_of
sent_of-append key [] event = ground arith
sent_of-append key (e ∷ events) event = ground (arith, sent_of-append key events event)

report_keyed-sent :
    (key : String) (fails : Bool) (event : AgentEvent) (r : EventReporter)
    → (key == "outbox:backlog") ≡ false
    → sent_of key (report_keyed fails event r).sent + latched key r
      ≤ sent_of key r.sent + latched key (report_keyed fails event r)
unfolding report_keyed
report_keyed-sent key fails event r other = elim (Bool-cases (event.key == "outbox:backlog")) [
  | inl backlog ↦
      let apart : (event.key == key) ≡ false =
        ground (arith, eq_iff event.key key, eq_iff event.key "outbox:backlog", backlog, other) in
      rw backlog (ground (arith, apart, sent_of-append key r.sent event))
  | inr plain ↦ rw plain (elim (Bool-cases (contains event.key r.event_causes)) [
    | inl known ↦ rw known (omega arith)
    | inr fresh ↦ rw fresh (
        ground (
          arith,
          fresh,
          eq_iff event.key key,
          contains-add event.key key r.event_causes,
          sent_of-append key r.sent event,
        ))
  ])
]

clear-sent :
    (key cause : String) (r : EventReporter)
    → latched key r ≤ latched key (clear_event_cause cause r) + (if cause == key then 1 else 0)
unfolding clear_event_cause
clear-sent key cause r =
    ground (arith, contains-discard cause key r.event_causes, eq_iff cause key, eq_iff key cause)

cleared-sent : (cause : String) (r : EventReporter) → (clear_event_cause cause r).sent ≡ r.sent
unfolding clear_event_cause
cleared-sent cause r = refl

perform-sent :
    (key : String) (call : Call) (calls : List Call) (r : EventReporter)
    → (key == "outbox:backlog") ≡ false
    → sent_of key (perform call r).sent + latched key r + clearings key calls
      ≤ sent_of key r.sent + latched key (perform call r) + clearings key (call ∷ calls)
unfolding report_event_once clearings
perform-sent key (reports fails event_type severity message cause) calls r other = omega (
  arith,
  report_keyed-sent key fails
      (the_event event_type severity message (event_key event_type message cause)) r other,
)
perform-sent key (clears cause) calls r other =
    ground (arith, clear-sent key cause r, cleared-sent cause r)

run-latched :
    (key : String) (calls : List Call) (r : EventReporter)
    → (key == "outbox:backlog") ≡ false
    → sent_of key (run calls r).sent + latched key r
      ≤ sent_of key r.sent + clearings key calls + latched key (run calls r)
run-latched key [] r other = omega arith
run-latched key (call ∷ calls) r other =
    omega (arith, run-latched key calls (perform call r) other, perform-sent key call calls r other)

latched_le : (key : String) (r : EventReporter) → latched key r ≤ 1
latched_le key r = ground arith

-- However threads report and clear causes, the events sent of a cause, other than the backlog of the
-- outbox, are at most one more than those sent before and the times that it is cleared, and no more
-- than these if the cause was held at the start.
pub sent_of-run :
    (key : String) (calls : List Call) (r : EventReporter)
    → (key == "outbox:backlog") ≡ false
    → sent_of key (run calls r).sent + (if contains key r.event_causes then 1 else 0)
      ≤ sent_of key r.sent + clearings key calls + 1
sent_of-run key calls r other =
    omega (arith, run-latched key calls r other, latched_le key (run calls r))
