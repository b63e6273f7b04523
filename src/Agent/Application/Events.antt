-- ===== src/Agent/Application/Events.antt =====
-- The events of agent/services/time_weaver/app.py: report_event_once and clear_event_cause. What is
-- sent is appended to `sent`; each call is told whether the delivery fails.
use time_weaver.Prelude.{
  ℕ, ◌+◌, Bool, Option, none, some, String, text_append, List, [], ◌∷◌, ◌++◌, Dict, get, put, ◌==◌,
  if◌then◌else◌, contains, add, discard, text_comparable,
}

pub record AgentEvent : Type 0 where
  pub event_type : String
  pub severity : String
  pub message : String
  pub key : String

-- _event_causes, _event_suppressed_counts and event_delivery_failures
pub record EventReporter : Type 0 where
  pub event_causes : List String
  pub suppressed_counts : Dict String ℕ
  pub delivery_failures : ℕ
  pub sent : List AgentEvent

abbrev or_zero : Option ℕ → ℕ
or_zero none = 0
or_zero (some n) = n

-- cause or f"{event_type}:{message}"
abbrev pub event_key : String → String → Option String → String
event_key event_type message none = text_append event_type (text_append ":" message)
event_key event_type message (some cause) =
    if cause == "" then text_append event_type (text_append ":" message) else cause

abbrev suppress : String → EventReporter → EventReporter
suppress key r = record r {
  suppressed_counts = put key (or_zero (get key r.suppressed_counts) + 1) r.suppressed_counts;
}

abbrev pub send : Bool → AgentEvent → EventReporter → EventReporter
send fails event r = record r {
  delivery_failures = if fails then r.delivery_failures + 1 else r.delivery_failures;
  sent = r.sent ++ event ∷ [];
}

abbrev pub the_event : String → String → String → String → AgentEvent
the_event event_type severity message key = record {
  event_type = event_type;
  severity = severity;
  message = message;
  key = key;
}

-- The section of report_event_once that looks at the causes, and the delivery.
unfoldable pub report_keyed : Bool → AgentEvent → EventReporter → EventReporter
report_keyed fails event r =
    if event.key == "outbox:backlog"
    then send fails event r
    else if contains event.key r.event_causes
    then suppress event.key r
    else send fails event (record r { event_causes = add event.key r.event_causes })

-- report_event_once, with an API client
unfoldable pub report_event_once :
    Bool → String → String → String → Option String → EventReporter → EventReporter
unfolding report_keyed
report_event_once fails event_type severity message cause r =
    report_keyed fails (the_event event_type severity message (event_key event_type message cause))
      r

-- clear_event_cause
unfoldable pub clear_event_cause : String → EventReporter → EventReporter
clear_event_cause cause r = record r { event_causes = discard cause r.event_causes }
