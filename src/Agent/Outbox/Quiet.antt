-- ===== src/Agent/Outbox/Quiet.antt =====
-- The sections of the outbox that leave its counters and its queues alone.
use time_weaver.Prelude.{
  ℕ, ◌≡◌, refl, Bool, String, List, [], ◌∷◌, Dict, arith, ◌∙◌, Result, ok, error,
}
use time_weaver.Agent.ApiErrors.{Exception}
use time_weaver.Agent.Envelope.{OutboxItem}
use time_weaver.Agent.Outbox.{OutboxSettings, ResultOutbox, schedule_group}
use time_weaver.Agent.Outbox.Sending.{
  emit_event_once, classify_failure, defer_group, retry_group, begin_drain, finish_drain,
  close_section, deferred, wake, wake_all,
}
use time_weaver.Agent.RetryBackoff.{RetryBackoff, Delay}
use time_weaver.Agent.Outbox.Sections.{Section, perform}

-- The part of the outbox that the counters are about.
pub record Core : Type 0 where
  pub settings : OutboxSettings
  pub queues : Dict String (List OutboxItem)
  pub reserved : ℕ
  pub queued : ℕ
  pub latched : Bool

abbrev pub core : ResultOutbox → Core
core o = record {
  settings = o.settings;
  queues = o.queues;
  reserved = o.reserved_slots;
  queued = o.queued_results;
  latched = o.backlog_latched;
}

schedule_group-core : (group : String) (o : ResultOutbox) → core (schedule_group group o) ≡ core o
unfolding schedule_group
schedule_group-core group o = ground arith

wake_all-core :
    (qs : Dict String (List OutboxItem)) (o : ResultOutbox) → core (wake_all qs o) ≡ core o
unfolding wake_all
wake_all-core [] o = refl
wake_all-core ((group, q) ∷ qs) o = wake_all-core qs _ ∙ ground (arith, schedule_group-core group o)

begin_drain-core : (group : String) (o : ResultOutbox) → core (begin_drain group o).0 ≡ core o
unfolding begin_drain
begin_drain-core group o = ground arith

finish_drain-core : (group : String) (o : ResultOutbox) → core (finish_drain group o) ≡ core o
unfolding finish_drain
finish_drain-core group o = ground arith

retry_group-core : (group : String) (o : ResultOutbox) → core (retry_group group o) ≡ core o
unfolding retry_group
retry_group-core group o = ground arith

emit_event_once-core :
    (cause event_type severity message : String) (o : ResultOutbox)
    → core (emit_event_once cause event_type severity message o) ≡ core o
unfolding emit_event_once
emit_event_once-core cause event_type severity message o = ground arith

classify_failure-core :
    (exc : Exception) (o : ResultOutbox) → core (classify_failure exc o).1 ≡ core o
unfolding classify_failure
classify_failure-core (Exception.other name) o = refl
classify_failure-core (Exception.api e) o = ground arith

deferred-core :
    (group : String) (r : RetryBackoff × Result String Delay) (o : ResultOutbox)
    → core (deferred group r o) ≡ core o
deferred-core group (backoff, error name) o = refl
deferred-core group (backoff, ok delay) o = refl

-- The sections that touch neither the counters nor the queues.
abbrev pub IsQuiet : Section → Type 0
IsQuiet Section.reserves = ⊥
IsQuiet Section.releases = ⊥
IsQuiet (Section.enqueues _) = ⊥
IsQuiet (Section.removes _ _) = ⊥
IsQuiet _ = Unit

pub quiet-core : (s : Section) (o : ResultOutbox) → IsQuiet s → core (perform s o) ≡ core o
unfolding perform wake close_section defer_group
quiet-core Section.closes o q = refl
quiet-core Section.wakes o q = wake_all-core o.queues o
quiet-core (Section.schedules group) o q = schedule_group-core group o
quiet-core (Section.begins group) o q = begin_drain-core group o
quiet-core (Section.finishes group) o q = finish_drain-core group o
quiet-core (Section.forgets group) o q = refl
quiet-core (Section.retries group) o q = retry_group-core group o
quiet-core (Section.emits cause event_type severity message) o q =
    emit_event_once-core cause event_type severity message o
quiet-core (Section.classifies exc) o q = classify_failure-core exc o
quiet-core (Section.defers group retry_after draw) o q = deferred-core group _ o
quiet-core Section.reserves o q = absurd q
quiet-core Section.releases o q = absurd q
quiet-core (Section.enqueues envelope) o q = absurd q
quiet-core (Section.removes group item) o q = absurd q
