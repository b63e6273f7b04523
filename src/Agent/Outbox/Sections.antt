-- ===== src/Agent/Outbox/Sections.antt =====
-- The sections of the outbox that threads run under its lock, and their interleavings.
use time_weaver.Prelude.{ℕ, Bool, Option, String, List, [], ◌∷◌, Result, ok, error}
use time_weaver.Agent.ApiErrors.{Exception}
use time_weaver.Agent.Envelope.{ResultEnvelope, OutboxItem}
use time_weaver.Agent.Outbox.{
  ResultOutbox, reserve_section, release_slot, enqueue_section, schedule_group, remove_head,
}
use time_weaver.Agent.Outbox.Sending.{
  emit_event_once, classify_failure, defer_group, retry_group, begin_drain, finish_drain,
  forget_backoff, close_section, wake,
}

-- A section that some thread runs.
pub data Section : Type 0 where
  reserves releases closes wakes : Section
  enqueues : ResultEnvelope → Section
  schedules begins finishes forgets retries : (group : String) → Section
  removes : (group : String) → OutboxItem → Section
  emits : (cause event_type severity message : String) → Section
  classifies : Exception → Section
  defers : (group : String) → Option ℕ → (draw : ℕ) → Section

abbrev or_same : Result String ResultOutbox → ResultOutbox → ResultOutbox
or_same (ok o') o = o'
or_same (error e) o = o

abbrev or_same_pair : Result String (ResultOutbox × Bool) → ResultOutbox → ResultOutbox
or_same_pair (ok (o', b)) o = o'
or_same_pair (error e) o = o

-- The outbox after a section; one that raises leaves it as it was.
unfoldable pub perform : Section → ResultOutbox → ResultOutbox
perform Section.reserves o = (reserve_section o).0
perform Section.releases o = or_same (release_slot o) o
perform Section.closes o = close_section o
perform Section.wakes o = wake o
perform (Section.enqueues envelope) o = or_same_pair (enqueue_section envelope o) o
perform (Section.schedules group) o = schedule_group group o
perform (Section.begins group) o = (begin_drain group o).0
perform (Section.finishes group) o = finish_drain group o
perform (Section.forgets group) o = forget_backoff group o
perform (Section.retries group) o = retry_group group o
perform (Section.removes group item) o = remove_head group item o
perform (Section.emits cause event_type severity message) o =
    emit_event_once cause event_type severity message o
perform (Section.classifies exc) o = (classify_failure exc o).1
perform (Section.defers group retry_after draw) o = defer_group group retry_after draw o

abbrev pub interleave : List Section → ResultOutbox → ResultOutbox
interleave [] o = o
interleave (s ∷ ss) o = interleave ss (perform s o)
