-- ===== src/Agent/Outbox/Delivery.antt =====
-- The methods of ResultOutbox as one thread runs them, with what the server answers as an argument.
use time_weaver.Prelude.{
  ℕ, Bool, true, false, ◌||◌, Option, none, some, String, List, [], ◌∷◌, if◌then◌else◌, Result, ok,
  error, text_append,
}
use time_weaver.Agent.ApiErrors.{Exception, malformed}
use time_weaver.Agent.Envelope.{ResultEnvelope, OutboxItem}
use time_weaver.Agent.Outbox.{
  ResultOutbox, Effect, Transition, queue, is_halted, emit, reserve_section, enqueue_section,
  schedule_group, remove_head, new_item,
}
use time_weaver.Agent.Outbox.Sending.{
  Action, emit_event_once, emit_backlog, classify_failure, defer_group, begin_drain, finish_drain,
  forget_backoff,
}

-- ResultOutbox.reserve_slot
unfoldable pub reserve_slot : ResultOutbox → ResultOutbox × Bool
unfolding reserve_section emit_backlog
reserve_slot o =
    let (o', (reserved, emits)) = reserve_section o in
    ((if emits then emit_backlog o' else o'), reserved)

-- ResultOutbox.enqueue
unfoldable pub enqueue : ResultEnvelope → ResultOutbox → Result String (ResultOutbox × OutboxItem)
unfolding enqueue_section emit_backlog schedule_group
enqueue envelope o = elim (enqueue_section envelope o) [
  | error e ↦ error e
  | ok (o', emits) ↦
      let item = new_item envelope o in
      ok (
        schedule_group item.envelope.execution_grp_id (if emits then emit_backlog o' else o'),
        item,
      )
]

-- What a request comes back with: a mapping with its transitions, if these are a list, those that
-- are mappings; another value; or an exception of the token provider or of the client.
pub data Answer : Type 0 where
  replied : Option (List (Option Transition)) → Answer
  unreadable : Answer
  raised : Exception → Answer

abbrev mappings : List (Option Transition) → List Transition
mappings [] = []
mappings (none ∷ ts) = mappings ts
mappings (some t ∷ ts) = t ∷ mappings ts

abbrev pub normalized : Option (List (Option Transition)) → List Transition
normalized none = []
normalized (some ts) = mappings ts

abbrev pub code_of : Exception → String
code_of (Exception.api e) = e.code
code_of (Exception.other name) = "invalid_request"

abbrev pub retry_after_of : Exception → Option ℕ
retry_after_of (Exception.api e) = e.retry_after
retry_after_of (Exception.other name) = none

abbrev pub first : List OutboxItem → Option OutboxItem
first [] = none
first (item ∷ rest) = some item

-- The head of the queue, unless the loop returns before a request.
unfoldable pub to_send : String → ResultOutbox → Option OutboxItem
to_send group o = if o.closed || is_halted o then none else first (queue group o)

-- A rejected item leaves, and its rejection is told and reported.
abbrev pub reject_item : String → OutboxItem → String → ResultOutbox → ResultOutbox
reject_item group item code o =
    emit_event_once
      (text_append "result:" (text_append code (text_append ":" item.idempotency_key))) "sync_error"
      "error" (text_append "Execution result was permanently rejected (" (text_append code ")."))
      (emit (Effect.rejected item.envelope code) (remove_head group item o))

-- What the loop does on each action of a failure: the outbox, and whether the loop goes on.
unfoldable pub act :
    Action → String → ℕ → OutboxItem → Exception → ResultOutbox → ResultOutbox × Bool
unfolding defer_group emit_event_once remove_head
act Action.retry group draw item exc o = (defer_group group (retry_after_of exc) draw o, false)
act Action.halt group draw item exc o = (o, false)
act Action.remove group draw item exc o = (reject_item group item (code_of exc) o, true)

-- One exception in the loop of _drain_group.
unfoldable pub settle_failure :
    String → ℕ → OutboxItem → Exception → ResultOutbox → ResultOutbox × Bool
unfolding classify_failure act
settle_failure group draw item exc o =
    let (action, o') = classify_failure exc o in act action group draw item exc o'

-- One round of the loop of _drain_group, after the request for the item.
unfoldable pub settle : String → ℕ → OutboxItem → Answer → ResultOutbox → ResultOutbox × Bool
unfolding settle_failure remove_head
settle group draw item (raised exc) o = settle_failure group draw item exc o
settle group draw item unreadable o = settle_failure group draw item (Exception.api malformed) o
settle group draw item (replied ts) o = (
  emit (Effect.acknowledged item.envelope (normalized ts))
      (forget_backoff group (remove_head group item o)),
  true,
)

-- The loop of _drain_group and its `finally`. When the answers run out, a request is pending.
unfoldable pub drain_loop : String → ℕ → List Answer → ResultOutbox → ResultOutbox
unfolding to_send settle finish_drain
drain_loop group draw [] o = elim (to_send group o) [ none ↦ finish_drain group o | some item ↦ o ]
drain_loop group draw (answer ∷ answers) o = elim (to_send group o) [
  | none ↦ finish_drain group o
  | some item ↦
      let (o', goes_on) = settle group draw item answer o in
      elim goes_on [ true ↦ drain_loop group draw answers o' | false ↦ finish_drain group o' ]
]

-- ResultOutbox._drain_group
unfoldable pub drain_group : String → ℕ → List Answer → ResultOutbox → ResultOutbox
unfolding begin_drain drain_loop
drain_group group draw answers o =
    let (o', goes_on) = begin_drain group o in
    if goes_on then drain_loop group draw answers o' else o'
