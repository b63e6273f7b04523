-- ===== src/Agent/Outbox/Progress.antt =====
-- A server that answers drains the queue.
use mathlib.Core.List.{append-nil}
use time_weaver.Prelude.{
  ℕ, ◌≤◌, ◌≡◌, refl, sym, ap, ◌∙◌, false, Option, none, some, String, List, [], ◌∷◌, ◌++◌, map,
  arith, length, add, text_comparable,
}
use time_weaver.Agent.Envelope.{OutboxItem}
use time_weaver.Agent.Outbox.{
  ResultOutbox, Effect, Transition, emit, queue, is_halted, remove_head, update_backlog_latch,
}
use time_weaver.Agent.Outbox.Sending.{begin_drain, finish_drain, forget_backoff}
use time_weaver.Agent.Outbox.Delivery.{Answer, normalized, to_send, drain_loop, drain_group}
use time_weaver.Agent.Outbox.Settlement.{
  settled, envelopes, Settles, queue-remove_head, drain_group-Settles, settled_by,
}

abbrev pub Replies : Type 0
Replies = List (Option (List (Option Transition)))

abbrev pub replies : Replies → List Answer
replies = map Answer.replied

-- Neither closed nor halted.
pub record IsSending (o : ResultOutbox) : Type 0 where
  pub open_ : o.closed ≡ false
  pub running : is_halted o ≡ false

to_send-nil : (group : String) (o : ResultOutbox) → queue group o ≡ [] → to_send group o ≡ none
unfolding to_send
to_send-nil group o e = ground arith

to_send-cons :
    (group : String) (o : ResultOutbox) {item : OutboxItem} {rest : List OutboxItem}
    → IsSending o
    → queue group o ≡ item ∷ rest
    → to_send group o ≡ some item
unfolding to_send
to_send-cons group o h e = ground arith

remove_head-IsSending :
    (group : String) (item : OutboxItem) (o : ResultOutbox)
    → IsSending o
    → IsSending (remove_head group item o)
unfolding remove_head update_backlog_latch
remove_head-IsSending group item o h = record { open_ = ground arith; running = ground arith }

queue-finish_drain :
    (group : String) (o : ResultOutbox) → queue group (finish_drain group o) ≡ queue group o
unfolding finish_drain
queue-finish_drain group o = ground arith

drain_loop-empties :
    (group : String) (draw : ℕ) (answers : Replies) (o : ResultOutbox) (q : List OutboxItem)
    → queue group o ≡ q
    → IsSending o
    → length q ≤ length answers
    → queue group (drain_loop group draw (replies answers) o) ≡ []
unfolding drain_loop
drain_loop-empties group draw [] o [] e h l =
    rw (to_send-nil group o e, drain_loop) (queue-finish_drain group o ∙ e)
drain_loop-empties group draw (a ∷ answers) o [] e h l =
    rw (to_send-nil group o e, drain_loop) (queue-finish_drain group o ∙ e)
drain_loop-empties group draw [] o (item ∷ rest) e h l = absurd (omega arith)
drain_loop-empties group draw (a ∷ answers) o (item ∷ rest) e h l =
    let kept = remove_head-IsSending group item o h in
    rw (to_send-cons group o h e, drain_loop)
      (drain_loop-empties group draw answers
        (emit (Effect.acknowledged item.envelope (normalized a))
          (forget_backoff group (remove_head group item o)))
        rest (queue-remove_head group item rest o e)
        (record { open_ = kept.open_; running = kept.running }) (omega arith))

drain_group_open :
    (group : String) (draw : ℕ) (answers : List Answer) (o : ResultOutbox)
    → o.closed ≡ false
    → drain_group group draw answers o
      ≡ drain_loop group draw answers (record o { sending_groups = add group o.sending_groups })
unfolding drain_group begin_drain
drain_group_open group draw answers o h = ground arith

drained :
    (group : String) (draw : ℕ) (answers : Replies) (o : ResultOutbox)
    → IsSending o
    → length (queue group o) ≤ length answers
    → queue group (drain_group group draw (replies answers) o) ≡ []
drained group draw answers o h enough =
    rw (drain_group_open group draw (replies answers) o h.open_) (
      drain_loop-empties group draw answers
        (record o { sending_groups = add group o.sending_groups }) (queue group o) refl
        (record { open_ = h.open_; running = h.running }) enough)

-- If the outbox is neither closed nor halted and the server acknowledges as many requests as the
-- group has results, a drain leaves no result of the group and has told of each, in their order.
pub drain_group-delivers :
    (group : String) (draw : ℕ) (answers : Replies) (o : ResultOutbox)
    → IsSending o
    → length (queue group o) ≤ length answers
    → (queue group (drain_group group draw (replies answers) o) ≡ [])
      × (settled (drain_group group draw (replies answers) o).effects
          ≡ settled o.effects ++ envelopes (queue group o))
drain_group-delivers group draw answers o h enough =
    (empties, s.told ∙ ap (λ r. settled o.effects ++ r) all)
  where
    o' : ResultOutbox
    o' = drain_group group draw (replies answers) o

    empties : queue group o' ≡ []
    empties = drained group draw answers o h enough

    s : Settles group o o' (settled_by group draw (replies answers) (begin_drain group o).0)
    s = drain_group-Settles group draw (replies answers) o h.open_

    all :
        settled_by group draw (replies answers) (begin_drain group o).0 ≡ envelopes (queue group o)
    all = sym (s.left ∙ rw (empties, append-nil))
