-- ===== src/Agent/Outbox/Settlement.antt =====
-- What one drain settles: the results that it acknowledges or rejects are the ones that leave the
-- queue, from its head and in its order.
use mathlib.Core.List.{append-nil, append_assoc}
use time_weaver.Prelude.{
  ℕ, ◌≡◌, refl, sym, ap, ◌∙◌, Bool, true, false, Option, none, some, String, List, [], ◌∷◌, ◌++◌,
  map, arith, text_comparable, nat_comparable, Option-cases, inl, inr, same_refl, Result, ok, error,
}
use time_weaver.Agent.ApiErrors.{Exception, malformed}
use time_weaver.Agent.Envelope.{ResultEnvelope, OutboxItem}
use time_weaver.Agent.Outbox.{ResultOutbox, Effect, queue, emit, remove_head, update_backlog_latch}
use time_weaver.Agent.Outbox.Sending.{
  Action, emit_event_once, classify_failure, defer_group, deferred, begin_drain, finish_drain,
}
use time_weaver.Agent.RetryBackoff.{RetryBackoff, Delay}
use time_weaver.Agent.Outbox.Delivery.{
  Answer, normalized, to_send, settle, settle_failure, reject_item, act, retry_after_of, code_of,
  drain_loop, drain_group,
}
use time_weaver.Agent.Outbox.Fifo.{queue-drop_head}

-- The results that were acknowledged or rejected.
abbrev pub settled : List Effect → List ResultEnvelope
settled [] = []
settled (Effect.acknowledged e ts ∷ effects) = e ∷ settled effects
settled (Effect.rejected e code ∷ effects) = e ∷ settled effects
settled (_ ∷ effects) = settled effects

abbrev pub envelopes : List OutboxItem → List ResultEnvelope
envelopes = map (λ item. item.envelope)

settled-append : (xs ys : List Effect) → settled (xs ++ ys) ≡ settled xs ++ settled ys
settled-append [] ys = refl
settled-append (Effect.acknowledged e ts ∷ xs) ys = ap (◌∷◌ e) (settled-append xs ys)
settled-append (Effect.rejected e code ∷ xs) ys = ap (◌∷◌ e) (settled-append xs ys)
settled-append (_ ∷ xs) ys = settled-append xs ys

-- From one outbox to another, the named results were settled and left the queue.
pub record Settles (group : String) (o o' : ResultOutbox) (results : List ResultEnvelope)
    : Type 0 where
  pub told : settled o'.effects ≡ settled o.effects ++ results
  pub left : envelopes (queue group o) ≡ results ++ envelopes (queue group o')

Settles-trans :
    (group : String) (o o' o'' : ResultOutbox) (xs ys : List ResultEnvelope)
    → Settles group o o' xs
    → Settles group o' o'' ys
    → Settles group o o'' (xs ++ ys)
Settles-trans group o o' o'' xs ys s t = record {
  told = t.told ∙ rw (s.told, append_assoc);
  left = s.left ∙ rw (t.left, ← append_assoc);
}

Settles-nothing :
    (group : String) (o o' : ResultOutbox)
    → settled o'.effects ≡ settled o.effects
    → queue group o' ≡ queue group o
    → Settles group o o' []
Settles-nothing group o o' e q = record {
  told = e ∙ sym (append-nil (settled o.effects));
  left = ap envelopes (sym q);
}

effects-remove_head :
    (group : String) (item : OutboxItem) (o : ResultOutbox)
    → (remove_head group item o).effects ≡ o.effects
unfolding remove_head update_backlog_latch
effects-remove_head group item o = ground arith

pub queue-remove_head :
    (group : String) (item : OutboxItem) (rest : List OutboxItem) (o : ResultOutbox)
    → queue group o ≡ item ∷ rest
    → queue group (remove_head group item o) ≡ rest
unfolding remove_head
queue-remove_head group item rest o e =
    queue-drop_head group group item (queue group o) o refl
    ∙ rw (same_refl group, e, same_refl item.ident)

to_send-eq-some :
    (group : String) (o : ResultOutbox) {item : OutboxItem}
    → to_send group o ≡ some item
    → (rest : List OutboxItem) × (queue group o ≡ item ∷ rest)
unfolding to_send
to_send-eq-some group o e = ground arith

-- A result whose removal is told is settled.
Settles-told :
    (group : String) (item : OutboxItem) (rest : List OutboxItem) (o o' : ResultOutbox)
    → queue group o ≡ item ∷ rest
    → queue group o' ≡ rest
    → settled o'.effects ≡ settled o.effects ++ item.envelope ∷ []
    → Settles group o o' (item.envelope ∷ [])
Settles-told group item rest o o' q q' e = record { told = e; left = rw (q, q') }

emit_event_once-Settles :
    (group cause event_type severity message : String) (o : ResultOutbox)
    → Settles group o (emit_event_once cause event_type severity message o) []
emit_event_once-Settles group cause event_type severity message o =
    Settles-nothing group o _ effects same
  where
    effects :
        settled (emit_event_once cause event_type severity message o).effects ≡ settled o.effects
    effects =
        unfold emit_event_once in
        ground (
          arith,
          settled-append o.effects (Effect.reported event_type severity message cause ∷ []),
          append-nil (settled o.effects),
        )

    same : queue group (emit_event_once cause event_type severity message o) ≡ queue group o
    same = unfold emit_event_once in ground arith

finish_drain-Settles :
    (group : String) (o : ResultOutbox) → Settles group o (finish_drain group o) []
finish_drain-Settles group o = Settles-nothing group o _ effects same
  where
    effects : settled (finish_drain group o).effects ≡ settled o.effects
    effects =
        unfold finish_drain in
        ground (
          arith,
          settled-append o.effects (Effect.submitted group ∷ []),
          append-nil (settled o.effects),
        )

    same : queue group (finish_drain group o) ≡ queue group o
    same = unfold finish_drain in ground arith

classify_failure-Settles :
    (group : String) (exc : Exception) (o : ResultOutbox)
    → Settles group o (classify_failure exc o).1 []
unfolding classify_failure
classify_failure-Settles group (Exception.other name) o = Settles-nothing group o o refl refl
classify_failure-Settles group (Exception.api e) o =
    Settles-nothing group o _ (ground arith) (ground arith)

Settles-emit :
    (group : String) (effect : Effect) (o o' : ResultOutbox)
    → settled (effect ∷ []) ≡ []
    → o'.effects ≡ o.effects
    → queue group o' ≡ queue group o
    → Settles group o (emit effect o') []
Settles-emit group effect o o' untold same kept =
    Settles-nothing group o _
      (settled-append o'.effects (effect ∷ [])
        ∙ rw (untold, append-nil (settled o'.effects), same) refl)
      kept

deferred-Settles :
    (group : String) (r : RetryBackoff × Result String Delay) (o : ResultOutbox)
    → Settles group o (deferred group r o) []
deferred-Settles group (backoff, error name) o = Settles-emit group _ o _ refl refl refl
deferred-Settles group (backoff, ok delay) o = Settles-emit group _ o _ refl refl refl

defer_group-Settles :
    (group : String) (retry_after : Option ℕ) (draw : ℕ) (o : ResultOutbox)
    → Settles group o (defer_group group retry_after draw o) []
unfolding defer_group
defer_group-Settles group retry_after draw o = deferred-Settles group _ o

reject_item-Settles :
    (group : String) (item : OutboxItem) (code : String) (rest : List OutboxItem) (o : ResultOutbox)
    → queue group o ≡ item ∷ rest
    → Settles group o (reject_item group item code o) (item.envelope ∷ [])
reject_item-Settles group item code rest o q =
    let rejected = emit (Effect.rejected item.envelope code) (remove_head group item o) in
    Settles-trans group o rejected _ (item.envelope ∷ []) []
      (Settles-told group item rest o rejected q (queue-remove_head group item rest o q) (
        settled-append (remove_head group item o).effects (Effect.rejected item.envelope code ∷ [])
        ∙ rw (effects-remove_head group item o)))
      (emit_event_once-Settles group _ _ _ _ rejected)

-- What a round settles: the item, if it was acknowledged or rejected.
abbrev pub of_action : Action → OutboxItem → List ResultEnvelope
of_action Action.remove item = item.envelope ∷ []
of_action _ item = []

act-Settles :
    (action : Action) (group : String) (draw : ℕ) (item : OutboxItem) (exc : Exception)
    (rest : List OutboxItem) (o : ResultOutbox)
    → queue group o ≡ item ∷ rest
    → Settles group o (act action group draw item exc o).0 (of_action action item)
unfolding act
act-Settles Action.retry group draw item exc rest o q =
    defer_group-Settles group (retry_after_of exc) draw o
act-Settles Action.halt group draw item exc rest o q = Settles-nothing group o o refl refl
act-Settles Action.remove group draw item exc rest o q =
    reject_item-Settles group item (code_of exc) rest o q

queue-classify_failure :
    (group : String) (exc : Exception) (o : ResultOutbox)
    → queue group (classify_failure exc o).1 ≡ queue group o
unfolding classify_failure
queue-classify_failure group (Exception.other name) o = refl
queue-classify_failure group (Exception.api e) o = ground arith

settle_failure-Settles :
    (group : String) (draw : ℕ) (item : OutboxItem) (exc : Exception) (rest : List OutboxItem)
    (o : ResultOutbox)
    → queue group o ≡ item ∷ rest
    → Settles group o
        (settle_failure group draw item exc o).0
        (of_action (classify_failure exc o).0 item)
settle_failure-Settles group draw item exc rest o q =
    let (action, o') = classify_failure exc o in
    let acted =
      act-Settles action group draw item exc rest o' (queue-classify_failure group exc o ∙ q) in
    unfold settle_failure in
    Settles-trans group o o' _ [] (of_action action item) (classify_failure-Settles group exc o)
      acted

-- The results that a round settles.
abbrev pub of_answer : Answer → OutboxItem → ResultOutbox → List ResultEnvelope
of_answer (Answer.replied ts) item o = item.envelope ∷ []
of_answer Answer.unreadable item o = of_action (classify_failure (Exception.api malformed) o).0 item
of_answer (Answer.raised exc) item o = of_action (classify_failure exc o).0 item

settle-Settles :
    (group : String) (draw : ℕ) (item : OutboxItem) (answer : Answer) (rest : List OutboxItem)
    (o : ResultOutbox)
    → queue group o ≡ item ∷ rest
    → Settles group o (settle group draw item answer o).0 (of_answer answer item o)
unfolding settle
settle-Settles group draw item (Answer.replied ts) rest o q =
    Settles-told group item rest o _ q (queue-remove_head group item rest o q) (
      settled-append (remove_head group item o).effects
        (Effect.acknowledged item.envelope (normalized ts) ∷ [])
      ∙ rw (effects-remove_head group item o))
settle-Settles group draw item Answer.unreadable rest o q =
    settle_failure-Settles group draw item (Exception.api malformed) rest o q
settle-Settles group draw item (Answer.raised exc) rest o q =
    settle_failure-Settles group draw item exc rest o q

-- The results that a run of the loop settles, round by round.
pub settled_by : String → ℕ → List Answer → ResultOutbox → List ResultEnvelope
settled_by group draw [] o = []
settled_by group draw (answer ∷ answers) o = elim (to_send group o) [
  | none ↦ []
  | some item ↦
      let (o', goes_on) = settle group draw item answer o in
      of_answer answer item o
      ++ elim goes_on [ true ↦ settled_by group draw answers o' | false ↦ [] ]
]

-- Going on after a round, or finishing.
resumed :
    (group : String) (o : ResultOutbox) (goes_on : Bool) (o' : ResultOutbox)
    (results : List ResultEnvelope)
    → Settles group o o' results
    → Settles group o
        (elim goes_on [ true ↦ o' | false ↦ finish_drain group o ])
        (elim goes_on [ true ↦ results | false ↦ [] ])
resumed group o true o' results s = s
resumed group o false o' results s = finish_drain-Settles group o

drain_loop-Settles :
    (group : String) (draw : ℕ) (answers : List Answer) (o : ResultOutbox)
    → Settles group o (drain_loop group draw answers o) (settled_by group draw answers o)
unfolding drain_loop settled_by
drain_loop-Settles group draw [] o = elim (Option-cases (to_send group o)) [
  | inl stop ↦ rw (stop, drain_loop) (finish_drain-Settles group o)
  | inr (item, e) ↦ rw (e, drain_loop) (Settles-nothing group o o refl refl)
]
drain_loop-Settles group draw (answer ∷ answers) o = elim (Option-cases (to_send group o)) [
  | inl stop ↦ rw (stop, drain_loop, settled_by) (finish_drain-Settles group o)
  | inr (item, e) ↦
      let (rest, q) = to_send-eq-some group o e in
      let o' = (settle group draw item answer o).0 in
      rw (e, drain_loop, settled_by)
        (Settles-trans group o o' _ (of_answer answer item o) _
          (settle-Settles group draw item answer rest o q)
          (resumed group o' (settle group draw item answer o).1 _ _
            (drain_loop-Settles group draw answers o')))
]

-- One drain of a group, of an outbox that is not closed, settles results from the head of the queue
-- on: the results that it tells as acknowledged or rejected, in order, are those that left the queue,
-- and the others stay in it.
pub drain_group-Settles :
    (group : String) (draw : ℕ) (answers : List Answer) (o : ResultOutbox)
    → o.closed ≡ false
    → Settles group o
        (drain_group group draw answers o)
        (settled_by group draw answers (begin_drain group o).0)
drain_group-Settles group draw answers o open_ =
    let begun = (begin_drain group o).0 in
    Settles-trans group o begun _ [] (settled_by group draw answers begun)
      (unfold begin_drain in Settles-nothing group o _ (rw open_) (rw open_))
      (unfold drain_group in rw (open_, begin_drain) (drain_loop-Settles group draw answers _))
