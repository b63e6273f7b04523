-- ===== src/Agent/Outbox/Fifo.antt =====
-- Each queue is first in, first out, under any interleaving: nothing is lost, made up or reordered.
use mathlib.Core.List.{append-nil, append_assoc}
use time_weaver.Prelude.{
  ◌≡◌, refl, sym, ap, some, String, List, [], ◌∷◌, ◌++◌, arith, get, get-put, get-pop, ◌==◌,
  if◌then◌else◌, text_comparable, nat_comparable, leb, Bool-cases, inl, inr, eq_iff,
}
use time_weaver.Agent.Envelope.{ResultEnvelope, OutboxItem, bounded_envelope}
use time_weaver.Agent.Outbox.{
  ResultOutbox, queue, or_empty, new_item, drop_head, shortened, update_backlog_latch,
  reserve_section, release_slot, enqueue_section, remove_head,
}
use time_weaver.Agent.Outbox.Sections.{Section, perform, interleave}
use time_weaver.Agent.Outbox.Quiet.{quiet-core}

-- What a section appends to the group's queue.
abbrev pub appended : String → Section → ResultOutbox → List OutboxItem
appended group (Section.enqueues e) o =
    if leb o.reserved_slots 0
    then []
    else if (bounded_envelope e).execution_grp_id == group
    then new_item e o ∷ []
    else []
appended group s o = []

-- What a section takes off the group's queue.
abbrev head_if : OutboxItem → List OutboxItem → List OutboxItem
head_if expected [] = []
head_if expected (item ∷ rest) = if item.ident == expected.ident then item ∷ [] else []

abbrev pub taken : String → Section → ResultOutbox → List OutboxItem
taken group (Section.removes g expected) o =
    if g == group then head_if expected (queue group o) else []
taken group s o = []

abbrev pub appended_along : String → List Section → ResultOutbox → List OutboxItem
appended_along group [] o = []
appended_along group (s ∷ ss) o = appended group s o ++ appended_along group ss (perform s o)

abbrev pub taken_along : String → List Section → ResultOutbox → List OutboxItem
taken_along group [] o = []
taken_along group (s ∷ ss) o = taken group s o ++ taken_along group ss (perform s o)

queue-latch :
    (group : String) (o : ResultOutbox) → queue group (update_backlog_latch o).0 ≡ queue group o
unfolding update_backlog_latch
queue-latch group o = ground arith

queue-reserve :
    (group : String) (o : ResultOutbox) → queue group (reserve_section o).0 ≡ queue group o
unfolding reserve_section
queue-reserve group o = ground arith

queue-release :
    (group : String) (o : ResultOutbox) → queue group (perform Section.releases o) ≡ queue group o
unfolding perform release_slot
queue-release group o = ground arith

queue_snoc_if :
    (g group : String) (item : OutboxItem) (o : ResultOutbox)
    → or_empty (if g == group then some (queue g o ++ item ∷ []) else get group o.queues)
      ≡ queue group o ++ (if g == group then item ∷ [] else [])
queue_snoc_if g group item o = elim (Bool-cases (g == group)) [
  | inl same ↦ rw (same, (eq_iff g group).0 same)
  | inr other ↦ rw (other, append-nil)
]

queue-enqueue :
    (group : String) (e : ResultEnvelope) (o : ResultOutbox)
    → queue group (perform (Section.enqueues e) o)
      ≡ queue group o ++ appended group (Section.enqueues e) o
unfolding perform enqueue_section
queue-enqueue group e o = elim (Bool-cases (leb o.reserved_slots 0)) [
  | inl nothing ↦ rw (nothing, append-nil)
  | inr room ↦
      rw (room, queue-latch, get-put)
        (queue_snoc_if (bounded_envelope e).execution_grp_id group (new_item e o) o)
]

queue-shortened :
    (group g : String) (item : OutboxItem) (rest : List OutboxItem) (o : ResultOutbox)
    → queue g o ≡ item ∷ rest
    → or_empty (get group (shortened g rest o)) ≡ (if g == group then rest else queue group o)
queue-shortened group g item [] o e = rw get-pop (ground arith)
queue-shortened group g item (x ∷ rest) o e = rw get-put (ground arith)

-- What stays of a queue whose head leaves if it is the expected one.
abbrev pub rest_if : OutboxItem → List OutboxItem → List OutboxItem
rest_if expected [] = []
rest_if expected (item ∷ rest) = if item.ident == expected.ident then rest else item ∷ rest

queue_of_same :
    (g group : String) (o : ResultOutbox) {q : List OutboxItem}
    → queue g o ≡ q
    → queue group o ≡ (if g == group then q else queue group o)
queue_of_same g group o e = elim (Bool-cases (g == group)) [
  | inl same ↦ rw (same, ← (eq_iff g group).0 same) e
  | inr other ↦ rw other
]

pub queue-drop_head :
    (group g : String) (expected : OutboxItem) (q : List OutboxItem) (o : ResultOutbox)
    → queue g o ≡ q
    → queue group (drop_head g expected q o)
      ≡ (if g == group then rest_if expected q else queue group o)
queue-drop_head group g expected [] o e = queue_of_same g group o e
queue-drop_head group g expected (item ∷ rest) o e =
    elim (Bool-cases (item.ident == expected.ident)) [
      | inl same ↦ rw (same, queue-latch) (queue-shortened group g item rest o e)
      | inr other ↦ rw other (queue_of_same g group o e)
    ]

head_if-append-rest_if :
    (expected : OutboxItem) (q : List OutboxItem) → q ≡ head_if expected q ++ rest_if expected q
head_if-append-rest_if expected [] = refl
head_if-append-rest_if expected (item ∷ rest) = ground arith

queue-remove :
    (group g : String) (expected : OutboxItem) (o : ResultOutbox)
    → queue group o
      ≡ taken group (Section.removes g expected) o ++ queue group (remove_head g expected o)
unfolding remove_head
queue-remove group g expected o =
    rw (queue-drop_head group g expected (queue g o) o refl) (elim (Bool-cases (g == group)) [
      | inl same ↦
          rw (same, (eq_iff g group).0 same) (head_if-append-rest_if expected (queue group o))
      | inr other ↦ rw other
    ])

-- One section: what was queued, with what it appends, is what it takes, with what is queued then.
pub queue-perform :
    (group : String) (s : Section) (o : ResultOutbox)
    → queue group o ++ appended group s o ≡ taken group s o ++ queue group (perform s o)
queue-perform group Section.reserves o =
    rw append-nil (unfold perform in sym (queue-reserve group o))
queue-perform group Section.releases o = rw append-nil (sym (queue-release group o))
queue-perform group (Section.enqueues e) o = sym (queue-enqueue group e o)
queue-perform group (Section.removes g item) o =
    rw append-nil (unfold perform in queue-remove group g item o)
queue-perform group s o =
    rw append-nil (ap (λ c. or_empty (get group c.queues)) (sym (quiet-core s o tt)))

-- Under any interleaving of sections, the results that were in a group's queue, followed by those
-- enqueued since, are those that left it, followed by those that are in it, each in its order.
pub queue-interleave :
    (group : String) (ss : List Section) (o : ResultOutbox)
    → queue group o ++ appended_along group ss o
      ≡ taken_along group ss o ++ queue group (interleave ss o)
queue-interleave group [] o = rw append-nil
queue-interleave group (s ∷ ss) o =
    rw (← append_assoc, queue-perform group s o, append_assoc)
      (rw (queue-interleave group ss (perform s o)) (
        sym (
          append_assoc (taken group s o) (taken_along group ss (perform s o))
            (queue group (interleave ss (perform s o))))))
