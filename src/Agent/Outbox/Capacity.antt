-- ===== src/Agent/Outbox/Capacity.antt =====
-- The counters of the outbox along any interleaving of its sections.
use mathlib.Core.Path.{subst}
use time_weaver.Prelude.{
  ◌+◌, ◌≤◌, ◌<◌, ◌≡◌, refl, sym, Bool, true, false, Option, none, some, String, List, [], ◌∷◌,
  arith, Distinct, put-Distinct, pop-Distinct, total, total-put, total-pop, length, ok, get,
  text_comparable, length-append, ◌++◌, length_at, ap, Bool-cases, inl, inr, ◌-◌, ◌||◌, leb, not,
  ◌==◌, nat_comparable,
}
use time_weaver.Agent.Envelope.{ResultEnvelope, OutboxItem, bounded_envelope}
use time_weaver.Agent.OperatingState.{OperatingStateManager}
use time_weaver.Agent.Outbox.{
  OutboxSettings, ResultOutbox, new_outbox, size, queue, update_backlog_latch, reserve_section,
  release_slot, enqueue_section, remove_head, new_item, drop_head, or_empty, shortened, fresh,
}
use time_weaver.Agent.Outbox.Sections.{Section, perform, interleave}
use time_weaver.Agent.Outbox.Quiet.{Core, core, quiet-core}

-- The counters fit: what is queued is counted, and reservations and queues keep to the capacity.
record Counts (c : Core) : Type 0 where
  low : c.settings.low_watermark < c.settings.high_watermark
  high : c.settings.high_watermark ≤ c.settings.capacity
  distinct : Distinct c.queues
  counted : c.queued ≡ total c.queues
  bounded : c.reserved + c.queued ≤ c.settings.capacity

-- And the backlog latch is on above the high watermark and off below the low one.
pub record IsCounted (c : Core) : Type 0 where
  pub low : c.settings.low_watermark < c.settings.high_watermark
  pub high : c.settings.high_watermark ≤ c.settings.capacity
  pub distinct : Distinct c.queues
  pub counted : c.queued ≡ total c.queues
  pub bounded : c.reserved + c.queued ≤ c.settings.capacity
  pub latched : c.latched ≡ true → c.settings.low_watermark ≤ c.reserved + c.queued
  pub unlatched : c.latched ≡ false → c.reserved + c.queued < c.settings.high_watermark

abbrev pub IsValid : ResultOutbox → Type 0
IsValid o = IsCounted (core o)

abbrev with_latch : Bool → Core → Core
with_latch b c = record c { latched = b }

with_latch-IsCounted :
    (c : Core) (b : Bool)
    → Counts c
    → (b ≡ true → c.settings.low_watermark ≤ c.reserved + c.queued)
    → (b ≡ false → c.reserved + c.queued < c.settings.high_watermark)
    → IsCounted (with_latch b c)
with_latch-IsCounted c b k on off = record {
  low = k.low;
  high = k.high;
  distinct = k.distinct;
  counted = k.counted;
  bounded = k.bounded;
  latched = on;
  unlatched = off;
}

-- The latch that an update leaves.
abbrev latch_after : ResultOutbox → Bool
latch_after o = (update_backlog_latch o).0.backlog_latched

latch-core :
    (o : ResultOutbox) → core (update_backlog_latch o).0 ≡ with_latch (latch_after o) (core o)
unfolding update_backlog_latch
latch-core o = ground arith

latch_on :
    (o : ResultOutbox)
    → o.settings.low_watermark < o.settings.high_watermark
    → latch_after o ≡ true
    → o.settings.low_watermark ≤ size o
unfolding update_backlog_latch
latch_on o h e = ground arith

latch_off :
    (o : ResultOutbox)
    → o.settings.low_watermark < o.settings.high_watermark
    → latch_after o ≡ false
    → size o < o.settings.high_watermark
unfolding update_backlog_latch
latch_off o h e = ground arith

-- Updating the latch leaves the counters alone and puts the latch right.
latch-IsValid : (o : ResultOutbox) → Counts (core o) → IsValid (update_backlog_latch o).0
latch-IsValid o c =
    subst IsCounted (sym (latch-core o))
      (with_latch-IsCounted (core o) (latch_after o) c (latch_on o c.low) (latch_off o c.low))

reserve_section-IsValid : (o : ResultOutbox) → IsValid o → IsValid (reserve_section o).0
unfolding reserve_section
reserve_section-IsValid o v = elim (Bool-cases (o.closed || leb o.settings.capacity (size o))) [
  | inl full ↦ rw full v
  | inr room ↦ rw room (
      latch-IsValid (record o { reserved_slots = o.reserved_slots + 1 })
        (record {
          low = v.low;
          high = v.high;
          distinct = v.distinct;
          counted = v.counted;
          bounded = ground arith;
        }))
]

release_slot-IsValid : (o : ResultOutbox) → IsValid o → IsValid (perform Section.releases o)
unfolding perform release_slot
release_slot-IsValid o v = elim (Bool-cases (leb o.reserved_slots 0)) [
  | inl nothing ↦ rw nothing v
  | inr some_slot ↦ rw some_slot (
      latch-IsValid (record o { reserved_slots = o.reserved_slots - 1 })
        (record {
          low = v.low;
          high = v.high;
          distinct = v.distinct;
          counted = v.counted;
          bounded = ground arith;
        }))
]

enqueue_section-IsValid :
    (envelope : ResultEnvelope) (o : ResultOutbox)
    → IsValid o
    → IsValid (perform (Section.enqueues envelope) o)
unfolding perform enqueue_section
enqueue_section-IsValid envelope o v = elim (Bool-cases (leb o.reserved_slots 0)) [
  | inl nothing ↦ rw nothing v
  | inr some_slot ↦ rw some_slot (
      let group = (bounded_envelope envelope).execution_grp_id in
      let q = queue group o ++ new_item envelope o ∷ [] in
      latch-IsValid _ (record {
        low = v.low;
        high = v.high;
        distinct = put-Distinct group q o.queues v.distinct;
        counted = ground (
          arith,
          v.counted,
          total-put group q o.queues,
          length-append (queue group o) (new_item envelope o ∷ []),
        );
        bounded = ground arith;
      }))
]

shortened-Distinct :
    (group : String) (rest : List OutboxItem) (o : ResultOutbox)
    → Distinct o.queues
    → Distinct (shortened group rest o)
shortened-Distinct group [] o d = pop-Distinct group o.queues d
shortened-Distinct group (x ∷ rest) o d = put-Distinct group (x ∷ rest) o.queues d

length_at-or_empty : (q : Option (List OutboxItem)) → length_at q ≡ length (or_empty q)
length_at-or_empty none = refl
length_at-or_empty (some q) = refl

total-shortened :
    (group : String) (item : OutboxItem) (rest : List OutboxItem) (o : ResultOutbox)
    → Distinct o.queues
    → queue group o ≡ item ∷ rest
    → total (shortened group rest o) + 1 ≡ total o.queues
total-shortened group item [] o d e =
    omega (arith, total-pop group o.queues d, length_at-or_empty (get group o.queues), ap length e)
total-shortened group item (x ∷ rest) o d e = omega (
  arith,
  total-put group (x ∷ rest) o.queues,
  length_at-or_empty (get group o.queues),
  ap length e,
)

remove_head-IsValid :
    (group : String) (expected : OutboxItem) (o : ResultOutbox)
    → IsValid o
    → IsValid (remove_head group expected o)
unfolding remove_head
remove_head-IsValid group expected o v = go (queue group o) refl
  where
    go : (q : List OutboxItem) → queue group o ≡ q → IsValid (drop_head group expected q o)
    go [] e = v
    go (item ∷ rest) e = elim (Bool-cases (not (item.ident == expected.ident))) [
      | inl other ↦ rw other v
      | inr same ↦ rw same (
          latch-IsValid _ (record {
            low = v.low;
            high = v.high;
            distinct = shortened-Distinct group rest o v.distinct;
            counted = omega (arith, v.counted, total-shortened group item rest o v.distinct e);
            bounded = omega (arith, v.bounded);
          }))
    ]

-- Every section of the outbox, also one that raises, keeps the counters right.
pub perform-IsValid : (s : Section) (o : ResultOutbox) → IsValid o → IsValid (perform s o)
perform-IsValid Section.reserves o v = unfold perform in reserve_section-IsValid o v
perform-IsValid Section.releases o v = release_slot-IsValid o v
perform-IsValid (Section.enqueues envelope) o v = enqueue_section-IsValid envelope o v
perform-IsValid (Section.removes group item) o v =
    unfold perform in remove_head-IsValid group item o v
perform-IsValid s o v = subst IsCounted (sym (quiet-core s o tt)) v

interleave-IsValid : (ss : List Section) (o : ResultOutbox) → IsValid o → IsValid (interleave ss o)
interleave-IsValid [] o v = v
interleave-IsValid (s ∷ ss) o v = interleave-IsValid ss (perform s o) (perform-IsValid s o v)

new_outbox-eq :
    (s : OutboxSettings) (manager : Option OperatingStateManager) (o : ResultOutbox)
    → new_outbox s manager ≡ ok o
    → (o ≡ fresh s manager) × (s.low_watermark < s.high_watermark) × (s.high_watermark ≤ s.capacity)
unfolding new_outbox
new_outbox-eq s manager o e = ground arith

new_outbox-IsValid :
    (s : OutboxSettings) (manager : Option OperatingStateManager) (o : ResultOutbox)
    → new_outbox s manager ≡ ok o
    → IsValid o
unfolding total
new_outbox-IsValid s manager o e =
    let (same, low, high) = new_outbox-eq s manager o e in
    subst (λ o. IsValid o) (sym same)
      (record {
        low = low;
        high = high;
        distinct = tt;
        counted = refl;
        bounded = omega arith;
        latched = λ on. cc;
        unlatched = λ off. omega arith;
      })

-- Whatever sections threads run on a new outbox, and in whatever order, the counters stay right: the
-- count of queued results is that of the queues, reservations and results together never pass the
-- capacity, and the backlog latch is on only from the low watermark up and off only below the high.
pub interleave_counts :
    (s : OutboxSettings) (manager : Option OperatingStateManager) (o : ResultOutbox)
    (ss : List Section)
    → new_outbox s manager ≡ ok o
    → IsValid (interleave ss o)
interleave_counts s manager o ss e = interleave-IsValid ss o (new_outbox-IsValid s manager o e)
