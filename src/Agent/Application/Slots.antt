-- ===== src/Agent/Application/Slots.antt =====
-- The slots that the functions of app.py reserve: what the outbox counts after each.
use time_weaver.Prelude.{
  ℕ, zero, suc, ◌+◌, ◌-◌, ◌<◌, ◌≡◌, refl, ap, ◌∙◌, inl, inr, Bool, true, false, not, ◌&&◌, ◌||◌,
  List, [], ◌∷◌, if◌then◌else◌, leb, ltb, nat_comparable, text_comparable, arith, Bool-cases,
  length, contains,
}
use time_weaver.Agent.Application.{reserve_slots, release_slots, or_kept, reserved_or_back}
use time_weaver.Agent.Outbox.{
  ResultOutbox, update_backlog_latch, reserve_section, release_slot, size,
}
use time_weaver.Agent.Outbox.Delivery.{reserve_slot}
use time_weaver.Agent.Outbox.Sending.{emit_backlog, emit_event_once}

-- What the outbox counts.
pub record Counts : Type 0 where
  pub reserved : ℕ
  pub queued : ℕ

abbrev pub counts : ResultOutbox → Counts
counts o = record { reserved = o.reserved_slots; queued = o.queued_results }

abbrev pub more_by : ℕ → Counts → Counts
more_by n c = record c { reserved = c.reserved + n }

pub latch-counts : (o : ResultOutbox) → counts (update_backlog_latch o).0 ≡ counts o
unfolding update_backlog_latch
latch-counts o =
    elim (Bool-cases (not o.backlog_latched && leb o.settings.high_watermark (size o))) [
      | inl rises ↦ rw rises refl
      | inr other ↦
          rw other (elim (Bool-cases (o.backlog_latched && ltb (size o) o.settings.low_watermark)) [
            | inl falls ↦ rw falls refl
            | inr stays ↦ rw stays refl
          ])
    ]

emit_backlog-counts : (o : ResultOutbox) → counts (emit_backlog o) ≡ counts o
unfolding emit_backlog emit_event_once
emit_backlog-counts o = elim (Bool-cases (contains "outbox:backlog" o.event_latches)) [
  | inl latched ↦ rw latched refl
  | inr fresh ↦ rw fresh refl
]

pub emitted-counts :
    (emits : Bool) (o : ResultOutbox) → counts (if emits then emit_backlog o else o) ≡ counts o
emitted-counts true o = emit_backlog-counts o
emitted-counts false o = refl

reserve_section-counts :
    (o : ResultOutbox)
    → counts (reserve_section o).0 ≡ more_by (if (reserve_section o).1.0 then 1 else 0) (counts o)
unfolding reserve_section
reserve_section-counts o = elim (Bool-cases (o.closed || leb o.settings.capacity (size o))) [
  | inl full ↦ rw full (ground arith)
  | inr free ↦ rw free (latch-counts (record o { reserved_slots = o.reserved_slots + 1 }))
]

-- A slot is reserved, or the counts are as they were.
pub reserve_slot-counts :
    (o : ResultOutbox)
    → counts (reserve_slot o).0 ≡ more_by (if (reserve_slot o).1 then 1 else 0) (counts o)
unfolding reserve_slot
reserve_slot-counts o =
    emitted-counts (reserve_section o).1.1 (reserve_section o).0 ∙ reserve_section-counts o

pub release_slot-counts :
    (o : ResultOutbox)
    → 0 < o.reserved_slots
    → counts (or_kept (release_slot o) o)
      ≡ record { reserved = o.reserved_slots - 1; queued = o.queued_results }
unfolding release_slot
release_slot-counts o some_slot =
    let held : leb o.reserved_slots 0 ≡ false = ground arith in
    rw held (latch-counts (record o { reserved_slots = o.reserved_slots - 1 }))

pub release_slots-counts :
    (n : ℕ) (o : ResultOutbox) (c : Counts)
    → counts o ≡ more_by n c
    → counts (release_slots n o) ≡ c
unfolding release_slots
release_slots-counts zero o c e = ground (arith, e)
release_slots-counts (suc n) o c e =
    let some_slot : 0 < o.reserved_slots = ground (arith, e) in
    let one = release_slot-counts o some_slot in
    release_slots-counts n (or_kept (release_slot o) o) c (ground (arith, one, e))

reserved_slot-counts :
    {A : Type 0} (task : A) (tasks : List A) (reserved : ℕ) (r : ResultOutbox × Bool) (c : Counts)
    → ((o : ResultOutbox)
        → counts o ≡ more_by (suc reserved) c
        → counts (reserve_slots tasks (suc reserved) o).0
          ≡ more_by
              (if (reserve_slots tasks (suc reserved) o).1 then suc reserved + length tasks else 0)
              c)
    → counts r.0 ≡ more_by (if r.1 then 1 else 0) (more_by reserved c)
    → let after = reserved_or_back (reserve_slots tasks (suc reserved)) reserved r in
      counts after.0 ≡ more_by (if after.1 then reserved + length (task ∷ tasks) else 0) c
reserved_slot-counts task tasks reserved (o, true) c rest e =
    rest o (ground (arith, e))
    ∙ ap (λ (n : ℕ). more_by (if (reserve_slots tasks (suc reserved) o).1 then n else 0) c)
        (omega arith)
reserved_slot-counts task tasks reserved (o, false) c rest e =
    release_slots-counts reserved o c (ground (arith, e)) ∙ ground arith

-- The loop reserves a slot for each task, or leaves the counts as they were before its first.
pub reserve_slots-counts :
    {A : Type 0} (tasks : List A) (reserved : ℕ) (o : ResultOutbox) (c : Counts)
    → counts o ≡ more_by reserved c
    → counts (reserve_slots tasks reserved o).0
      ≡ more_by (if (reserve_slots tasks reserved o).1 then reserved + length tasks else 0) c
unfolding reserve_slots
reserve_slots-counts [] reserved o c e = ground (arith, e)
reserve_slots-counts (task ∷ tasks) reserved o c e =
    reserved_slot-counts task tasks reserved (reserve_slot o) c
      (λ rest more. reserve_slots-counts tasks (suc reserved) rest c more)
      (reserve_slot-counts o ∙ ap (more_by (if (reserve_slot o).1 then 1 else 0)) e)
