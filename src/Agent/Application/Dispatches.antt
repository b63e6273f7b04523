-- ===== src/Agent/Application/Dispatches.antt =====
-- dispatch_manual takes one slot and keeps its run in flight, or takes nothing and lets the run go.
use time_weaver.Prelude.{
  ℕ, ◌+◌, ◌-◌, ◌<◌, ◌≡◌, refl, ap, ◌∙◌, ◌⊎◌, inl, inr, Bool, true, false, not, ◌||◌, Option, none,
  some, String, [], ◌∷◌, ◌++◌, get, put, if◌then◌else◌, leb, contains, contains-add,
  contains-discard, is_none, is_empty, nat_comparable, text_comparable, arith, Bool-cases,
  same_refl, Result, ok, error, get-put,
}
use time_weaver.Agent.ApSchedulerAdapter.{
  Scheduler, is_inflight, release_manual, mark_manual_attempted,
}
use time_weaver.Agent.ApiErrors.{Exception, is_client_rejected, is_transient_server}
use time_weaver.Agent.Application.{
  Application, Reply, replied, failed, execution_allowed, find_schedule, find_manual, find_detail,
}
use time_weaver.Agent.Application.Manual.{
  Dispatch, release, give_back, claim_failed, claim_token_in, with_token, job_added, claimed,
  claim_with, dispatch_found, is_claimable, dispatch_listed, dispatch_manual, noted,
}
use time_weaver.Agent.Application.Slots.{
  counts, more_by, latch-counts, emitted-counts, reserve_slot-counts, release_slot-counts,
}
use time_weaver.Agent.Application.Tasks.{execute_task, result_envelope}
use time_weaver.Agent.Envelope.{ResultEnvelope, OutboxItem, bounded_envelope}
use time_weaver.Agent.Json.{Json}
use time_weaver.Agent.Models.{ManualExecution, ScheduleDetail, ScheduleGroup}
use time_weaver.Agent.Outbox.{
  ResultOutbox, enqueue_section, schedule_group, queue, is_halted, new_item, update_backlog_latch,
}
use time_weaver.Agent.Outbox.Delivery.{reserve_slot, enqueue}
use time_weaver.Agent.Outbox.Sending.{emit_backlog}
use time_weaver.Agent.SyncCoordinator.Apply.{Outcome, returned, raised, after}
use time_weaver.Agent.Application.Landing.{Loose, record_api_failure-Loose}

-- A dispatch that returns true adds one to the results that the outbox has or expects, keeps the run
-- in flight and notes its claim; one that returns false leaves the counts as they were, and the run is
-- not in flight, unless it was so before, and then nothing changed; none raises.
abbrev pub Fits : {T : Type 0} → ℕ → Application T → Reply T → Type 0
Fits id before (replied true a) =
    (a.outbox.reserved_slots + a.outbox.queued_results
      ≡ before.outbox.reserved_slots + before.outbox.queued_results + 1)
    × ((is_inflight id a.adapter ≡ true) × (is_none (get id a.manual_execution_status) ≡ false))
Fits id before (replied false a) =
    Loose id (counts before.outbox) a ⊎ ((is_inflight id before.adapter ≡ true) × (a ≡ before))
Fits id before (failed a) = ⊥

schedule_group-counts :
    (group : String) (o : ResultOutbox) → counts (schedule_group group o) ≡ counts o
unfolding schedule_group
schedule_group-counts group o =
    elim (Bool-cases (
      o.closed
      || is_halted o
      || contains group o.active_groups
      || not (is_none (get group o.retry_timers))
      || is_empty (queue group o))) [ inl waits ↦ rw waits refl | inr starts ↦ rw starts refl ]

-- The outbox with a result in the place of a slot, before its latch is set.
abbrev placed : ResultEnvelope → ResultOutbox → ResultOutbox
placed envelope o = record o {
  reserved_slots = o.reserved_slots - 1;
  queues =
      put (bounded_envelope envelope).execution_grp_id
        (queue (bounded_envelope envelope).execution_grp_id o ++ new_item envelope o ∷ []) o.queues;
  queued_results = o.queued_results + 1;
  allocated = o.allocated + 1;
}

-- A result for a reserved slot is queued in its place.
enqueue-counts :
    (envelope : ResultEnvelope) (o : ResultOutbox)
    → 0 < o.reserved_slots
    → (o' : ResultOutbox) × (item : OutboxItem) × (enqueue envelope o ≡ ok (o', item))
      × (counts o' ≡ record { reserved = o.reserved_slots - 1; queued = o.queued_results + 1 })
unfolding enqueue enqueue_section
enqueue-counts envelope o some_slot =
    let held : leb o.reserved_slots 0 ≡ false = ground arith in
    let r = update_backlog_latch (placed envelope o) in
    let told = if r.1 then emit_backlog r.0 else r.0 in
    let group = (bounded_envelope envelope).execution_grp_id in
    (
      schedule_group group told,
      new_item envelope o,
      rw (held, enqueue) refl,
      schedule_group-counts group told ∙ emitted-counts r.1 r.0 ∙ latch-counts (placed envelope o),
    )

module _ {T : Type 0} (sch : Scheduler T) (number_in : String → Option ℕ) (d : Dispatch) where
  give_back-Loose :
      (before a : Application T)
      → counts a.outbox ≡ more_by 1 (counts before.outbox)
      → Loose d.manual_id (counts before.outbox) (give_back d.manual_id a)
  unfolding release_manual
  give_back-Loose before a held =
      let some_slot : 0 < a.outbox.reserved_slots = ground (arith, held) in
      (
        release_slot-counts a.outbox some_slot ∙ ground (arith, held),
        ground (
          arith,
          contains-discard d.manual_id d.manual_id a.adapter.manual_inflight,
          same_refl d.manual_id,
        ),
      )

  release-Loose :
      (before a : Application T)
      → counts a.outbox ≡ counts before.outbox
      → Loose d.manual_id (counts before.outbox) (release d.manual_id a)
  unfolding release_manual
  release-Loose before a held = (
    held,
    ground (
      arith,
      contains-discard d.manual_id d.manual_id a.adapter.manual_inflight,
      same_refl d.manual_id,
    ),
  )

  claim_failed-Loose :
      (exc : Exception) (before a : Application T)
      → counts a.outbox ≡ more_by 1 (counts before.outbox)
      → Loose d.manual_id
          (counts before.outbox)
          (claim_failed sch number_in d.event_fails d.manual_id exc a)
  unfolding claim_failed
  claim_failed-Loose (Exception.other name) before a held = give_back-Loose before a held
  claim_failed-Loose (Exception.api exc) before a held =
      let back = give_back-Loose before a held in
      let told =
        record_api_failure-Loose sch number_in d.manual_id (counts before.outbox) d.event_fails exc
          (give_back d.manual_id a) back in
      elim (Bool-cases (is_client_rejected exc.class)) [
        | inl refused ↦
            rw refused
              (elim (Bool-cases (contains exc.code ("already_claimed" ∷ "not_found" ∷ []))) [
                | inl expected ↦ rw expected back
                | inr odd ↦ rw odd told
              ])
        | inr other ↦ rw other (elim (Bool-cases (is_transient_server exc.class)) [
          | inl passing ↦ rw passing back
          | inr lasting ↦ rw lasting told
        ])
      ]

  job_added-Fits :
      (m : ManualExecution) (detail : ScheduleDetail) (token : String) (r : Outcome T)
      (before a : Application T)
      → counts a.outbox ≡ more_by 1 (counts before.outbox)
      → is_inflight d.manual_id a.adapter ≡ true
      → is_none (get d.manual_id a.manual_execution_status) ≡ false
      → Fits d.manual_id before (job_added d m detail token r a)
  unfolding execute_task
  job_added-Fits m detail token (returned t) before a held flies known =
      (ground (arith, held), (flies, known))
  job_added-Fits m detail token (raised t) before a held flies known =
      let some_slot : 0 < a.outbox.reserved_slots = ground (arith, held) in
      let (o, item, e, after) =
        enqueue-counts
          (result_envelope d.task m.schedule_id 1 detail.detail_id (some d.manual_id) (some token)
            d.uuid)
          a.outbox some_slot in
      rw e (ground (arith, held, after), (flies, known))

  with_token-Fits :
      (m : ManualExecution) (detail : ScheduleDetail) (token : Option String)
      (before a : Application T)
      → counts a.outbox ≡ more_by 1 (counts before.outbox)
      → is_inflight d.manual_id a.adapter ≡ true
      → Fits d.manual_id before (with_token sch d m detail token a)
  with_token-Fits m detail none before a held flies = inl (give_back-Loose before a held)
  with_token-Fits m detail (some token) before a held flies =
      job_added-Fits m detail token _ before (noted d m token a) held flies (
        rw (get-put d.manual_id d.manual_id _ a.manual_execution_status, same_refl d.manual_id)
          refl)

  claimed-Fits :
      (m : ManualExecution) (detail : ScheduleDetail) (answer : Result Exception Json)
      (before a : Application T)
      → counts a.outbox ≡ more_by 1 (counts before.outbox)
      → is_inflight d.manual_id a.adapter ≡ true
      → Fits d.manual_id before (claimed sch number_in d m detail answer a)
  claimed-Fits m detail (error exc) before a held flies = inl (claim_failed-Loose exc before a held)
  claimed-Fits m detail (ok claim) before a held flies =
      with_token-Fits m detail (claim_token_in claim) before a held flies

  claim_with-Fits :
      (m : ManualExecution) (detail : ScheduleDetail) (r : ResultOutbox × Bool)
      (before a : Application T)
      → counts r.0 ≡ more_by (if r.1 then 1 else 0) (counts before.outbox)
      → is_inflight d.manual_id a.adapter ≡ true
      → Fits d.manual_id before (claim_with sch number_in d m detail r a)
  claim_with-Fits m detail (outbox, false) before a held flies =
      inl (release-Loose before (record a { outbox = outbox }) (held ∙ ground arith))
  claim_with-Fits m detail (outbox, true) before a held flies =
      claimed-Fits m detail d.answer before (record a { outbox = outbox }) held flies

  dispatch_found-Fits :
      (m : ManualExecution) (detail : Option ScheduleDetail) (g : Option ScheduleGroup)
      (before a : Application T)
      → a.outbox ≡ before.outbox
      → is_inflight d.manual_id a.adapter ≡ true
      → Fits d.manual_id before (dispatch_found sch number_in d m detail g a)
  dispatch_found-Fits m none g before a same flies = inl (release-Loose before a (ap counts same))
  dispatch_found-Fits m (some detail) none before a same flies =
      inl (release-Loose before a (ap counts same))
  dispatch_found-Fits m (some detail) (some g) before a same flies =
      claim_with-Fits m detail (reserve_slot a.outbox) before a
        (reserve_slot-counts a.outbox
          ∙ ap
              (λ (o : ResultOutbox).
                more_by (if (reserve_slot a.outbox).1 then 1 else 0) (counts o))
              same)
        flies

  dispatch_listed-Fits :
      (m : Option ManualExecution) (before a : Application T)
      → a.outbox ≡ before.outbox
      → is_inflight d.manual_id a.adapter ≡ true
      → Fits d.manual_id before (dispatch_listed sch number_in d m a)
  dispatch_listed-Fits none before a same flies = inl (release-Loose before a (ap counts same))
  dispatch_listed-Fits (some m) before a same flies = elim (Bool-cases (is_claimable m)) [
    | inl open_run ↦ rw open_run (
        dispatch_found-Fits m (find_detail m.schedule_id m.detail_id a.current_snapshot)
          (find_schedule m.schedule_id a.current_snapshot) before a same flies)
    | inr closed_run ↦ rw closed_run (inl (release-Loose before a (ap counts same)))
  ]

  -- Whatever the claim is answered and the scheduler does: a dispatch that returns true adds one to the
  -- results that the outbox has or expects, keeps the run in flight and notes its claim; one that
  -- returns false leaves the counts of the outbox as they were, and the run is not in flight
  -- afterwards, unless it was so before, and then nothing changed; and no dispatch raises.
  pub dispatch_manual-Fits :
      (a : Application T) → Fits d.manual_id a (dispatch_manual sch number_in d a)
  unfolding dispatch_manual mark_manual_attempted
  dispatch_manual-Fits a = elim (Bool-cases (execution_allowed a)) [
    | inr blocked ↦ rw blocked (inl (release-Loose a a refl))
    | inl allowed ↦ rw allowed (elim (Bool-cases (is_inflight d.manual_id a.adapter)) [
      | inl flies ↦ rw flies (inr (flies, refl))
      | inr lands ↦ rw lands (
          dispatch_listed-Fits (find_manual d.manual_id a.current_snapshot) a _ refl (
            ground (
              arith,
              contains-add d.manual_id d.manual_id a.adapter.manual_inflight,
              same_refl d.manual_id,
            )))
    ])
  ]
