-- ===== src/Agent/OperatingState/Examples.antt =====
-- The operating state on short runs: tests and instances.
use time_weaver.Prelude.{
  ◌≡◌, refl, true, false, not, ◌&&◌, ◌||◌, some, List, [], ◌∷◌, contains, add, discard, is_none,
  option_same, text_comparable,
}
use time_weaver.Agent.OperatingState.{
  OperatingState, OperatingStateManager, Event, new_manager, add_transition_listener, next, run,
  handle, value, state_of,
}
use time_weaver.Agent.OperatingState.Reasons.{brings, clears, is_held, is_held-next}
use time_weaver.Agent.OperatingState.Trace.{allowed, fail_closed_blocks, held_halts}
use time_weaver.Agent.OperatingState.Transitions.{Chain, heard_along, heard_along-Chain}

-- Bootstrap, a degraded phase, a recovery, and a revoked device.
abbrev day : List Event
day =
    Event.credential_ok
    ∷ Event.snapshot_ok
    ∷ Event.heartbeat_error "unavailable"
    ∷ Event.heartbeat_ok
    ∷ Event.status "revoked"
    ∷ []

abbrev listening : OperatingStateManager
listening = add_transition_listener 7 new_manager

abbrev running : OperatingStateManager
running = record new_manager { has_valid_snapshot = true }

ends_halted : (value (run day new_manager)).state ≡ OperatingState.halted
unfolding handle value state_of contains add discard
ends_halted = refl

reasons_sorted :
    (value (run (Event.snapshot_error "b" ∷ Event.heartbeat_error "a" ∷ []) new_manager)).reasons
    ≡ "heartbeat:a" ∷ "snapshot:b" ∷ []
unfolding handle value state_of contains add discard
reasons_sorted = refl

is_held-next_example : is_held "device_revoked" (next (Event.status "revoked") running) ≡ (
    option_same (brings (Event.status "revoked")) (some "device_revoked")
    || (not (clears (Event.status "revoked") "device_revoked") && is_held "device_revoked" running))
is_held-next_example = is_held-next (Event.status "revoked") "device_revoked" running

brings_revoked : is_none (brings (Event.status "revoked")) ≡ false
unfolding contains
brings_revoked = refl

fail_closed_blocks_example :
    allowed (
      run (Event.status "active" ∷ Event.heartbeat_ok ∷ []) (next (Event.status "revoked") running))
    ≡ false
fail_closed_blocks_example =
    fail_closed_blocks running (Event.status "revoked")
      (Event.status "active" ∷ Event.heartbeat_ok ∷ []) brings_revoked (refl, (refl, tt))

abbrev unrestored : OperatingStateManager
unrestored = record running { fail_closed_reasons = "reconciliation_restore_failed" ∷ [] }

held_unrestored : is_held "reconciliation_restore_failed" unrestored ≡ true
unfolding contains
held_unrestored = refl

held_halts_example :
    ((value (run (Event.snapshot_ok ∷ Event.status "active" ∷ []) unrestored)).state
      ≡ OperatingState.halted)
    × (allowed (run (Event.snapshot_ok ∷ Event.status "active" ∷ []) unrestored) ≡ false)
held_halts_example =
    held_halts "reconciliation_restore_failed" unrestored
      (Event.snapshot_ok ∷ Event.status "active" ∷ []) held_unrestored (refl, (refl, tt))

heard_along-Chain_example :
    Chain (value listening).state (value (run day listening)).state (heard_along 7 day listening)
unfolding add_transition_listener contains
heard_along-Chain_example = heard_along-Chain 7 day listening refl
