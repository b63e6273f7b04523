-- ===== src/Agent/OperatingState/Reasons.antt =====
-- What each operation does to the reasons, described by tables apart from the operations.
use time_weaver.Prelude.{
  Bool, true, false, not, ◌&&◌, ◌||◌, String, [], ◌∷◌, Option, none, some, option_same, ◌==◌,
  if◌then◌else◌, text_comparable, ◌≡◌, refl, arith, contains, discard, contains-add,
  contains-discard, text_append, is_none,
}
use time_weaver.Agent.OperatingState.{OperatingStateManager, Event, fail_closed, handle, next}

-- The fail-closed reason that an event brings.
abbrev pub brings : Event → Option String
brings (Event.credential_error r) = if contains r fail_closed then some r else none
brings (Event.heartbeat_error r) =
    if contains r ("device_inactive" ∷ "device_revoked" ∷ [])
    then some r
    else if contains r ("invalid_token" ∷ "token_expired" ∷ "needs_enrollment" ∷ [])
    then some "needs_enrollment"
    else none
brings (Event.status s) =
    if s == "active"
    then none
    else if contains s ("inactive" ∷ "revoked" ∷ [])
    then some (text_append "device_" s)
    else none
brings (Event.reconciliation_error false) = some "reconciliation_restore_failed"
brings _ = none

-- The fail-closed reasons that an event takes away.
abbrev pub clears : Event → String → Bool
clears Event.credential_ok r = r == "needs_enrollment"
clears Event.enrollment_ok r = r == "needs_enrollment" || r == "credential_persist_failed"
clears (Event.status s) r = s == "active" && (r == "device_inactive" || r == "device_revoked")
clears (Event.clear q) r = r == q
clears _ r = false

abbrev pub is_held : String → OperatingStateManager → Bool
is_held r m = contains r m.fail_closed_reasons

-- After any event a fail-closed reason is held exactly if the event brings it, or if it was held
-- and the event does not clear it.
pub is_held-next :
    (e : Event) (r : String) (m : OperatingStateManager)
    → is_held r (next e m) ≡ (option_same (brings e) (some r) || (not (clears e r) && is_held r m))
unfolding handle
is_held-next Event.credential_ok r m = simp contains-discard (ground arith)
is_held-next Event.enrollment_ok r m = simp contains-discard (ground arith)
is_held-next Event.heartbeat_ok r m = refl
is_held-next Event.snapshot_ok r m = refl
is_held-next Event.reconciliation_ok r m = refl
is_held-next (Event.credential_error q) r m = ground (arith, contains-add q r m.fail_closed_reasons)
is_held-next (Event.heartbeat_error q) r m = ground (
  arith,
  contains-add q r m.fail_closed_reasons,
  contains-add "needs_enrollment" r m.fail_closed_reasons,
)
is_held-next (Event.snapshot_error q) r m = refl
is_held-next (Event.clock active) r m = ground arith
is_held-next (Event.status s) r m = ground (
  arith,
  contains-add (text_append "device_" s) r m.fail_closed_reasons,
  contains-discard "device_revoked" r (discard "device_inactive" m.fail_closed_reasons),
  contains-discard "device_inactive" r m.fail_closed_reasons,
)
is_held-next (Event.reconciliation_error true) r m = refl
is_held-next (Event.reconciliation_error false) r m =
    ground (arith, contains-add "reconciliation_restore_failed" r m.fail_closed_reasons)
is_held-next (Event.clear q) r m = contains-discard q r m.fail_closed_reasons

abbrev pub is_snapshot_ok : Event → Bool
is_snapshot_ok Event.snapshot_ok = true
is_snapshot_ok _ = false

-- A snapshot counts as valid after an event exactly if the event accepts one, or if one counted
-- before and the event brings no fail-closed reason.
pub valid-next :
    (e : Event) (m : OperatingStateManager)
    → (next e m).has_valid_snapshot
      ≡ (is_snapshot_ok e || (is_none (brings e) && m.has_valid_snapshot))
unfolding handle
valid-next Event.credential_ok m = refl
valid-next (Event.credential_error q) m = ground arith
valid-next (Event.heartbeat_error q) m = ground arith
valid-next (Event.clock active) m = ground arith
valid-next (Event.status s) m = ground arith
valid-next (Event.reconciliation_error true) m = refl
valid-next (Event.reconciliation_error false) m = refl
valid-next _ m = refl
