-- ===== src/Agent/OperatingState/Trace.antt =====
-- What holds along any sequence of operations on the manager.
use time_weaver.Prelude.{
  Bool, true, false, ◌&&◌, String, List, [], ◌∷◌, text_comparable, ◌≡◌, refl, arith, contains,
  is_none, is_empty, ◌∙◌,
}
use time_weaver.Agent.OperatingState.{
  OperatingState, OperatingStateManager, Event, next, run, value, state_of,
}
use time_weaver.Agent.OperatingState.Reasons.{
  brings, clears, is_held, is_held-next, is_snapshot_ok, valid-next,
}

abbrev pub allowed : OperatingStateManager → Bool
allowed m = (value m).execution_allowed

-- Execution is allowed exactly with an accepted snapshot and no fail-closed reason.
pub allowed_lem :
    (m : OperatingStateManager)
    → allowed m ≡ (is_empty m.fail_closed_reasons && m.has_valid_snapshot)
unfolding value state_of
allowed_lem m = ground arith

-- No event of the list satisfies the test.
abbrev pub Without : (Event → Bool) → List Event → Type 0
Without test [] = Unit
Without test (e ∷ es) = (test e ≡ false) × Without test es

run-valid :
    (es : List Event) (m : OperatingStateManager)
    → m.has_valid_snapshot ≡ false
    → Without is_snapshot_ok es
    → (run es m).has_valid_snapshot ≡ false
run-valid [] m h w = h
run-valid (e ∷ es) m h w = run-valid es (next e m) (valid-next e m ∙ ground (arith, h, w.0)) w.1

run-is_held :
    (r : String) (es : List Event) (m : OperatingStateManager)
    → is_held r m ≡ true
    → Without (λ e. clears e r) es
    → is_held r (run es m) ≡ true
run-is_held r [] m h w = h
run-is_held r (e ∷ es) m h w =
    run-is_held r es (next e m) (is_held-next e r m ∙ ground (arith, h, w.0)) w.1

brings-ne-snapshot_ok : (e : Event) → is_none (brings e) ≡ false → is_snapshot_ok e ≡ false
brings-ne-snapshot_ok Event.snapshot_ok b = cc
brings-ne-snapshot_ok _ b = refl

contains→nonempty : (r : String) (s : List String) → contains r s ≡ true → is_empty s ≡ false
unfolding contains
contains→nonempty r [] h = cc
contains→nonempty r (x ∷ s) h = refl

-- After an event that brings a fail-closed reason no sequence of events without an accepted
-- snapshot allows execution again, whatever reasons it clears.
pub fail_closed_blocks :
    (m : OperatingStateManager) (e : Event) (es : List Event)
    → is_none (brings e) ≡ false
    → Without is_snapshot_ok es
    → allowed (run es (next e m)) ≡ false
fail_closed_blocks m e es b w =
    let invalid : (next e m).has_valid_snapshot ≡ false =
      valid-next e m ∙ ground (arith, b, brings-ne-snapshot_ok e b) in
    allowed_lem (run es (next e m)) ∙ ground (arith, run-valid es (next e m) invalid w)

-- While a fail-closed reason is held and no event clears it, the agent stays halted and execution
-- stays forbidden, accepted snapshots included.
pub held_halts :
    (r : String) (m : OperatingStateManager) (es : List Event)
    → is_held r m ≡ true
    → Without (λ e. clears e r) es
    → ((value (run es m)).state ≡ OperatingState.halted) × (allowed (run es m) ≡ false)
unfolding value state_of
held_halts r m es h w =
    ground (arith, contains→nonempty r (run es m).fail_closed_reasons, run-is_held r es m h w)
