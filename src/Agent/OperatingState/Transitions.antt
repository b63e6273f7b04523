-- ===== src/Agent/OperatingState/Transitions.antt =====
-- What a listener hears along any sequence of operations.
use time_weaver.Prelude.{
  ℕ, ◌+◌, true, false, List, [], ◌∷◌, ◌++◌, map, ◌==◌, if◌then◌else◌, nat_comparable, ◌≡◌, ◌≢◌,
  refl, arith, contains, Bool-cases, inl, inr, ◌≤◌,
}
use time_weaver.Agent.OperatingState.{
  OperatingState, OperatingStateManager, StateTransition, Event, add_transition_listener, handle,
  next, run, value, same_state,
}

-- The calls of one listener among the calls of all.
abbrev pub heard : ℕ → List (ℕ × StateTransition) → List StateTransition
heard l [] = []
heard l ((k, t) ∷ calls) = if k == l then t ∷ heard l calls else heard l calls

abbrev pub heard_along : ℕ → List Event → OperatingStateManager → List StateTransition
heard_along l [] m = []
heard_along l (e ∷ es) m = heard l (handle e m).notified ++ heard_along l es (next e m)

abbrev pub registrations : ℕ → List ℕ → ℕ
registrations l [] = 0
registrations l (k ∷ ks) = (if k == l then 1 else 0) + registrations l ks

-- Transitions that lead from one state to another, each a change of state, none left out.
abbrev pub Chain : OperatingState → OperatingState → List StateTransition → Type 0
Chain s u [] = s ≡ u
Chain s u (t ∷ ts) =
    (t.previous.state ≡ s) × (t.previous.state ≢ t.current.state) × Chain t.current.state u ts

same_state_iff : (s t : OperatingState) → same_state s t ≡ true → s ≡ t
same_state_iff s t h = ground arith

same_state_refl : (s : OperatingState) → same_state s s ≡ true
same_state_refl s = ground arith

abbrev change : Event → OperatingStateManager → StateTransition
change e m = record { previous = value m; current = value (next e m) }

notified-handle :
    (e : Event) (m : OperatingStateManager)
    → (handle e m).notified ≡ (
        if same_state (value (next e m)).state (value m).state
        then []
        else map (λ l. (l, change e m)) m.transition_listeners)
unfolding handle
notified-handle Event.credential_ok m = refl
notified-handle _ m = ground arith

listeners-next :
    (e : Event) (m : OperatingStateManager)
    → (next e m).transition_listeners ≡ m.transition_listeners
unfolding handle
listeners-next Event.credential_ok m = refl
listeners-next _ m = ground arith

heard-map_absent :
    (l : ℕ) (t : StateTransition) (ls : List ℕ)
    → registrations l ls ≡ 0
    → heard l (map (λ k. (k, t)) ls) ≡ []
heard-map_absent l t [] h = refl
heard-map_absent l t (k ∷ ls) h = ground (arith, heard-map_absent l t ls)

heard-map_once :
    (l : ℕ) (t : StateTransition) (ls : List ℕ)
    → registrations l ls ≡ 1
    → heard l (map (λ k. (k, t)) ls) ≡ t ∷ []
heard-map_once l t [] h = absurd (omega arith)
heard-map_once l t (k ∷ ls) h = ground (arith, heard-map_once l t ls, heard-map_absent l t ls)

registrations-snoc :
    (l k : ℕ) (ls : List ℕ)
    → registrations l (ls ++ k ∷ []) ≡ registrations l ls + (if k == l then 1 else 0)
registrations-snoc l k [] = omega arith
registrations-snoc l k (j ∷ ls) = omega (arith, registrations-snoc l k ls)

registrations_pos : (l : ℕ) (ls : List ℕ) → (if contains l ls then 1 else 0) ≤ registrations l ls
unfolding contains
registrations_pos l [] = omega arith
registrations_pos l (k ∷ ls) = ground (arith, registrations_pos l ls)

registrations_zero : (l : ℕ) (ls : List ℕ) → contains l ls ≡ false → registrations l ls ≡ 0
unfolding contains
registrations_zero l [] h = refl
registrations_zero l (k ∷ ls) h = ground (arith, registrations_zero l ls)

-- Registering a listener that is registered at most once leaves it registered exactly once.
pub registrations-add_transition_listener :
    (l : ℕ) (m : OperatingStateManager)
    → registrations l m.transition_listeners ≤ 1
    → registrations l (add_transition_listener l m).transition_listeners ≡ 1
unfolding add_transition_listener
registrations-add_transition_listener l m h = ground (
  arith,
  registrations_pos l m.transition_listeners,
  registrations_zero l m.transition_listeners,
  registrations-snoc l l m.transition_listeners,
)

-- One event: a listener hears nothing if the state stays, and else one transition.
Chain-step :
    (l : ℕ) (e : Event) (m : OperatingStateManager) (u : OperatingState)
    → registrations l m.transition_listeners ≡ 1
    → (rest : List StateTransition) → Chain (value (next e m)).state u rest
    → Chain (value m).state u (heard l (handle e m).notified ++ rest)
Chain-step l e m u once rest chain =
    rw notified-handle (elim (Bool-cases (same_state (value (next e m)).state (value m).state)) [
      | inl same ↦ rw (same, ← same_state_iff _ _ same) chain
      | inr changed ↦
          rw (changed, heard-map_once l (change e m) m.transition_listeners once)
            (refl, (λ stays. cc (same_state_refl (value m).state)), chain)
    ])

-- A listener that is registered once hears along any events a chain of transitions from the state
-- before them to the state after them, each from one state to another.
pub heard_along-Chain :
    (l : ℕ) (es : List Event) (m : OperatingStateManager)
    → registrations l m.transition_listeners ≡ 1
    → Chain (value m).state (value (run es m)).state (heard_along l es m)
heard_along-Chain l [] m once = refl
heard_along-Chain l (e ∷ es) m once =
    Chain-step l e m _ once (heard_along l es (next e m))
      (heard_along-Chain l es (next e m) (rw listeners-next once))
