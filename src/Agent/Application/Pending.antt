-- ===== src/Agent/Application/Pending.antt =====
-- The invariant of app.py that the sequences of a group run one after another.
use time_weaver.Prelude.{
  ℕ, ◌≡◌, inl, inr, Bool, true, false, Option, none, some, String, List, [], ◌∷◌, Dict, get, put,
  get-put, ◌==◌, is_empty, nat_comparable, text_comparable, arith, Bool-cases,
}
use time_weaver.Agent.Application.{Application, is_true}

-- Of a group's completion: one sequence at most, with details that are not done.
abbrev pub AtMostOne : Option (Dict ℕ (List String)) → Type 0
AtMostOne none = Unit
AtMostOne (some []) = Unit
AtMostOne (some ((n, remaining) ∷ [])) = is_empty remaining ≡ false
AtMostOne (some (p ∷ q ∷ d)) = ⊥

abbrev pub NonePending : Option (Dict ℕ (List String)) → Type 0
NonePending none = Unit
NonePending (some []) = Unit
NonePending (some (p ∷ d)) = ⊥

-- Each group has at most one pending sequence, and none while it does not run.
pub record Ordered (running : Dict ℕ Bool) (completion : Dict ℕ (Dict ℕ (List String)))
    : Type 0 where
  pub single : (g : ℕ) → AtMostOne (get g completion)
  pub idle : (g : ℕ) → is_true (get g running) ≡ false → NonePending (get g completion)

abbrev pub IsOrdered : {T : Type 0} → Application T → Type 0
IsOrdered a = Ordered a.running_tasks a.task_completion_status

module _ {running : Dict ℕ Bool} {completion : Dict ℕ (Dict ℕ (List String))} (group : ℕ)
    (o : Ordered running completion) where
  pub runs-Ordered : Ordered (put group true running) completion
  runs-Ordered = record {
    single = o.single;
    idle = λ g e. elim (Bool-cases (group == g)) [
      | inl here ↦
          let bad : true ≡ false = ground (arith, e, get-put group g true running, here) in cc bad
      | inr there ↦ o.idle g (ground (arith, e, get-put group g true running, there))
    ];
  }

  pub stops-Ordered :
      NonePending (get group completion) → Ordered (put group false running) completion
  stops-Ordered done = record {
    single = o.single;
    idle = λ g e. elim (Bool-cases (group == g)) [
      | inl here ↦
          let same : group ≡ g = (nat_comparable.same_iff group g).0 here in rw (← same) done
      | inr there ↦ o.idle g (ground (arith, e, get-put group g false running, there))
    ];
  }

  -- The group's completion is replaced.
  pub put-Ordered :
      (d : Dict ℕ (List String))
      → AtMostOne (some d)
      → (is_true (get group running) ≡ false → NonePending (some d))
      → Ordered running (put group d completion)
  put-Ordered d one done = record {
    single = λ g. elim (Bool-cases (group == g)) [
      | inl here ↦ rw (get-put group g d completion, here) one
      | inr there ↦ rw (get-put group g d completion, there) (o.single g)
    ];
    idle = λ g e. elim (Bool-cases (group == g)) [
      | inl here ↦
          let same : group ≡ g = (nat_comparable.same_iff group g).0 here in
          rw (get-put group g d completion, here) (done (rw same e))
      | inr there ↦ rw (get-put group g d completion, there) (o.idle g e)
    ];
  }
