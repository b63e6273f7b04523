-- ===== src/Agent/SyncCoordinator/Mutations.antt =====
-- What the mutations of a plan do to one job of an adapter that keeps the laws.
use mathlib.Core.List.Memᴰ
use time_weaver.Prelude.{
  ◌≡◌, refl, sym, ap, ◌∙◌, true, false, Option, none, some, String, List, [], ◌∷◌, get, ◌==◌,
  if◌then◌else◌, text_comparable, inl, inr, arith, Bool-cases, eq_iff,
}
use time_weaver.Agent.SyncCoordinator.{JobSpec}
use time_weaver.Agent.SyncCoordinator.Apply.{
  Outcome, returned, raised, SchedulerAdapter, IsAdapter, then_do, remove_each, update_each,
  add_each,
}
use time_weaver.Agent.SyncCoordinator.Members.{Memᴰ, head, tail}

-- A sequence that returns came through its first step.
pub then_do-returned :
    {S : Type 0} (o : Outcome S) (next : S → Outcome S) (s' : S)
    → then_do o next ≡ returned s'
    → (s : S) × (o ≡ returned s) × (next s ≡ returned s')
then_do-returned (returned s) next s' h = (s, refl, h)
then_do-returned (raised s) next s' h = cc

module _ {S : Type 0} (a : SchedulerAdapter S) (laws : IsAdapter a) (j : String) where
  abbrev pub job : S → Option JobSpec
  job s = get j (a.list_jobs s)

  pub remove_each-none :
      (keys : List String) (s s' : S)
      → remove_each a keys s ≡ returned s'
      → job s ≡ none
      → job s' ≡ none
  unfolding remove_each
  remove_each-none [] s s' h was = ground (arith, h, was)
  remove_each-none (k ∷ keys) s s' h was =
      let (s1, first, rest) = then_do-returned (a.remove_job k s) (remove_each a keys) s' h in
      remove_each-none keys s1 s' rest (laws.removed k j s s1 first ∙ ground (arith, was))

  pub remove_each-Mem :
      (keys : List String) (s s' : S)
      → remove_each a keys s ≡ returned s'
      → Memᴰ j keys
      → job s' ≡ none
  unfolding remove_each
  remove_each-Mem [] s s' h m = absurd (Memᴰ.not-nil m)
  remove_each-Mem (k ∷ keys) s s' h m =
      let (s1, first, rest) = then_do-returned (a.remove_job k s) (remove_each a keys) s' h in
      elim (Memᴰ.cases_cons m) [
        | inl e ↦
            remove_each-none keys s1 s' rest
              (laws.removed k j s s1 first ∙ ground (arith, e, eq_iff k j))
        | inr below ↦ remove_each-Mem keys s1 s' rest below
      ]

  pub remove_each-other :
      (keys : List String) (s s' : S)
      → remove_each a keys s ≡ returned s'
      → ((k : String) → Memᴰ k keys → (k == j) ≡ false)
      → job s' ≡ job s
  unfolding remove_each
  remove_each-other [] s s' h others = ground (arith, h)
  remove_each-other (k ∷ keys) s s' h others =
      let (s1, first, rest) = then_do-returned (a.remove_job k s) (remove_each a keys) s' h in
      remove_each-other keys s1 s' rest (λ i m. others i (tail m))
      ∙ laws.removed k j s s1 first
      ∙ ground (arith, others k (head refl))

  -- Each spec under the key is the wanted one.
  abbrev pub AreWanted : Option JobSpec → List JobSpec → Type 0
  AreWanted wanted specs = (x : JobSpec) → Memᴰ x specs → x.key ≡ j → some x ≡ wanted

  placed :
      (wanted : Option JobSpec) (x : JobSpec) (before after : Option JobSpec)
      → after ≡ (if x.key == j then some x else before)
      → (x.key ≡ j → some x ≡ wanted)
      → before ≡ wanted
      → after ≡ wanted
  placed wanted x before after e right was = elim (Bool-cases (x.key == j)) [
    | inl is ↦ e ∙ rw is (right (ground (arith, is, eq_iff x.key j)))
    | inr isnt ↦ e ∙ rw isnt was
  ]

  module _ (wanted : Option JobSpec) where
    pub update_each-stays :
        (specs : List JobSpec) (s s' : S)
        → update_each a specs s ≡ returned s'
        → AreWanted wanted specs
        → job s ≡ wanted
        → job s' ≡ wanted
    unfolding update_each
    update_each-stays [] s s' h all was = ground (arith, h, was)
    update_each-stays (x ∷ specs) s s' h all was =
        let (s1, first, rest) =
          then_do-returned (a.update_job x.key x s) (update_each a specs) s' h in
        update_each-stays specs s1 s' rest (λ y m. all y (tail m))
          (placed wanted x (job s) (job s1) (laws.updated x.key j x s s1 first) (all x (head refl))
            was)

    pub update_each-Mem :
        (specs : List JobSpec) (x : JobSpec) (s s' : S)
        → update_each a specs s ≡ returned s'
        → AreWanted wanted specs
        → Memᴰ x specs
        → x.key ≡ j
        → job s' ≡ wanted
    unfolding update_each
    update_each-Mem [] x s s' h all m key = absurd (Memᴰ.not-nil m)
    update_each-Mem (y ∷ specs) x s s' h all m key =
        let (s1, first, rest) =
          then_do-returned (a.update_job y.key y s) (update_each a specs) s' h in
        elim (Memᴰ.cases_cons m) [
          | inr below ↦ update_each-Mem specs x s1 s' rest (λ z n. all z (tail n)) below key
          | inl e ↦
              let here : y.key ≡ j = ap (λ z. z.key) (sym e) ∙ key in
              let is : (y.key == j) ≡ true = ground (arith, here, eq_iff y.key j) in
              update_each-stays specs s1 s' rest (λ z n. all z (tail n))
                (laws.updated y.key j y s s1 first ∙ rw is (all y (head refl) here))
        ]

    pub add_each-stays :
        (specs : List JobSpec) (s s' : S)
        → add_each a specs s ≡ returned s'
        → AreWanted wanted specs
        → job s ≡ wanted
        → job s' ≡ wanted
    unfolding add_each
    add_each-stays [] s s' h all was = ground (arith, h, was)
    add_each-stays (x ∷ specs) s s' h all was =
        let (s1, first, rest) = then_do-returned (a.add_job x.key x s) (add_each a specs) s' h in
        add_each-stays specs s1 s' rest (λ y m. all y (tail m))
          (placed wanted x (job s) (job s1) (laws.added x.key j x s s1 first) (all x (head refl))
            was)

    pub add_each-Mem :
        (specs : List JobSpec) (x : JobSpec) (s s' : S)
        → add_each a specs s ≡ returned s'
        → AreWanted wanted specs
        → Memᴰ x specs
        → x.key ≡ j
        → job s' ≡ wanted
    unfolding add_each
    add_each-Mem [] x s s' h all m key = absurd (Memᴰ.not-nil m)
    add_each-Mem (y ∷ specs) x s s' h all m key =
        let (s1, first, rest) = then_do-returned (a.add_job y.key y s) (add_each a specs) s' h in
        elim (Memᴰ.cases_cons m) [
          | inr below ↦ add_each-Mem specs x s1 s' rest (λ z n. all z (tail n)) below key
          | inl e ↦
              let here : y.key ≡ j = ap (λ z. z.key) (sym e) ∙ key in
              let is : (y.key == j) ≡ true = ground (arith, here, eq_iff y.key j) in
              add_each-stays specs s1 s' rest (λ z n. all z (tail n))
                (laws.added y.key j y s s1 first ∙ rw is (all y (head refl) here))
        ]
