-- ===== src/Server/RuntimeService/Order.antt =====
-- The order of the rows of details that runtime_service.py ranks.
use time_weaver.Prelude.{
  ℕ, ◌<◌, ◌≤◌, ◌≡◌, ◌⊎◌, inl, inr, true, false, Option, none, some, List, [], ◌∷◌, Dict, get, put,
  get-put, ◌==◌, nat_comparable, text_comparable, insert_by, sort_by, arith, Bool-cases,
}
use time_weaver.Server.AgentRuntime.{DetailRow}
use time_weaver.Server.RuntimeService.{detail_le}

-- The order of the rows, but for that of the details of one sequence.
abbrev pub KeyLe : DetailRow → DetailRow → Type 0
KeyLe a b =
    (a.schedule_id < b.schedule_id) ⊎ ((a.schedule_id ≡ b.schedule_id) × (a.sequence ≤ b.sequence))

detail_le-KeyLe :
    (a b : DetailRow) → ((detail_le a b ≡ true) → KeyLe a b) × ((detail_le a b ≡ false) → KeyLe b a)
detail_le-KeyLe a b = elim (Bool-cases (a.schedule_id == b.schedule_id)) [
  | inl is ↦
      let same = (nat_comparable.same_iff a.schedule_id b.schedule_id).0 is in
      elim (Bool-cases (a.sequence == b.sequence)) [
        | inl eq ↦
            let e = (nat_comparable.same_iff a.sequence b.sequence).0 eq in
            (λ h. inr (same, omega arith), λ h. inr (omega arith, omega arith))
        | inr ne ↦ rw (is, ne) (λ h. inr (same, ground arith), λ h. inr (omega arith, ground arith))
      ]
  | inr isnt ↦ rw isnt (λ h. inl (ground arith), λ h. inl (ground (arith, isnt)))
]

KeyLe-trans : (a b c : DetailRow) → KeyLe a b → KeyLe b c → KeyLe a c
KeyLe-trans a b c h k = ground arith

abbrev pub Before : DetailRow → List DetailRow → Type 0
Before a [] = Unit
Before a (b ∷ rows) = KeyLe a b × Before a rows

abbrev pub InOrder : List DetailRow → Type 0
InOrder [] = Unit
InOrder (a ∷ rows) = Before a rows × InOrder rows

KeyLe-Before : (a b : DetailRow) (rows : List DetailRow) → KeyLe a b → Before b rows → Before a rows
KeyLe-Before a b [] k h = tt
KeyLe-Before a b (c ∷ rows) k h = (KeyLe-trans a b c k h.0, KeyLe-Before a b rows k h.1)

insert-Before :
    (a x : DetailRow) (rows : List DetailRow)
    → KeyLe a x
    → Before a rows
    → Before a (insert_by detail_le x rows)
unfolding insert_by
insert-Before a x [] k h = (k, tt)
insert-Before a x (y ∷ rows) k h = elim (Bool-cases (detail_le x y)) [
  | inl is ↦ rw is (k, h)
  | inr isnt ↦ rw isnt (h.0, insert-Before a x rows k h.1)
]

insert-InOrder :
    (x : DetailRow) (rows : List DetailRow) → InOrder rows → InOrder (insert_by detail_le x rows)
unfolding insert_by
insert-InOrder x [] h = (tt, tt)
insert-InOrder x (y ∷ rows) h = elim (Bool-cases (detail_le x y)) [
  | inl is ↦ let k = (detail_le-KeyLe x y).0 is in rw is ((k, KeyLe-Before x y rows k h.0), h)
  | inr isnt ↦
      rw isnt (insert-Before y x rows ((detail_le-KeyLe x y).1 isnt) h.0, insert-InOrder x rows h.1)
]

pub sort-InOrder : (rows : List DetailRow) → InOrder (sort_by detail_le rows)
unfolding sort_by
sort-InOrder [] = tt
sort-InOrder (x ∷ rows) = insert-InOrder x (sort_by detail_le rows) (sort-InOrder rows)

-- A row that comes after the previous one of its schedule.
abbrev pub NotBelow : Option ℕ → ℕ → Type 0
NotBelow none n = Unit
NotBelow (some m) n = m ≤ n

abbrev pub AllNotBelow : Dict ℕ ℕ → List DetailRow → Type 0
AllNotBelow previous [] = Unit
AllNotBelow previous (d ∷ rows) =
    NotBelow (get d.schedule_id previous) d.sequence × AllNotBelow previous rows

pub put-AllNotBelow :
    (previous : Dict ℕ ℕ) (d : DetailRow) (rows : List DetailRow)
    → Before d rows
    → AllNotBelow previous rows
    → AllNotBelow (put d.schedule_id d.sequence previous) rows
put-AllNotBelow previous d [] k h = tt
put-AllNotBelow previous d (e ∷ rows) k h =
    let found = get-put d.schedule_id e.schedule_id d.sequence previous in
    let rest = put-AllNotBelow previous d rows k.1 h.1 in
    elim (Bool-cases (d.schedule_id == e.schedule_id)) [
      | inl is ↦
          let same = (nat_comparable.same_iff d.schedule_id e.schedule_id).0 is in
          let le : d.sequence ≤ e.sequence = ground (arith, k.0, same) in rw (found, is) (le, rest)
      | inr isnt ↦ rw (found, isnt) (h.0, rest)
    ]

pub new-AllNotBelow : (rows : List DetailRow) → AllNotBelow [] rows
unfolding get
new-AllNotBelow [] = tt
new-AllNotBelow (d ∷ rows) = (tt, new-AllNotBelow rows)
