-- ===== src/Server/RuntimeService/Ranks.antt =====
-- The execution sequences of a snapshot of runtime_service.py: dense ranks of the rows' sequences.
use time_weaver.Prelude.{
  ℕ, ◌+◌, ◌<◌, ◌≡◌, refl, sym, ap, ◌∙◌, ◌⊎◌, inl, inr, Option, none, some, List, [], ◌∷◌, ◌++◌,
  Dict, get, put, get-put, ◌==◌, leb, nat_comparable, text_comparable, sort_by, arith, Bool-cases,
  Option-cases, ok, returned-first,
}
use time_weaver.Server.AgentRuntime.{TaskFields, GroupRow, DetailRow, SnapshotRows}
use time_weaver.Server.RuntimeService.{
  SnapshotDetail, SnapshotGroup, Ranking, Snapshot, new_group, group_dict, or_zero, rank_after,
  ranked, with_detail, rank_details, detail_le, normalize_snapshot,
}
use time_weaver.Server.RuntimeService.Order.{
  InOrder, sort-InOrder, NotBelow, AllNotBelow, put-AllNotBelow, new-AllNotBelow,
}

-- A detail after another of its group, or the first: the same rank for the same sequence, and the
-- next rank for a larger one.
abbrev pub Follows : Option ℕ → ℕ → SnapshotDetail → Type 0
Follows none rank d = d.exec_sequence ≡ rank + 1
Follows (some n) rank d =
    ((n ≡ d.sequence) × (d.exec_sequence ≡ rank))
    ⊎ ((n < d.sequence) × (d.exec_sequence ≡ rank + 1))

abbrev pub DenseFrom : Option ℕ → ℕ → List SnapshotDetail → Type 0
DenseFrom previous rank [] = Unit
DenseFrom previous rank (d ∷ ds) =
    Follows previous rank d × DenseFrom (some d.sequence) d.exec_sequence ds

-- The ranks start with 1.
abbrev pub IsDense : List SnapshotDetail → Type 0
IsDense = DenseFrom none 0

-- With the sequence and the rank at the end.
abbrev DenseTo : Option ℕ → ℕ → List SnapshotDetail → Option ℕ → ℕ → Type 0
DenseTo previous rank [] p r = (previous ≡ p) × (rank ≡ r)
DenseTo previous rank (d ∷ ds) p r =
    Follows previous rank d × DenseTo (some d.sequence) d.exec_sequence ds p r

DenseTo-DenseFrom :
    (previous : Option ℕ) (rank : ℕ) (ds : List SnapshotDetail) (p : Option ℕ) (r : ℕ)
    → DenseTo previous rank ds p r
    → DenseFrom previous rank ds
DenseTo-DenseFrom previous rank [] p r h = tt
DenseTo-DenseFrom previous rank (d ∷ ds) p r h =
    (h.0, DenseTo-DenseFrom (some d.sequence) d.exec_sequence ds p r h.1)

append-DenseTo :
    (previous : Option ℕ) (rank : ℕ) (ds : List SnapshotDetail) (p : Option ℕ) (r : ℕ)
    (d : SnapshotDetail)
    → DenseTo previous rank ds p r
    → Follows p r d
    → DenseTo previous rank (ds ++ d ∷ []) (some d.sequence) d.exec_sequence
append-DenseTo previous rank [] p r d h f =
    let begins : Follows previous rank d = rw (h.0, h.1) f in (begins, (refl, refl))
append-DenseTo previous rank (e ∷ ds) p r d h f =
    (h.0, append-DenseTo (some e.sequence) e.exec_sequence ds p r d h.1 f)

abbrev details_of : Option SnapshotGroup → List SnapshotDetail
details_of none = []
details_of (some g) = g.details

details_some : {g h : SnapshotGroup} → some g ≡ some h → g.details ≡ h.details
details_some e = ap (λ o. details_of o) e

-- The invariant of the loop.
abbrev IsRanked : Ranking → Type 0
IsRanked s =
    (i : ℕ) (g : SnapshotGroup)
    → get i s.groups_by_id ≡ some g
    → DenseTo none 0 g.details (get i s.previous_sequence) (or_zero (get i s.dense_rank))

follows_lem :
    (previous : Option ℕ) (rank : Option ℕ) (d : DetailRow) (task : TaskFields)
    → NotBelow previous d.sequence
    → Follows previous (or_zero rank) (ranked d task (rank_after previous rank d.sequence))
follows_lem none rank d task h = refl
follows_lem (some n) rank d task h = elim (Bool-cases (n == d.sequence)) [
  | inl is ↦ rw is (inl ((nat_comparable.same_iff n d.sequence).0 is, refl))
  | inr isnt ↦ let later : n < d.sequence = ground (arith, h, isnt) in rw isnt (inr (later, refl))
]

with_detail-IsRanked :
    (d : DetailRow) (task : TaskFields) (g : SnapshotGroup) (s : Ranking)
    → get d.schedule_id s.groups_by_id ≡ some g
    → NotBelow (get d.schedule_id s.previous_sequence) d.sequence
    → IsRanked s
    → IsRanked (
        with_detail d task
          (rank_after
            (get d.schedule_id s.previous_sequence)
            (get d.schedule_id s.dense_rank)
            d.sequence)
          g
          s)
with_detail-IsRanked d task g s found below h i g1 e =
    let previous = get d.schedule_id s.previous_sequence in
    let rank = get d.schedule_id s.dense_rank in
    let next = rank_after previous rank d.sequence in
    let detail = ranked d task next in
    let g2 : SnapshotGroup = record g { details = g.details ++ detail ∷ [] } in
    let of_group = get-put d.schedule_id i g2 s.groups_by_id in
    let of_sequence = get-put d.schedule_id i d.sequence s.previous_sequence in
    let of_rank = get-put d.schedule_id i next s.dense_rank in
    elim (Bool-cases (d.schedule_id == i)) [
      | inl is ↦
          let same : get i (put d.schedule_id g2 s.groups_by_id) ≡ some g2 =
            rw (of_group, is) refl in
          let details : g2.details ≡ g1.details = details_some (sym same ∙ e) in
          let dense =
            append-DenseTo none 0 g.details previous (or_zero rank) detail (h d.schedule_id g found)
              (follows_lem previous rank d task below) in
          rw (of_sequence, of_rank, is, ← details) dense
      | inr isnt ↦
          let kept : get i s.groups_by_id ≡ some g1 = ground (arith, of_group, isnt, e) in
          rw (of_sequence, of_rank, isnt) (h i g1 kept)
    ]

rank_details-IsRanked :
    (details : List DetailRow) (s : Ranking) (end : Ranking)
    → IsRanked s
    → InOrder details
    → AllNotBelow s.previous_sequence details
    → rank_details details s ≡ ok end
    → IsRanked end
unfolding rank_details
rank_details-IsRanked [] s end h order below e = let same : s ≡ end = cc in rw (← same) h
rank_details-IsRanked (d ∷ details) s end h order below e =
    elim (Option-cases (get d.schedule_id s.groups_by_id)) [
      | inl absent ↦ rank_details-IsRanked details s end h order.1 below.1 (rw absent at (e))
      | inr (g, found) ↦ elim (Option-cases d.task) [
        | inl none_of ↦ let bad = rw (found, none_of) at (e) in cc
        | inr (task, of) ↦
            rank_details-IsRanked details (with_detail d task _ g s) end
              (with_detail-IsRanked d task g s found below.0 h) order.1
              (put-AllNotBelow s.previous_sequence d details order.0 below.1)
              (rw (found, of) at (e))
      ]
    ]

group_dict-empty :
    (groups : List GroupRow) (dict : Dict ℕ SnapshotGroup)
    → ((i : ℕ) (g : SnapshotGroup) → get i dict ≡ some g → g.details ≡ [])
    → (i : ℕ) (g : SnapshotGroup) → get i (group_dict groups dict) ≡ some g
    → g.details ≡ []
unfolding group_dict
group_dict-empty [] dict h = h
group_dict-empty (r ∷ groups) dict h = group_dict-empty groups _ (λ i g e.
    elim (Bool-cases (r.schedule_id == i)) [
      | inl is ↦
          let same : get i (put r.schedule_id (new_group r) dict) ≡ some (new_group r) =
            rw (get-put r.schedule_id i (new_group r) dict, is) refl in
          sym (details_some (sym same ∙ e))
      | inr isnt ↦ h i g (ground (arith, e, get-put r.schedule_id i (new_group r) dict, isnt))
    ])

-- The loop starts with no details and no ranks.
abbrev started : List GroupRow → Ranking
started groups = record {
  groups_by_id = group_dict groups [];
  previous_sequence = [];
  dense_rank = [];
}

started-IsRanked : (groups : List GroupRow) → IsRanked (started groups)
unfolding get
started-IsRanked groups i g e =
    let empty = group_dict-empty groups [] (λ j h absent. let bad = absent in cc) i g e in
    rw empty (refl, refl)

-- In a snapshot that is made without an error, the execution sequences of the details of a schedule
-- start with 1, and from a detail to the next they stay the same exactly where the sequence of the
-- rows does, and otherwise the sequence grows and they go up by one.
pub normalize_snapshot-IsDense :
    (rows : SnapshotRows) (s : Snapshot) (id : ℕ) (g : SnapshotGroup)
    → normalize_snapshot rows ≡ ok s
    → get id s.schedules ≡ some g
    → IsDense g.details
unfolding normalize_snapshot
normalize_snapshot-IsDense rows s id g e found =
    let groups = sort_by (λ a b. leb a.schedule_id b.schedule_id) rows.groups in
    let sorted = sort_by detail_le rows.details in
    let (end, ran, made) = returned-first (rank_details sorted (started groups)) _ e in
    let dense =
      rank_details-IsRanked sorted (started groups) end (started-IsRanked groups)
        (sort-InOrder rows.details) (new-AllNotBelow sorted) ran in
    let same : s.schedules ≡ end.groups_by_id = cc in
    DenseTo-DenseFrom none 0 g.details (get id end.previous_sequence)
      (or_zero (get id end.dense_rank)) (dense id g (rw same at (found)))
