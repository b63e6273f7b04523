-- ===== src/Server/Executions/SweepEnds.antt =====
-- The sweep of expired claims ends, and what it leaves.
use time_weaver.Prelude.{
  ℕ, zero, suc, ◌+◌, ◌≤◌, ◌<◌, ◌≡◌, refl, sym, ◌∙◌, Bool, true, false, ◌&&◌, ◌||◌, not, Option,
  none, some, List, [], ◌∷◌, ◌==◌, text_comparable, nat_comparable, inl, inr, arith, Bool-cases,
  if◌then◌else◌, ltb, length,
}
use time_weaver.Server.Database.{ManualExecution, Database, update_where}
use time_weaver.Server.Executions.{is_expired}
use time_weaver.Server.Executions.Sweep.{
  insert_row, order_rows, first_ids, select_where, selectable, expired_ids, among, sweep_batch,
  sweep_loop,
}

unfoldable pub any : (ManualExecution → Bool) → List ManualExecution → Bool
any test [] = false
any test (m ∷ rows) = test m || any test rows

unfoldable pub processing : List ManualExecution → ℕ
processing [] = 0
processing (m ∷ rows) = (if m.status == "processing" then 1 else 0) + processing rows

any-insert_row :
    (test : ManualExecution → Bool) (m : ManualExecution) (rows : List ManualExecution)
    → any test (insert_row m rows) ≡ (test m || any test rows)
unfolding any insert_row
any-insert_row test m [] = refl
any-insert_row test m (r ∷ rows) = ground (arith, any-insert_row test m rows)

any-order_rows :
    (test : ManualExecution → Bool) (rows : List ManualExecution)
    → any test (order_rows rows) ≡ any test rows
unfolding any order_rows
any-order_rows test [] = refl
any-order_rows test (m ∷ rows) =
    ground (arith, any-insert_row test m (order_rows rows), any-order_rows test rows)

any-select_where :
    (test chosen : ManualExecution → Bool) (rows : List ManualExecution)
    → any test (select_where chosen rows) ≡ any (λ m. chosen m && test m) rows
unfolding any select_where
any-select_where test chosen [] = refl
any-select_where test chosen (m ∷ rows) = ground (arith, any-select_where test chosen rows)

any-implies :
    (p q : ManualExecution → Bool) (rows : List ManualExecution)
    → ((m : ManualExecution) → p m ≡ true → q m ≡ true)
    → any p rows ≡ true
    → any q rows ≡ true
unfolding any
any-implies p q [] h at = cc
any-implies p q (m ∷ rows) h at = ground (arith, h m, any-implies p q rows h, at)

any-implies_not :
    (p q : ManualExecution → Bool) (rows : List ManualExecution)
    → ((m : ManualExecution) → q m ≡ true → p m ≡ true)
    → any p rows ≡ false
    → any q rows ≡ false
any-implies_not p q rows h at = elim (Bool-cases (any q rows)) [
  | inl is ↦ let bad : any p rows ≡ true = any-implies q p rows h is in ground (arith, bad, at)
  | inr isnt ↦ isnt
]

-- A batch that is not full holds every row.
first_ids-all :
    (n : ℕ) (rows : List ManualExecution)
    → length (first_ids n rows) < n
    → any (λ m. not (among m.manual_id (first_ids n rows))) rows ≡ false
unfolding first_ids any among
first_ids-all zero rows h = ground (arith, h)
first_ids-all (suc n) [] h = refl
first_ids-all (suc n) (m ∷ rows) h =
    let rest = first_ids-all n rows (omega arith) in
    let weaker =
      any-implies_not (λ r. not (among r.manual_id (first_ids n rows)))
        (λ r. not (r.manual_id == m.manual_id || among r.manual_id (first_ids n rows))) rows
        (λ r is. ground (arith, is)) rest in
    ground (arith, weaker)

-- A full batch of a size above 0 holds a row.
first_ids-some :
    (n : ℕ) (rows : List ManualExecution)
    → 0 < n
    → n ≤ length (first_ids n rows)
    → any (λ m. among m.manual_id (first_ids n rows)) rows ≡ true
unfolding first_ids any among
first_ids-some zero rows positive h = ground (arith, positive)
first_ids-some (suc n) [] positive h = ground (arith, h)
first_ids-some (suc n) (m ∷ rows) positive h = ground arith

abbrev hits : (ids : List ℕ) → ℕ → ManualExecution → Bool
hits ids now m = among m.manual_id ids && is_expired m now

abbrev freed : ℕ → ManualExecution → ManualExecution
freed now m = record m {
  status = "wait";
  claim_token = none;
  claim_expires_at = none;
  modified_at = some now;
}

processing-freed :
    (ids : List ℕ) (now : ℕ) (rows : List ManualExecution)
    → (processing (update_where (hits ids now) (freed now) rows) ≤ processing rows)
      × (any (hits ids now) rows ≡ true
          → processing (update_where (hits ids now) (freed now) rows) < processing rows)
unfolding processing update_where any
processing-freed ids now [] = (omega arith, λ h. cc)
processing-freed ids now (m ∷ rows) =
    let (most, fewer) = processing-freed ids now rows in
    elim (Bool-cases (hits ids now m)) [
      | inl is ↦
          let processed : (m.status == "processing") ≡ true = ground (arith, is) in
          rw (is, processed) (omega arith, λ h. omega arith)
      | inr isnt ↦ rw isnt (omega arith, λ h. ground (arith, most, fewer, h))
    ]

left-freed :
    (locked : ℕ → Bool) (ids : List ℕ) (now : ℕ) (rows : List ManualExecution)
    → any (λ m. selectable locked now m && not (among m.manual_id ids)) rows ≡ false
    → any (selectable locked now) (update_where (hits ids now) (freed now) rows) ≡ false
unfolding any update_where
left-freed locked ids now [] h = refl
left-freed locked ids now (m ∷ rows) h = ground (arith, left-freed locked ids now rows, h)

batch_left :
    (locked : ℕ → Bool) (batch now : ℕ) (db : Database)
    → length (expired_ids locked batch now db) < batch
    → any (selectable locked now) (sweep_batch locked batch now db).manuals ≡ false
unfolding expired_ids sweep_batch
batch_left locked batch now db h =
    left-freed locked (expired_ids locked batch now db) now db.manuals (
      sym (any-select_where _ _ db.manuals)
      ∙ sym (any-order_rows _ _)
      ∙ first_ids-all batch (order_rows (select_where (selectable locked now) db.manuals)) h)

batch_frees :
    (locked : ℕ → Bool) (batch now : ℕ) (db : Database)
    → 0 < batch
    → batch ≤ length (expired_ids locked batch now db)
    → processing (sweep_batch locked batch now db).manuals < processing db.manuals
unfolding expired_ids sweep_batch
batch_frees locked batch now db positive h =
    (processing-freed (expired_ids locked batch now db) now db.manuals).1 (
      any-implies _ (hits (expired_ids locked batch now db) now) db.manuals
        (λ m is. ground (arith, is))
        (sym (any-select_where _ (selectable locked now) db.manuals)
          ∙ sym (any-order_rows _ _)
          ∙ first_ids-some batch (order_rows (select_where (selectable locked now) db.manuals))
              positive h))

-- What the loop returns: no unlocked claim is left that had expired at the last reading of the clock.
pub record Swept (locked : ℕ → Bool) (result : Option (ℕ × ℕ × Database)) : Type 0 where
  pub freed_claims : ℕ
  pub last : ℕ
  pub after : Database
  pub returned : result ≡ some (freed_claims, last, after)
  pub none_left : any (selectable locked last) after.manuals ≡ false

-- With a batch size above 0, and however the clock runs, the sweep returns after at most as many
-- rounds as there are runs in processing and one more, and then no claim is left that had expired
-- when the last round began, but the locked ones.
pub sweep_loop-Swept :
    (fuel : ℕ) (locked : ℕ → Bool) (batch : ℕ) (clock : ℕ → ℕ) (round total : ℕ) (db : Database)
    → 0 < batch
    → processing db.manuals < fuel
    → Swept locked (sweep_loop fuel locked batch clock round total db)
unfolding sweep_loop
sweep_loop-Swept zero locked batch clock round total db positive enough =
    let bad : true ≡ false = ground (arith, enough) in cc bad
sweep_loop-Swept (suc fuel) locked batch clock round total db positive enough =
    let ids = expired_ids locked batch (clock round) db in
    let db' = sweep_batch locked batch (clock round) db in
    elim (Bool-cases (ltb (length ids) batch)) [
      | inl short ↦ rw short (record {
        freed_claims = total + length ids;
        last = clock round;
        after = db';
        returned = refl;
        none_left = batch_left locked batch (clock round) db (ground (arith, short));
      })
      | inr full ↦
          let fewer = batch_frees locked batch (clock round) db positive (ground (arith, full)) in
          rw full (
            sweep_loop-Swept fuel locked batch clock (round + 1) (total + length ids) db' positive
              (omega arith))
    ]
