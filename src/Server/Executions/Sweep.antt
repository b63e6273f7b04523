-- ===== src/Server/Executions/Sweep.antt =====
-- AgentExecutionRepository.sweep_expired_claims: the batches that it frees, and that it ends.
use time_weaver.Prelude.{
  ℕ, zero, suc, ◌+◌, Bool, false, ◌&&◌, ◌||◌, not, Option, none, some, List, [], ◌∷◌, ◌==◌,
  if◌then◌else◌, leb, ltb, text_comparable, nat_comparable, length,
}
use time_weaver.Server.Database.{ManualExecution, Database, update_where}
use time_weaver.Server.Executions.{is_expired}

-- ORDER BY claim_expires_at, manual_id
abbrev time_of : Option ℕ → ℕ
time_of none = 0
time_of (some t) = t

abbrev expires : ManualExecution → ℕ
expires m = time_of m.claim_expires_at

abbrev comes_first : ManualExecution → ManualExecution → Bool
comes_first a b =
    ltb (expires a) (expires b) || expires a == expires b && leb a.manual_id b.manual_id

unfoldable pub insert_row : ManualExecution → List ManualExecution → List ManualExecution
insert_row m [] = m ∷ []
insert_row m (r ∷ rows) =
    let rest = insert_row m rows in if comes_first m r then m ∷ r ∷ rows else r ∷ rest

unfoldable pub order_rows : List ManualExecution → List ManualExecution
unfolding insert_row
order_rows [] = []
order_rows (m ∷ rows) = insert_row m (order_rows rows)

-- The first ids of rows, at most so many.
unfoldable pub first_ids : ℕ → List ManualExecution → List ℕ
first_ids zero rows = []
first_ids (suc n) [] = []
first_ids (suc n) (m ∷ rows) = m.manual_id ∷ first_ids n rows

-- SELECT ... WHERE
unfoldable pub select_where : (ManualExecution → Bool) → List ManualExecution → List ManualExecution
select_where test [] = []
select_where test (m ∷ rows) =
    let rest = select_where test rows in if test m then m ∷ rest else rest

-- FOR UPDATE SKIP LOCKED: rows that other transactions lock are passed over.
abbrev pub selectable : (ℕ → Bool) → ℕ → ManualExecution → Bool
selectable locked now m = is_expired m now && not (locked m.manual_id)

unfoldable pub expired_ids : (locked : ℕ → Bool) → (batch_size : ℕ) → (now : ℕ) → Database → List ℕ
unfolding first_ids order_rows select_where
expired_ids locked batch now db =
    first_ids batch (order_rows (select_where (selectable locked now) db.manuals))

unfoldable pub among : ℕ → List ℕ → Bool
among id [] = false
among id (i ∷ ids) = id == i || among id ids

-- One transaction of the sweep.
unfoldable pub sweep_batch :
    (locked : ℕ → Bool) → (batch_size : ℕ) → (now : ℕ) → Database → Database
unfolding expired_ids among
sweep_batch locked batch now db =
    let ids = expired_ids locked batch now db in
    record db {
      manuals =
          update_where (λ m. among m.manual_id ids && is_expired m now)
            (λ m. record m {
              status = "wait";
              claim_token = none;
              claim_expires_at = none;
              modified_at = some now;
            })
            db.manuals;
    }

-- The loop, on fuel: the rounds to go, the clock at each round, and the total so far.
unfoldable pub sweep_loop :
    (fuel : ℕ)
    → (locked : ℕ → Bool) → (batch_size : ℕ) → (clock : ℕ → ℕ) → (round total : ℕ) → Database
    → Option (ℕ × ℕ × Database)
unfolding expired_ids sweep_batch
sweep_loop zero locked batch clock round total db = none
sweep_loop (suc fuel) locked batch clock round total db =
    let freed = length (expired_ids locked batch (clock round) db) in
    let db' = sweep_batch locked batch (clock round) db in
    let rest = sweep_loop fuel locked batch clock (round + 1) (total + freed) db' in
    if ltb freed batch then some (total + freed, clock round, db') else rest
