-- ===== src/Server/Executions/Settling.antt =====
-- What an accepted result does to the manual runs, and to a claim that is held.
use time_weaver.Prelude.{
  ℕ, ◌≡◌, refl, sym, ◌∙◌, true, false, ◌&&◌, Option, none, some, String, List, [], ◌∷◌, ◌==◌,
  if◌then◌else◌, text_comparable, nat_comparable, Bool-cases, inl, inr, arith, ok, option_same, pos,
  int_comparable, ◌>>=◌, eq_iff, Option-cases, Result-cases, returned-first,
}
use time_weaver.Server.Database.{
  ManualExecution, ScheduleGroup, ScheduleDetail, ExecutionLog, Database,
}
use time_weaver.Server.Executions.{
  find_result, ResultRecord, ResultPayload, StartPayload, manual_of, set_manual, start_execution,
}
use time_weaver.Server.Executions.Results.{
  accept_result, commit_row, commit_rows, claimed_manual, check_claim, insert_result, duplicate,
  target, apply_transitions,
}
use time_weaver.Server.Executions.Operations.{committed}
use time_weaver.Server.Executions.Claims.{IsHeld, IsHeld-same, manual_of-set_manual_other}

-- The rows of manual runs after a start are those before it.
pub start-manuals :
    (device : ℕ) (p : StartPayload) (now : ℕ) (db : Database)
    → (committed (start_execution device p now db) db).manuals ≡ db.manuals
unfolding start_execution
start-manuals device p now db = elim (Result-cases (start_execution device p now db)) [
  | inl (e, at) ↦ unfold start_execution in rw at refl
  | inr ((time, db'), at) ↦ ground arith
]

commit_row-manuals : (row : ExecutionLog) (db : Database) → (commit_row row db).manuals ≡ db.manuals
unfolding commit_row
commit_row-manuals row db = ground arith

commit_rows-manuals :
    (rows : List ExecutionLog) (db : Database) → (commit_rows rows db).manuals ≡ db.manuals
unfolding commit_rows
commit_rows-manuals [] db = refl
commit_rows-manuals (row ∷ rows) db =
    commit_rows-manuals rows (commit_row row db) ∙ commit_row-manuals row db

-- What an accepted result does to the manual runs: nothing, or it ends the claim that it names.
pub data Settled (p : ResultPayload) (now : ℕ) (db db' : Database) : Type 0 where
  untouched : db'.manuals ≡ db.manuals → Settled p now db db'
  ended :
      (id : ℕ) (status : String)
      → claimed_manual p now db ≡ ok (some id)
      → db'.manuals ≡ (set_manual id status none none now db).manuals
      → Settled p now db db'

duplicate-manuals :
    (row : ExecutionLog) (p : ResultPayload) (now : ℕ) (db db' : Database) (r : ResultRecord)
    → duplicate row p now db ≡ ok (r, db')
    → db'.manuals ≡ db.manuals
unfolding duplicate
duplicate-manuals row p now db db' r h = ground arith

insert-manuals :
    (p : ResultPayload) (manual : Option ℕ) (g : ScheduleGroup) (d : ScheduleDetail) (now : ℕ)
    (db db' before : Database) (r : ResultRecord)
    → before.manuals ≡ db.manuals
    → claimed_manual p now before ≡ ok manual
    → insert_result p manual g d now db ≡ ok (r, db')
    → Settled p now before db'
unfolding insert_result
insert-manuals p none g d now db db' before r same checked h =
    untouched (unfold apply_transitions duplicate in ground (arith, same))
insert-manuals p (some id) g d now db db' before r same checked h =
    elim (Option-cases (find_result p db)) [
      | inl none_ ↦
          ended id (if p.result_code == pos 0 then "done" else "failed") checked
            (unfold apply_transitions in ground (arith, none_, h, same))
      | inr (row, found_) ↦
          untouched
            (sym (same ∙ sym (duplicate-manuals row p now db db' r (ground (arith, found_, h)))))
    ]

pub accepted-Settled :
    (racing : List ExecutionLog) (device : ℕ) (p : ResultPayload) (now : ℕ) (db db' : Database)
    (r : ResultRecord)
    → accept_result racing device p now db ≡ ok (r, db')
    → Settled p now db db'
unfolding accept_result
accepted-Settled racing device p now db db' r h =
    let (rows, _, after) = returned-first (target device p db) _ h in
    elim (Option-cases (find_result p db)) [
      | inl none_ ↦
          let inserting : (claimed_manual p now db >>= λ manual.
          insert_result p manual rows.0 rows.1 now (commit_rows racing db))
              ≡ ok (r, db') =
            ground (arith, none_, after) in
          let (manual, checked, inserted) = returned-first (claimed_manual p now db) _ inserting in
          insert-manuals p manual rows.0 rows.1 now (commit_rows racing db) db' db r
            (sym (commit_rows-manuals racing db)) checked inserted
      | inr (row, found_) ↦
          untouched (duplicate-manuals row p now db db' r (ground (arith, found_, after)))
    ]

check_claim-token :
    (p : ResultPayload) (now : ℕ) (m : ManualExecution) (token : String) {u : Unit {0}}
    → check_claim p now m ≡ ok u
    → m.claim_token ≡ some token
    → p.claim_token ≡ some token
unfolding check_claim
check_claim-token p now m token h owned = elim (Option-cases p.claim_token) [
  | inl none_ ↦ ground (arith, none_, owned)
  | inr (t, some_) ↦ ground (arith, some_, owned, eq_iff token t)
]

claimed_manual-named :
    (p : ResultPayload) (now id : ℕ) (db : Database)
    → claimed_manual p now db ≡ ok (some id)
    → p.manual_id ≡ some id
unfolding claimed_manual
claimed_manual-named p now id db h = ground arith

claimed_manual-token :
    (p : ResultPayload) (now id : ℕ) (db : Database) (m : ManualExecution) (token : String)
    → claimed_manual p now db ≡ ok (some id)
    → manual_of id db ≡ some m
    → m.claim_token ≡ some token
    → p.claim_token ≡ some token
unfolding claimed_manual
claimed_manual-token p now id db m token h stored owned =
    elim (Result-cases (check_claim p now m)) [
      | inl (e, at) ↦ ground (arith, claimed_manual-named p now id db h, at, stored)
      | inr (u, at) ↦ check_claim-token p now m token at owned
    ]

pub Settled-IsHeld :
    (p : ResultPayload) (id now : ℕ) (token : String) (expires : ℕ) (db db' : Database)
    → Settled p now db db'
    → (option_same p.manual_id (some id) && option_same p.claim_token (some token)) ≡ false
    → IsHeld id token expires db
    → IsHeld id token expires db'
Settled-IsHeld p id now token expires db db' (untouched same) others h =
    IsHeld-same id token expires db db' (rw same refl) h
Settled-IsHeld p id now token expires db db' (ended other status checked same) others h =
    elim (Bool-cases (id == other)) [
      | inl is ↦
          let at : other ≡ id = ground (arith, is) in
          let named = claimed_manual-named p now other db checked in
          let owned =
            claimed_manual-token p now other db h.manual token checked (rw at h.stored) h.owned in
          let bad : true ≡ false = ground (arith, named, owned, at, others, eq_iff token token) in
          cc bad
      | inr isnt ↦
          IsHeld-same id token expires db db'
            (rw same (manual_of-set_manual_other id other now status none none db isnt)) h
    ]
