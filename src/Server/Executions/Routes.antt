-- ===== src/Server/Executions/Routes.antt =====
-- No transaction changes which device may report on a target.
use time_weaver.Prelude.{
  ℕ, ◌≡◌, refl, sym, ◌∙◌, Bool, true, false, ◌&&◌, Option, none, some, String, List, [], ◌∷◌, ◌==◌,
  text_comparable, nat_comparable, inl, inr, arith, Result, ok, error, Result-cases, Bool-cases,
}
use time_weaver.Server.Database.{
  ScheduleGroup, ScheduleDetail, ExecutionLog, Database, find_by, update_where,
}
use time_weaver.Server.Executions.{
  ExecutionRepositoryError, ResultRecord, ResultPayload, StartPayload, group_of, detail_of,
  claim_manual_run, claim_row, take_claim, start_execution, clear_running,
}
use time_weaver.Server.Executions.Results.{
  accept_result, commit_rows, commit_row, target, apply_transitions, failed,
}
use time_weaver.Server.Executions.Sweep.{sweep_batch}
use time_weaver.Server.Executions.Operations.{Operation, perform, history, committed, accept_event}
use time_weaver.Server.Executions.Outcome.{
  Outcome, repeated, recorded, inserted, accept_result-Outcome,
}

abbrev pub group_key : Option ScheduleGroup → Option (ℕ × ℕ)
group_key none = none
group_key (some g) = some (g.schedule_id, g.target_device)

abbrev pub detail_key : Option ScheduleDetail → Option ℕ
detail_key none = none
detail_key (some d) = some d.schedule_id

-- Two databases route the same: their groups and details differ at most in their status.
pub record RoutesSame (a b : Database) : Type 0 where
  pub groups : (id : ℕ) → group_key (group_of id a) ≡ group_key (group_of id b)
  pub details : (id : String) → detail_key (detail_of id a) ≡ detail_key (detail_of id b)

abbrev pub is_ok {ℓ} : {A : Type ℓ} → Result ExecutionRepositoryError A → Bool
is_ok (ok a) = true
is_ok (error e) = false

abbrev by_group : ℕ → ℕ → ℕ → Option (ℕ × ℕ) → Bool
by_group device schedule via none = false
by_group device schedule via (some (id, owner)) =
    owner == device && id == schedule && via == schedule

abbrev by_detail : ℕ → ℕ → Database → Option ℕ → Bool
by_detail device schedule db none = false
by_detail device schedule db (some via) = by_group device schedule via (group_key (group_of via db))

target-by_detail :
    (device : ℕ) (p : ResultPayload) (db : Database)
    → is_ok (target device p db)
      ≡ by_detail device p.schedule_id db (detail_key (detail_of p.detail_id db))
unfolding target
target-by_detail device p db = ground arith

target-RoutesSame :
    (device : ℕ) (p : ResultPayload) (a b : Database)
    → RoutesSame a b
    → is_ok (target device p a) ≡ is_ok (target device p b)
target-RoutesSame device p a b h =
    target-by_detail device p a
    ∙ rw (h.details p.detail_id) (same (detail_key (detail_of p.detail_id b)))
    ∙ sym (target-by_detail device p b)
  where
    same : (d : Option ℕ) → by_detail device p.schedule_id a d ≡ by_detail device p.schedule_id b d
    same none = refl
    same (some via) = rw (h.groups via) refl

RoutesSame-trans : (a b c : Database) → RoutesSame a b → RoutesSame b c → RoutesSame a c
RoutesSame-trans a b c h k = record {
  groups = λ id. h.groups id ∙ k.groups id;
  details = λ id. h.details id ∙ k.details id;
}

same_tables : (a b : Database) → a.groups ≡ b.groups → a.details ≡ b.details → RoutesSame a b
same_tables a b g d = record { groups = λ id. rw g refl; details = λ id. rw d refl }

commit_rows-RoutesSame :
    (rows : List ExecutionLog) (db : Database) → RoutesSame (commit_rows rows db) db
unfolding commit_rows
commit_rows-RoutesSame [] db = record { groups = λ id. refl; details = λ id. refl }
commit_rows-RoutesSame (row ∷ rows) db =
    RoutesSame-trans _ (commit_row row db) db (commit_rows-RoutesSame rows (commit_row row db))
      (unfold commit_row in same_tables _ db (ground arith) (ground arith))

marked_group :
    (id schedule now : ℕ) (rows : List ScheduleGroup)
    → group_key (
        find_by
          (λ g. g.schedule_id == id)
          (update_where
            (λ g. g.schedule_id == schedule)
            (λ g. record g { status = "error"; modified_at = some now })
            rows))
      ≡ group_key (find_by (λ g. g.schedule_id == id) rows)
unfolding find_by update_where
marked_group id schedule now [] = refl
marked_group id schedule now (g ∷ rows) = ground (arith, marked_group id schedule now rows)

marked_detail :
    (id detail : String) (now : ℕ) (rows : List ScheduleDetail)
    → detail_key (
        find_by
          (λ d. d.detail_id == id)
          (update_where
            (λ d. d.detail_id == detail)
            (λ d. record d { status = "error"; modified_at = some now })
            rows))
      ≡ detail_key (find_by (λ d. d.detail_id == id) rows)
unfolding find_by update_where
marked_detail id detail now [] = refl
marked_detail id detail now (d ∷ rows) = ground (arith, marked_detail id detail now rows)

apply_transitions-RoutesSame :
    (p : ResultPayload) (manual : Option ℕ) (g : ScheduleGroup) (d : ScheduleDetail) (now : ℕ)
    (db : Database)
    → RoutesSame (apply_transitions p manual g d now db).0 db
unfolding apply_transitions
apply_transitions-RoutesSame p (some id) g d now db = same_tables _ db refl refl
apply_transitions-RoutesSame p none g d now db = elim (Bool-cases (failed p && g.is_error_stop)) [
  | inl yes_ ↦
      rw yes_ (record {
        groups = λ id. marked_group id p.schedule_id now db.groups;
        details = λ id. refl;
      })
  | inr no_ ↦ elim (Bool-cases (failed p && d.is_error_stop)) [
    | inl yes_ ↦
        rw (no_, yes_)
          (record {
            groups = λ id. refl;
            details = λ id. marked_detail id p.detail_id now db.details;
          })
    | inr never ↦ rw (no_, never) (same_tables db db refl refl)
  ]
]

Outcome-RoutesSame :
    (p : ResultPayload) (now : ℕ) (seen after : Database) (r : ResultRecord)
    → Outcome p now seen r after
    → RoutesSame after seen
Outcome-RoutesSame p now seen after r (repeated row at same id done) =
    rw done (same_tables (clear_running p seen) seen refl refl)
Outcome-RoutesSame p now seen after r (recorded manual g d absent id done) = rw done (
    RoutesSame-trans _ (clear_running p (inserted p seen)) seen
      (apply_transitions-RoutesSame p manual g d now (clear_running p (inserted p seen)))
      (same_tables (clear_running p (inserted p seen)) seen refl refl))

claim-RoutesSame :
    (device id : ℕ) (token : String) (now : ℕ) (db : Database)
    → RoutesSame (committed (claim_manual_run device id token now db) db) db
unfolding claim_manual_run
claim-RoutesSame device id token now db = elim (Result-cases (claim_row device id db)) [
  | inl (e, at) ↦ rw at (same_tables db db refl refl)
  | inr (m, at) ↦ rw at (unfold take_claim in same_tables _ db (ground arith) (ground arith))
]

start-RoutesSame :
    (device : ℕ) (p : StartPayload) (now : ℕ) (db : Database)
    → RoutesSame (committed (start_execution device p now db) db) db
unfolding start_execution
start-RoutesSame device p now db = elim (Result-cases (start_execution device p now db)) [
  | inl (e, at) ↦ unfold start_execution in rw at (same_tables db db refl refl)
  | inr ((time, db'), at) ↦ same_tables _ db (ground arith) (ground arith)
]

report-RoutesSame :
    (racing : List ExecutionLog) (device : ℕ) (p : ResultPayload) (now : ℕ) (db : Database)
    → RoutesSame (committed (accept_result racing device p now db) db) db
report-RoutesSame racing device p now db =
    elim (Result-cases (accept_result racing device p now db)) [
      | inl (e, at) ↦ rw at (same_tables db db refl refl)
      | inr ((r, after), at) ↦
          rw at (elim (accept_result-Outcome racing device p now db after r at).1 [
            | inl o ↦ Outcome-RoutesSame p now db after r o
            | inr o ↦
                RoutesSame-trans after (commit_rows racing db) db
                  (Outcome-RoutesSame p now (commit_rows racing db) after r o)
                  (commit_rows-RoutesSame racing db)
          ])
    ]

pub perform-RoutesSame :
    (op : Operation) (now : ℕ) (db : Database) → RoutesSame (perform op now db) db
unfolding perform
perform-RoutesSame (Operation.claims device id token) now db =
    claim-RoutesSame device id token now db
perform-RoutesSame (Operation.starts device p) now db = start-RoutesSame device p now db
perform-RoutesSame (Operation.reports racing device p) now db =
    report-RoutesSame racing device p now db
perform-RoutesSame (Operation.tells event) now db =
    unfold accept_event in same_tables _ db refl refl
perform-RoutesSame (Operation.sweeps locked batch) now db =
    unfold sweep_batch in same_tables _ db refl refl

-- A device that may report on a target still may after any transactions.
pub target-history :
    (device : ℕ) (p : ResultPayload) (ops : List (Operation × ℕ)) (db : Database)
    → is_ok (target device p (history ops db)) ≡ is_ok (target device p db)
target-history device p [] db = refl
target-history device p ((op, now) ∷ ops) db =
    target-history device p ops (perform op now db)
    ∙ target-RoutesSame device p (perform op now db) db (perform-RoutesSame op now db)
