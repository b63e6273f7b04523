-- ===== src/Server/Executions/Operations.antt =====
-- The transactions of AgentExecutionRepository as one type, and sequences of them.
use time_weaver.Prelude.{ℕ, Bool, String, List, [], ◌∷◌, ◌++◌, Result, ok, error}
use time_weaver.Server.Database.{ExecutionLog, AgentEvent, Database}
use time_weaver.Server.Executions.{
  ExecutionRepositoryError, StartPayload, ResultPayload, claim_manual_run, start_execution,
}
use time_weaver.Server.Executions.Results.{accept_result}
use time_weaver.Server.Executions.Sweep.{sweep_batch}

-- AgentExecutionRepository.accept_event
unfoldable pub accept_event : AgentEvent → (now : ℕ) → Database → ℕ × Database
accept_event event now db = (now, record db { events = db.events ++ event ∷ [] })

pub data Operation : Type 0 where
  claims : (device_id manual_id : ℕ) → (claim_token : String) → Operation
  starts : (device_id : ℕ) → StartPayload → Operation
  reports : (racing : List ExecutionLog) → (device_id : ℕ) → ResultPayload → Operation
  tells : AgentEvent → Operation
  sweeps : (locked : ℕ → Bool) → (batch_size : ℕ) → Operation

-- The database after a transaction: the new one, or on an error the old one.
abbrev pub committed {ℓ} :
    {A : Type ℓ} → Result ExecutionRepositoryError (A × Database) → Database → Database
committed (ok (value, db')) db = db'
committed (error e) db = db

unfoldable pub perform : Operation → (now : ℕ) → Database → Database
perform (claims device id token) now db = committed (claim_manual_run device id token now db) db
perform (starts device p) now db = committed (start_execution device p now db) db
perform (reports racing device p) now db = committed (accept_result racing device p now db) db
perform (tells event) now db = (accept_event event now db).1
perform (sweeps locked batch) now db = sweep_batch locked batch now db

-- A sequence of transactions, each with the time of the database when it runs.
abbrev pub history : List (Operation × ℕ) → Database → Database
history [] db = db
history ((op, now) ∷ ops) db = history ops (perform op now db)
