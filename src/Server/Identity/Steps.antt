-- ===== src/Server/Identity/Steps.antt =====
-- The transactions of AgentIdentityRepository as one type, and sequences of them.
use time_weaver.Prelude.{ℕ, Option, String, List, [], ◌∷◌, Result, ok, error}
use time_weaver.Server.Identity.{
  IdentityRepositoryError, IdentityStore, issue_enrollment, revoke_enrollment,
}
use time_weaver.Server.Identity.Access.{enroll, rotate}

pub data Step : Type 0 where
  issues : (enrollment_id digest : String) → Option String → (group_id ttl_hours : ℕ) → Step
  revokes : (enrollment_id : String) → Step
  enrolls :
      (enrollment_digest device_name : String)
      → Option String
      → (refresh_digest : String) → (access_ttl_minutes refresh_ttl_days : ℕ) → Step
  rotates : (refresh_digest new_digest : String) → (access_ttl_minutes refresh_ttl_days : ℕ) → Step

-- The tables after a transaction: the new ones, or on an error the old ones.
abbrev pub committed {ℓ} :
    {A : Type ℓ}
    → Result IdentityRepositoryError (A × IdentityStore)
    → IdentityStore
    → IdentityStore
committed (ok (value, s')) s = s'
committed (error e) s = s

unfoldable pub take_step : Step → (now : ℕ) → IdentityStore → IdentityStore
take_step (Step.issues id digest name group ttl) now s =
    committed (issue_enrollment id digest name group ttl now s) s
take_step (Step.revokes id) now s = committed (revoke_enrollment id now s) s
take_step (Step.enrolls digest name version refresh access_ttl refresh_ttl) now s =
    committed (enroll digest name version refresh access_ttl refresh_ttl now s) s
take_step (Step.rotates digest new_digest access_ttl refresh_ttl) now s =
    committed (rotate digest new_digest access_ttl refresh_ttl now s) s

-- A sequence of transactions, each with the time of the database when it runs.
abbrev pub take_steps : List (Step × ℕ) → IdentityStore → IdentityStore
take_steps [] s = s
take_steps ((step, now) ∷ steps) s = take_steps steps (take_step step now s)
