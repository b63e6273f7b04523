-- ===== src/Server/Executions/Retry.antt =====
-- AgentExecutionRepository._run_retryable: what each attempt comes to is an argument, by its number.
use time_weaver.Prelude.{
  ℕ, zero, suc, ◌+◌, ◌≡◌, Bool, false, ◌&&◌, Option, none, some, List, [], ◌∷◌, ◌==◌,
  nat_comparable, if◌then◌else◌, ltb, Result, ok, error, arith,
}
use time_weaver.Server.Executions.{ExecutionRepositoryError, unavailable}

-- TRANSACTION_RETRY_COUNT
abbrev pub transaction_retry_count : ℕ
transaction_retry_count = 3

-- TRANSACTION_RETRY_DELAYS, in milliseconds
abbrev transaction_retry_delay : ℕ → ℕ
transaction_retry_delay attempt = if attempt == 0 then 20 else 50

-- What an attempt comes to; a MySQL error comes with its code, if it has one.
pub data Attempt (A : Type 0) : Type 0 where
  returned : A → Attempt A
  raised : ExecutionRepositoryError → Attempt A
  mysql_error : Option ℕ → Attempt A
  other_error : Attempt A

abbrev is_deadlock : Option ℕ → Bool
is_deadlock none = false
is_deadlock (some code) = code == 1213

-- The loop from an attempt on, with the attempts that remain: the result, and the sleeps.
unfoldable pub run_from :
    {A : Type 0}
    → (remaining attempt : ℕ) → (ℕ → Attempt A)
    → Result ExecutionRepositoryError A × List ℕ
run_from zero attempt operation = (error unavailable, [])
run_from (suc n) attempt operation =
    let (result, sleeps) = run_from n (attempt + 1) operation in
    elim (operation attempt) [
      | returned a ↦ (ok a, [])
      | raised e ↦ (error e, [])
      | other_error ↦ (error unavailable, [])
      | mysql_error code ↦
          if is_deadlock code && ltb (attempt + 1) transaction_retry_count
          then (result, transaction_retry_delay attempt ∷ sleeps)
          else (error unavailable, [])
    ]

unfoldable pub run_retryable :
    {A : Type 0} → (ℕ → Attempt A) → Result ExecutionRepositoryError A × List ℕ
unfolding run_from
run_retryable operation = run_from transaction_retry_count 0 operation

-- What an attempt comes to where no more follow.
abbrev pub final : {A : Type 0} → Attempt A → Result ExecutionRepositoryError A
final (returned a) = ok a
final (raised e) = error e
final (mysql_error code) = error unavailable
final other_error = error unavailable

abbrev pub deadlocked : {A : Type 0} → Attempt A → Bool
deadlocked (mysql_error code) = is_deadlock code
deadlocked _ = false

-- The transaction runs again after a deadlock only, twice at most, each time after its delay, and
-- the result is what its last attempt came to.
pub run_retryable_lem :
    {A : Type 0} (operation : ℕ → Attempt A)
    → run_retryable operation ≡ (
        if deadlocked (operation 0)
        then (if deadlocked (operation 1)
            then (final (operation 2), 20 ∷ 50 ∷ [])
            else (final (operation 1), 20 ∷ []))
        else (final (operation 0), []))
unfolding run_retryable
run_retryable_lem operation = ground arith
