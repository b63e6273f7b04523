-- ===== src/Agent/Outbox/Overflow.antt =====
-- A drain of outbox.py whose backoff has counted more failures than a float's power can take.
use time_weaver.Prelude.{
  ◌+◌, ◌≡◌, false, none, some, String, List, ◌∷◌, get, text_comparable, error,
}
use time_weaver.Agent.ApiErrors.{ErrorClass, Exception}
use time_weaver.Agent.Envelope.{OutboxItem}
use time_weaver.Agent.RetryBackoff.{RetryBackoff}
use time_weaver.Agent.Outbox.{ResultOutbox, queue, is_halted}
use time_weaver.Agent.Outbox.Sending.{deferred}

-- What a request comes to that the server does not answer.
abbrev pub unreachable : Exception
unreachable =
    Exception.api
      (record { class = ErrorClass.communication; code = "unavailable"; retry_after = none })

-- A group that is being drained: its head and its backoff, and no retry is due.
pub record Failing (group : String) (item : OutboxItem) (rest : List OutboxItem) (b : RetryBackoff)
    (o : ResultOutbox) : Type 0 where
  pub open_ : o.closed ≡ false
  pub running : is_halted o ≡ false
  pub waiting : queue group o ≡ item ∷ rest
  pub counted : get group o.retry_backoffs ≡ some b
  pub untimed : get group o.retry_timers ≡ none

abbrev died : String → RetryBackoff → ResultOutbox → ResultOutbox
died group b o = deferred group (record b { failures = b.failures + 1 }, error "OverflowError") o
