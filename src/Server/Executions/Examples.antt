-- ===== src/Server/Executions/Examples.antt =====
-- Manual runs and results on a small database: tests and instances.
use time_weaver.Prelude.{
  ◌==◌, ℕ, ◌+◌, ◌≡◌, ◌<◌, refl, true, false, none, some, List, [], ◌∷◌, pos, ok, arith,
  if◌then◌else◌, int_comparable, text_comparable, nat_comparable,
}
use time_weaver.Server.Database.{Database, find_by, update_where}
use time_weaver.Server.Executions.{
  ClaimRecord, ResultRecord, ResultPayload, claim_manual_run, of_manual,
}
use time_weaver.Server.Executions.Operations.{Operation}
use time_weaver.Server.Executions.Claims.{is_error}
use time_weaver.Server.Executions.Repeats.{IsSameRun}
use time_weaver.Server.Executions.Sweep.{sweep_loop}
use time_weaver.Server.Executions.SweepEnds.{Swept, processing, sweep_loop-Swept}
use time_weaver.Server.Executions.Retry.{
  Attempt, returned, mysql_error, run_retryable, run_retryable_lem, deadlocked, final,
}

abbrev waiting : Database
waiting = record {
  groups =
      record {
        schedule_id = 7;
        target_device = 3;
        is_error_stop = true;
        status = "active";
        modified_at = none;
      }
      ∷ [];
  details =
      record {
        detail_id = "d1";
        schedule_id = 7;
        is_error_stop = false;
        deleted = false;
        status = "active";
        modified_at = none;
      }
      ∷ [];
  manuals =
      record {
        manual_id = 5;
        detail_id = "d1";
        status = "wait";
        claim_token = none;
        claim_expires_at = none;
        modified_at = none;
      }
      ∷ [];
  log = [];
  running = [];
  events = [];
  next_id = 1;
}

abbrev claimed : Database
claimed = record waiting {
  manuals =
      record {
        manual_id = 5;
        detail_id = "d1";
        status = "processing";
        claim_token = some "t1";
        claim_expires_at = some 2800;
        modified_at = some 1000;
      }
      ∷ [];
}

abbrev claim : ClaimRecord
claim = record { manual_id = 5; claim_token = "t1"; claim_expires_at = 2800; db_now = 1000 }

-- Another device's claim, a start of a sweep, and a result under a wrong token.
abbrev wrong : ResultPayload
wrong = record {
  execution_grp_id = "e1";
  schedule_id = 7;
  detail_id = "d1";
  attempt = 1;
  manual_id = some 5;
  claim_token = some "t2";
  started_at = 1100;
  finished_at = 1200;
  result_code = pos 0;
  result_message = none;
  environment_info = none;
}

abbrev right : ResultPayload
right = record wrong { claim_token = some "t1" }

abbrev others : List (Operation × ℕ)
others =
    (Operation.claims 3 5 "t9", 1500)
    ∷ (Operation.sweeps (λ id. false) 500, 2000)
    ∷ (Operation.reports [] 3 wrong, 2100)
    ∷ []

-- The half hour over, the claim is free again.
expired : is_error (claim_manual_run 3 5 "t3" 2800 claimed) ≡ false
unfolding claim_manual_run find_by update_where
expired = refl

abbrev reported : Database
reported = record claimed {
  manuals =
      record {
        manual_id = 5;
        detail_id = "d1";
        status = "done";
        claim_token = none;
        claim_expires_at = none;
        modified_at = some 1300;
      }
      ∷ [];
  log =
      record {
        execution_id = 1;
        execution_grp_id = "e1";
        schedule_id = 7;
        detail_id = "d1";
        attempt = 1;
        manual_id = some 5;
        start_time = 1100;
        end_time = 1200;
        result_code = pos 0;
        result_message = none;
        environment_info = none;
      }
      ∷ [];
  next_id = 2;
}

abbrev answer : ResultRecord
answer = record {
  execution_id = 1;
  duplicate = false;
  applied_transitions = of_manual 5 "done" ∷ [];
  db_now = 1300;
}

abbrev right_again : IsSameRun right wrong
right_again = record { execution = refl; detail = refl; attempt = refl; schedule = refl }

one_processed : processing claimed.manuals < 2
unfolding processing
one_processed = omega arith

sweep_loop-Swept_example :
    Swept (λ id. false) (sweep_loop 2 (λ id. false) 1 (λ round. 3000 + round) 0 0 claimed)
sweep_loop-Swept_example =
    sweep_loop-Swept 2 (λ id. false) 1 (λ round. 3000 + round) 0 0 claimed (omega arith)
      one_processed

-- Two deadlocks and then a value.
abbrev deadlocks : ℕ → Attempt ℕ
deadlocks attempt = if attempt == 2 then returned 9 else mysql_error (some 1213)

third_returned : run_retryable deadlocks ≡ (ok 9, 20 ∷ 50 ∷ [])
unfolding run_retryable
third_returned = refl

run_retryable_lem_example : run_retryable deadlocks ≡ (
    if deadlocked (deadlocks 0)
    then (if deadlocked (deadlocks 1)
        then (final (deadlocks 2), 20 ∷ 50 ∷ [])
        else (final (deadlocks 1), 20 ∷ []))
    else (final (deadlocks 0), []))
run_retryable_lem_example = run_retryable_lem deadlocks
