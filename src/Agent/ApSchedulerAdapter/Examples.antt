-- ===== src/Agent/ApSchedulerAdapter/Examples.antt =====
-- The adapter on a scheduler that is a list of job ids: tests and an instance.
use time_weaver.Prelude.{
  ◌≡◌, refl, true, some, String, List, [], ◌∷◌, contains, add, discard, str, put, text_comparable,
}
use time_weaver.Agent.SyncCoordinator.{JobSpec, of_manual}
use time_weaver.Agent.SyncCoordinator.Apply.{returned, raised, IsAdapter}
use time_weaver.Agent.ApSchedulerAdapter.{
  Scheduler, ApSchedulerAdapter, add_job, ap_adapter, mark_manual_attempted,
}
use time_weaver.Agent.ApSchedulerAdapter.Laws.{ap_adapter-IsAdapter}

abbrev ids : Scheduler (List String)
ids = record {
  add_job = λ id jobs. returned (add id jobs);
  remove_job = λ id jobs. returned (discard id jobs);
  has_job = contains;
}

abbrev run_five : JobSpec
run_five = record {
  key = "manual:5";
  kind = "manual";
  fingerprint = "f";
  value = of_manual (record {
    manual_id = 5;
    schedule_id = 7;
    detail_id = "d1";
    status = "wait";
    is_immediate = true;
    schedule_datetime = 100;
    claimable = true;
  });
}

abbrev idle : ApSchedulerAdapter (List String)
idle = record { scheduler = []; specs = []; manual_inflight = [] }

dispatched :
    add_job ids "manual:5" run_five idle
    ≡ returned (record {
      scheduler = "manual_dispatch:5" ∷ [];
      specs = ("manual:5", run_five) ∷ [];
      manual_inflight = [];
    })
unfolding add_job str put add contains
dispatched = refl

-- A run in flight is listed but not dispatched again.
in_flight :
    add_job ids "manual:5" run_five (mark_manual_attempted 5 idle)
    ≡ returned
        (record { scheduler = []; specs = ("manual:5", run_five) ∷ []; manual_inflight = 5 ∷ [] })
unfolding add_job str put add contains mark_manual_attempted
in_flight = refl

wrong_key : add_job ids "manual:6" run_five idle ≡ raised idle
unfolding add_job
wrong_key = refl

ap_adapter-IsAdapter_example : IsAdapter (ap_adapter ids (λ key. some 5))
ap_adapter-IsAdapter_example = ap_adapter-IsAdapter ids (λ key. some 5)
