-- ===== src/Platform/Examples.antt =====
-- The dispatcher and the worker controller with three jobs of two tenants.
use multi_agent_langgraph.Base.{
  ℕ, ◌≤◌, ◌≡◌, refl, arith, String, none, some, List, [], ◌∷◌, string_key, select,
}
use multi_agent_langgraph.Base.Dict.{Dict, lookup, sum_of}
use multi_agent_langgraph.Platform.Queue.{QueuedJob, default_dispatcher, select_next_job, smallest}
use multi_agent_langgraph.Platform.Queue.Fairness.{IsSelected, select_next_job-IsSelected}
use multi_agent_langgraph.Platform.Worker.{Controller, new}
use multi_agent_langgraph.Platform.Worker.Concurrency.{
  WorkerCall, dispatching, draining, releasing, failing, worker_calls, active_of,
  worker_calls_within_concurrency,
}

abbrev job : QueuedJob
job = record {
  job_id = "j1";
  tenant_id = "alpha";
  team_id = "core";
  run_id = "run-1";
  queue_name = "ticket-runs";
  weight = 1;
  enqueued_at = 100;
  retry_count = 0;
  checkpoint_ref = none;
}

abbrev jobs : List QueuedJob
jobs =
    job
    ∷ record job { job_id = "j2"; weight = 3; enqueued_at = 120 }
    ∷ record job { job_id = "j3"; tenant_id = "beta"; enqueued_at = 150 }
    ∷ []

abbrev busy : Dict String ℕ
busy = ("alpha", 1) ∷ []

-- The idle tenant goes first, and the longest waiting job once jobs starve.
picked :
    (select_next_job default_dispatcher busy 160 jobs
      ≡ some (record job { job_id = "j3"; tenant_id = "beta"; enqueued_at = 150 }))
    × (select_next_job default_dispatcher busy 500 jobs ≡ some job)
unfolding select_next_job select lookup smallest
picked = (refl, refl)

select_next_job-IsSelected_example :
    IsSelected default_dispatcher busy 160 jobs (select_next_job default_dispatcher busy 160 jobs)
select_next_job-IsSelected_example = select_next_job-IsSelected default_dispatcher busy 160 jobs

abbrev shift : List WorkerCall
shift =
    dispatching "w1" jobs 160
    ∷ dispatching "w2" jobs 170
    ∷ draining "w1"
    ∷ dispatching "w3" jobs 180
    ∷ releasing "w1" "ref"
    ∷ failing "w2" "crash"
    ∷ []

none_active : active_of "alpha" new ≤ 2
unfolding sum_of
none_active = omega arith

worker_calls_within_concurrency_example : active_of "alpha" (worker_calls shift new) ≤ 2
worker_calls_within_concurrency_example =
    worker_calls_within_concurrency "alpha" shift new none_active

abbrev working : Controller
working = record new { active_jobs = ("w2", job) ∷ [] }

working-job : lookup "w2" working.active_jobs ≡ some job
unfolding lookup
working-job = refl
