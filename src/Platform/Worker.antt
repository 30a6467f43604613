-- ===== src/Platform/Worker.antt =====
-- persistence/testing/worker.py: `InMemoryWorkerController`. A set of workers is a list without
-- repetitions; a job whose checkpoint is set is no longer shared with the controller.
pub mod Concurrency
use multi_agent_langgraph.Base.{
  ℕ, ◌+◌, String, Bool, true, false, Option, none, some, List, [], ◌∷◌, ◌++◌, ◌==◌, string_key,
  if◌then◌else◌, contains, Result, ok, raise, value_error, key_error, ◌<>◌,
}
use multi_agent_langgraph.Base.Dict.{Dict, lookup, insert, erase, get_or, values}
use multi_agent_langgraph.Platform.Queue.{QueuedJob, default_dispatcher}
use multi_agent_langgraph.Platform.Queue

pub record WorkerDrainLease : Type 0 where
  pub worker_id : String
  pub accepting_new_jobs : Bool
  pub active_job_id : Option String

pub record DeadLetterRecord : Type 0 where
  pub job_id : String
  pub tenant_id : String
  pub team_id : String
  pub run_id : String
  pub queue_name : String
  pub failure_reason : String
  pub worker_id : Option String
  pub checkpoint_ref : Option String

pub record Controller : Type 0 where
  pub active_jobs : Dict String QueuedJob
  pub draining_workers : List String
  pub dead_letter_records : List DeadLetterRecord

abbrev pub new : Controller
new = record { active_jobs = []; draining_workers = []; dead_letter_records = [] }

unfoldable pub assign : String → QueuedJob → Controller → Result Controller
assign worker_id job controller =
    if contains worker_id controller.draining_workers
    then raise
        (value_error ("Worker `" <> worker_id <> "` is draining and cannot accept new jobs."))
    else ok (record controller { active_jobs = insert worker_id job controller.active_jobs })

-- `set.add`
abbrev add : String → List String → List String
add worker_id workers = if contains worker_id workers then workers else worker_id ∷ workers

abbrev job_id_of : Option QueuedJob → Option String
job_id_of none = none
job_id_of (some job) = some job.job_id

unfoldable pub begin_drain : String → Controller → WorkerDrainLease × Controller
begin_drain worker_id controller = (
  record {
    worker_id = worker_id;
    accepting_new_jobs = false;
    active_job_id = job_id_of (lookup worker_id controller.active_jobs);
  },
  record controller { draining_workers = add worker_id controller.draining_workers },
)

abbrev pop : String → Controller → Controller
pop worker_id controller = record controller {
  active_jobs = erase worker_id controller.active_jobs;
}

abbrev released : Option QueuedJob → String → String → Controller → Result (QueuedJob × Controller)
released none worker_id checkpoint_ref controller = raise (key_error worker_id)
released (some job) worker_id checkpoint_ref controller =
    ok (record job { checkpoint_ref = some checkpoint_ref }, pop worker_id controller)

unfoldable pub checkpoint_and_release :
    String → String → Controller → Result (QueuedJob × Controller)
checkpoint_and_release worker_id checkpoint_ref controller =
    released (lookup worker_id controller.active_jobs) worker_id checkpoint_ref controller

abbrev pub dead_letter : QueuedJob → String → DeadLetterRecord
dead_letter job failure_reason = record {
  job_id = job.job_id;
  tenant_id = job.tenant_id;
  team_id = job.team_id;
  run_id = job.run_id;
  queue_name = job.queue_name;
  failure_reason = failure_reason;
  worker_id = none;
  checkpoint_ref = job.checkpoint_ref;
}

abbrev captured :
    Option QueuedJob → String → String → Controller → Result (DeadLetterRecord × Controller)
captured none worker_id failure_reason controller = raise (key_error worker_id)
captured (some job) worker_id failure_reason controller = ok (
  dead_letter job failure_reason,
  record (pop worker_id controller) {
    dead_letter_records = controller.dead_letter_records ++ dead_letter job failure_reason ∷ [];
  },
)

unfoldable pub capture_terminal_failure :
    String → String → Controller → Result (DeadLetterRecord × Controller)
capture_terminal_failure worker_id failure_reason controller =
    captured (lookup worker_id controller.active_jobs) worker_id failure_reason controller

-- The loop over the active jobs.
unfoldable pub count_in_flight : List QueuedJob → Dict String ℕ → Dict String ℕ
count_in_flight [] counts = counts
count_in_flight (job ∷ jobs) counts =
    count_in_flight jobs (insert job.tenant_id (get_or job.tenant_id counts 0 + 1) counts)

unfoldable pub select_next_job : List QueuedJob → ℕ → Controller → Option QueuedJob
select_next_job jobs now controller =
    Queue.select_next_job default_dispatcher (count_in_flight (values controller.active_jobs) [])
      now jobs
