-- ===== src/Platform/Worker/Concurrency.antt =====
-- Sequences of calls on the worker controller.
use native.Mathlib.Nat.{le_trans}
use multi_agent_langgraph.Base.{
  ℕ, ◌+◌, ◌≤◌, ◌≡◌, refl, arith, String, true, Option, none, some, List, [], ◌∷◌, ◌++◌, ◌==◌,
  string_key, if◌then◌else◌, Result, ok, raise, Option-cases, inl, inr, contains, value_error, ◌<>◌,
}
use multi_agent_langgraph.Base.Dict.{
  Dict, lookup, insert, erase, get_or, values, sum_of, sum_of-insert, lookup-insert, lookup-erase,
}
use multi_agent_langgraph.Platform.Queue.{QueuedJob, default_dispatcher, has_room}
use multi_agent_langgraph.Platform.Queue.Fairness.{
  IsSelected, nothing, fair, select_next_job-IsSelected,
}
use multi_agent_langgraph.Platform.Worker.{
  Controller, assign, begin_drain, checkpoint_and_release, capture_terminal_failure,
  count_in_flight, select_next_job, dead_letter,
}

abbrev one_of : String → QueuedJob → ℕ
one_of tenant job = if job.tenant_id == tenant then 1 else 0

-- How many jobs of the tenant are active.
abbrev pub active_of : String → Controller → ℕ
active_of tenant controller = sum_of (one_of tenant) (values controller.active_jobs)

get_or-count_in_flight :
    (tenant : String) (jobs : List QueuedJob) (counts : Dict String ℕ)
    → get_or tenant (count_in_flight jobs counts) 0
      ≡ get_or tenant counts 0 + sum_of (one_of tenant) jobs
unfolding count_in_flight sum_of
get_or-count_in_flight tenant [] counts = omega arith
get_or-count_in_flight tenant (job ∷ jobs) counts =
    let count = get_or job.tenant_id counts 0 + 1 in
    ground (
      arith,
      get_or-count_in_flight tenant jobs (insert job.tenant_id count counts),
      lookup-insert job.tenant_id tenant count counts,
      string_key.beq_iff job.tenant_id tenant,
    )

sum_of-erase :
    (f : QueuedJob → ℕ) (k : String) (d : Dict String QueuedJob)
    → sum_of f (values (erase k d)) ≤ sum_of f (values d)
unfolding erase sum_of
sum_of-erase f k [] = omega arith
sum_of-erase f k ((j, v) ∷ d) = ground (arith, sum_of-erase f k d)

-- Calls on the controller. Dispatching takes the job that `select_next_job` picks for a worker.
pub data WorkerCall : Type 0 where
  dispatching : String → List QueuedJob → ℕ → WorkerCall
  draining : String → WorkerCall
  releasing : String → String → WorkerCall
  failing : String → String → WorkerCall

abbrev kept : Result Controller → Controller → Controller
kept (ok after) before = after
kept (raise e) before = before

abbrev kept_with {ℓ} : {A : Type ℓ} → Result (A × Controller) → Controller → Controller
kept_with (ok (a, after)) before = after
kept_with (raise e) before = before

abbrev dispatched : Option QueuedJob → String → Controller → Controller
dispatched none worker controller = controller
dispatched (some job) worker controller = kept (assign worker job controller) controller

-- The caller catches what a call raises.
abbrev pub worker_call : WorkerCall → Controller → Controller
worker_call (dispatching worker jobs now) controller =
    dispatched (select_next_job jobs now controller) worker controller
worker_call (draining worker) controller = (begin_drain worker controller).1
worker_call (releasing worker ref) controller =
    kept_with (checkpoint_and_release worker ref controller) controller
worker_call (failing worker reason) controller =
    kept_with (capture_terminal_failure worker reason controller) controller

abbrev pub worker_calls : List WorkerCall → Controller → Controller
worker_calls [] controller = controller
worker_calls (c ∷ cs) controller = worker_calls cs (worker_call c controller)

active-count_in_flight :
    (tenant : String) (controller : Controller)
    → get_or tenant (count_in_flight (values controller.active_jobs) []) 0
      ≡ active_of tenant controller
unfolding lookup
active-count_in_flight tenant controller =
    let e = get_or-count_in_flight tenant (values controller.active_jobs) [] in omega (arith, e)

selected-has_room :
    {counts : Dict String ℕ} {now : ℕ} {jobs : List QueuedJob} {o : Option QueuedJob}
    (job : QueuedJob)
    → IsSelected default_dispatcher counts now jobs o
    → o ≡ some job
    → has_room default_dispatcher counts now job ≡ true
selected-has_room job (nothing f) e = cc
selected-has_room job (fair {job = j} f) e = let room = f.eligible.1 in cc (e, room)

select_next_job-lt :
    (controller : Controller) (jobs : List QueuedJob) (now : ℕ) (job : QueuedJob)
    → select_next_job jobs now controller ≡ some job
    → active_of job.tenant_id controller + 1 ≤ 2
unfolding select_next_job
select_next_job-lt controller jobs now job h =
    let counts = count_in_flight (values controller.active_jobs) [] in
    let room =
      selected-has_room job (select_next_job-IsSelected default_dispatcher counts now jobs) h in
    ground (arith, room, active-count_in_flight job.tenant_id controller)

module _ (tenant : String) where
  active_of-assign :
      (worker : String) (job : QueuedJob) (controller : Controller)
      → active_of tenant (kept (assign worker job controller) controller)
        ≤ active_of tenant controller + one_of tenant job
  unfolding assign
  active_of-assign worker job controller =
      ground (arith, sum_of-insert (one_of tenant) worker job controller.active_jobs)

  active_of-worker_call :
      (c : WorkerCall) (controller : Controller)
      → active_of tenant controller ≤ 2
      → active_of tenant (worker_call c controller) ≤ 2
  unfolding begin_drain checkpoint_and_release capture_terminal_failure
  active_of-worker_call (draining worker) controller h = h
  active_of-worker_call (releasing worker ref) controller h =
      ground (arith, sum_of-erase (one_of tenant) worker controller.active_jobs)
  active_of-worker_call (failing worker reason) controller h =
      ground (arith, sum_of-erase (one_of tenant) worker controller.active_jobs)
  active_of-worker_call (dispatching worker jobs now) controller h =
      elim (Option-cases (select_next_job jobs now controller)) [
        | inl none_picked ↦ rw none_picked h
        | inr (job, picked) ↦ rw picked (
            le_trans (active_of-assign worker job controller) (
              ground (
                arith,
                string_key.beq_iff job.tenant_id tenant,
                select_next_job-lt controller jobs now job picked,
              )))
      ]

  -- Whatever calls are made, if every assigned job is one that `select_next_job` picked, no tenant has
  -- more than two active jobs, if it had no more at the start.
  pub worker_calls_within_concurrency :
      (cs : List WorkerCall) (controller : Controller)
      → active_of tenant controller ≤ 2
      → active_of tenant (worker_calls cs controller) ≤ 2
  worker_calls_within_concurrency [] controller h = h
  worker_calls_within_concurrency (c ∷ cs) controller h =
      worker_calls_within_concurrency cs (worker_call c controller)
        (active_of-worker_call c controller h)

-- A job that fails for good leaves the worker idle, and its one record is the only new dead letter.
pub capture_terminal_failure-dead_letter :
    (worker reason : String) (controller : Controller) (job : QueuedJob)
    → lookup worker controller.active_jobs ≡ some job
    → (after : Controller) × (capture_terminal_failure worker reason controller
        ≡ ok (dead_letter job reason, after))
      × (lookup worker after.active_jobs ≡ none)
      × (after.dead_letter_records ≡ controller.dead_letter_records ++ dead_letter job reason ∷ [])
      × (after.draining_workers ≡ controller.draining_workers)
unfolding capture_terminal_failure
capture_terminal_failure-dead_letter worker reason controller job h = (
  record controller {
    active_jobs = erase worker controller.active_jobs;
    dead_letter_records = controller.dead_letter_records ++ dead_letter job reason ∷ [];
  },
  rw h,
  ground
      (arith, lookup-erase worker worker controller.active_jobs, string_key.beq_iff worker worker),
  refl,
  refl,
)

module _ (worker : String) where
  draining-worker_call :
      (c : WorkerCall) (controller : Controller)
      → contains worker controller.draining_workers ≡ true
      → contains worker (worker_call c controller).draining_workers ≡ true
  unfolding begin_drain checkpoint_and_release capture_terminal_failure contains assign
  draining-worker_call (draining w) controller h = ground arith
  draining-worker_call (releasing w ref) controller h = ground arith
  draining-worker_call (failing w reason) controller h = ground arith
  draining-worker_call (dispatching w jobs now) controller h = ground arith

  draining-worker_calls :
      (cs : List WorkerCall) (controller : Controller)
      → contains worker controller.draining_workers ≡ true
      → contains worker (worker_calls cs controller).draining_workers ≡ true
  draining-worker_calls [] controller h = h
  draining-worker_calls (c ∷ cs) controller h =
      draining-worker_calls cs (worker_call c controller) (draining-worker_call c controller h)

  draining-begin_drain :
      (controller : Controller)
      → contains worker (begin_drain worker controller).1.draining_workers ≡ true
  unfolding begin_drain contains
  draining-begin_drain controller = ground (arith, string_key.beq_iff worker worker)

  -- Once its drain has begun, a worker is assigned no job, whatever other calls are made.
  pub assign-begin_drain :
      (cs : List WorkerCall) (job : QueuedJob) (controller : Controller)
      → assign worker job (worker_calls cs (begin_drain worker controller).1)
        ≡ raise (value_error ("Worker `" <> worker <> "` is draining and cannot accept new jobs."))
  unfolding assign
  assign-begin_drain cs job controller =
      rw (
        draining-worker_calls cs (begin_drain worker controller).1
          (draining-begin_drain controller))
