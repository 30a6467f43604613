-- ===== src/Runtime/Workflow/Safety.antt =====
-- What holds of every pull request that the workflow creates.
use multi_agent_langgraph.Base.{
  ℕ, ◌≡◌, arith, true, false, ◌||◌, Option, none, some, ok, String, refl,
}
use multi_agent_langgraph.Base.Dict.{Dict}
use multi_agent_langgraph.Runtime.Models.{
  RunNode, intake, load_constitution, create_feature_spec, clarify, create_task_list,
  readiness_gate, coder, tester, reviewer, pre_pr_sync, pr_creator, completed, PlanningRequest,
  ExecutionRequest, TaskListArtifact, TicketRunState, new, transition_to,
}
use multi_agent_langgraph.Runtime.Models.Readiness.{validate_for_repo_write}
use multi_agent_langgraph.Runtime.Context.Planning.{resolve-build_context_request}
use multi_agent_langgraph.Runtime.Planner.{
  record_artifact_hash, planned_task_list, create_task_list as plan_tasks,
}
use multi_agent_langgraph.Runtime.Workflow.{Services, WorkflowState, handle, protection}
use multi_agent_langgraph.Runtime.Workflow.Graph.{node, end, visit, successor}
use multi_agent_langgraph.Runtime.Workflow.Engine.{Walks, stop, go, initial}

-- The task list is there and `validate_for_repo_write` accepts it.
pub record HasReadyTasks (run : TicketRunState) : Type 0 where
  pub tasks : TaskListArtifact
  pub stored : run.task_list ≡ some tasks
  pub valid : (validate_for_repo_write tasks).0 ≡ true

module _ (services : Services) where
  -- The pre-PR checks, by the request and by what GitHub reports.
  pub record IsClear (request : ExecutionRequest) : Type 0 where
    pub small : request.diff_too_large ≡ false
    pub mergeable : request.merge_conflict ≡ false
    pub protected :
        (protection services request).passed || (protection services request).shadow_mode ≡ true

  -- Everything that stands between a ticket and its pull request.
  pub record IsApproved (s : WorkflowState) : Type 0 where
    pub ready : HasReadyTasks s.run
    pub tested : s.run.tests_passed ≡ true
    pub quality : s.run.quality_checks_passed ≡ true
    pub reviewed : s.run.review_approved ≡ true
    pub clear : IsClear s.execution_request
    pub synced : s.run.pre_pr_sync_passed ≡ true
    pub branch : s.run.branch_protection_passed ≡ true
    pub finished : s.run.status ≡ completed
    pub open_reason : s.run.escalation_reason ≡ none

  -- Past the readiness gate the tasks are ready; at the gate they are if the flag says so.
  abbrev AtNode : RunNode → TicketRunState → Type 0
  AtNode readiness_gate run = run.spec_ready_for_implementation ≡ true → HasReadyTasks run
  AtNode coder run = HasReadyTasks run
  AtNode tester run = HasReadyTasks run
  AtNode reviewer run = HasReadyTasks run
  AtNode pre_pr_sync run = HasReadyTasks run
  AtNode pr_creator run = HasReadyTasks run × (run.escalation_reason ≡ none)
  AtNode _ run = Unit

  record Inv (n : RunNode) (s : WorkflowState) : Type 0 where
    closed : s.run.pr_created ≡ false
    quality_reviewed : s.run.review_approved ≡ true → s.run.quality_checks_passed ≡ true
    sync_clear : s.run.pre_pr_sync_passed ≡ true → IsClear s.execution_request
    at_node : AtNode n s.run

  plan_tasks_ready :
      (run : TicketRunState) (request : PlanningRequest) (r : TicketRunState)
      → let (task_list, ready, errors) = plan_tasks services.host run request in
        r.task_list ≡ task_list → ready ≡ true → HasReadyTasks r
  unfolding plan_tasks
  plan_tasks_ready run request r e h = record {
    tasks = planned_task_list services.host request;
    stored = ground arith;
    valid = ground arith;
  }

  Inv-visit :
      (n m : RunNode) (s t : WorkflowState)
      → visit services n s ≡ ok (t, node m)
      → Inv n s
      → Inv m t
  unfolding visit handle successor transition_to record_artifact_hash
  Inv-visit intake m s t h i = ground arith
  Inv-visit create_feature_spec m s t h i =
      let run = transition_to create_feature_spec s.run in
      ground (arith, resolve-build_context_request run s.planning_request)
  Inv-visit clarify m s t h i = ground arith
  Inv-visit create_task_list m s t h i =
      let run = transition_to create_task_list s.run in
      ground (arith, plan_tasks_ready run s.planning_request t.run)
  Inv-visit readiness_gate m s t h i = ground arith
  Inv-visit coder m s t h i = ground arith
  Inv-visit tester m s t h i = ground arith
  Inv-visit reviewer m s t h i = ground arith
  Inv-visit pre_pr_sync m s t h i = ground arith
  Inv-visit pr_creator m s t h i = ground arith
  Inv-visit _ m s t h i = ground arith

  IsApproved-visit :
      (n : RunNode) (s t : WorkflowState)
      → visit services n s ≡ ok (t, end)
      → Inv n s
      → t.run.pr_created ≡ true
      → IsApproved t
  unfolding visit handle successor transition_to record_artifact_hash
  IsApproved-visit pr_creator s t h i p = ground arith
  IsApproved-visit create_feature_spec s t h i p =
      let run = transition_to create_feature_spec s.run in
      ground (arith, resolve-build_context_request run s.planning_request)
  IsApproved-visit _ s t h i p = ground arith

  Walks-IsApproved :
      {k : ℕ} {n : RunNode} {s t : WorkflowState}
      → Walks (visit services) k n s t
      → Inv n s
      → t.run.pr_created ≡ true
      → IsApproved t
  Walks-IsApproved {n = n} {s = s} {t = t} (stop h) i p = IsApproved-visit n s t h i p
  Walks-IsApproved {n = n} {s = s} (go {m = m} {s' = s'} h w) i p =
      Walks-IsApproved w (Inv-visit n m s s' h i) p

  -- When the workflow ends with a created pull request, its task list passed
  -- `validate_for_repo_write`, the required tests passed, the reviewer approved, the quality checks
  -- passed, the diff was neither too large nor in conflict, branch protection held or was only
  -- shadowed, the run is completed, and no escalation is pending.
  pub pr_created-IsApproved :
      (k : ℕ) (request : PlanningRequest) (execution : Option ExecutionRequest)
      (sinks : Dict String String) (t : WorkflowState)
      → Walks (visit services) k load_constitution (initial services request execution sinks) t
      → t.run.pr_created ≡ true
      → IsApproved t
  unfolding new
  pr_created-IsApproved k request execution sinks t w p =
      Walks-IsApproved w
        (record { closed = refl; quality_reviewed = λ h. cc; sync_clear = λ h. cc; at_node = tt }) p
