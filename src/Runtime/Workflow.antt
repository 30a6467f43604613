-- ===== src/Runtime/Workflow.antt =====
-- runtime/workflow.py: the node handlers of `RuntimeWorkflow`. A handler mutates the run and returns
-- `{"run": run}`; here it returns the new run. What each handler does stands in the modules below.
pub mod Graph
pub mod Engine
pub mod Termination
pub mod Safety
pub mod Forecast
pub mod Outcome
pub mod Sinks
pub mod Interpreter
pub mod History
pub mod Gate
use multi_agent_langgraph.Base.{
  ℕ, ◌+◌, String, Bool, true, false, not, ◌&&◌, ◌||◌, Option, none, some, List, [], ◌∷◌,
  if◌then◌else◌, leb, ltb, is_empty, string_key, Result, ok, raise, ◌>>=◌, invalid_graph,
}
use multi_agent_langgraph.Base.Dict.{Dict, lookup}
use multi_agent_langgraph.Github.BranchProtection.{
  BranchProtectionConfig, BranchProtectionResult, Verifier, verify,
}
use multi_agent_langgraph.Runtime.Models.{
  RunNode, RunStatus, EscalationReason, unresolved_ambiguity, review_budget_exhausted,
  missing_or_failing_required_tests, diff_too_large, merge_conflict_detected, invalid_route_attempt,
  missing_escalation_sink, branch_protection_missing, RuntimeArtifact, TaskListArtifact,
  PlanningRequest, ExecutionRequest, TicketRunState, transition_to,
}
use multi_agent_langgraph.Runtime.Models.Value.{reason_value}
use multi_agent_langgraph.Runtime.Context.{resolve}
use multi_agent_langgraph.Runtime.Planner
use multi_agent_langgraph.Runtime.Planner.{Host, record_artifact_hash, build_context_request}

-- The services of `RuntimeWorkflow.__init__` that the handlers use.
pub record Services : Type 0 where
  pub host : Host
  pub verifier : Verifier
  pub branch_protection_config : BranchProtectionConfig

pub record WorkflowState : Type 0 where
  pub planning_request : PlanningRequest
  pub execution_request : ExecutionRequest
  pub escalation_sinks : Dict String String
  pub run : TicketRunState

-- `run.escalation_reason = reason; run.paused_at_node = node; return`
abbrev pub stop_at : RunNode → EscalationReason → TicketRunState → TicketRunState
stop_at node reason run = record run { escalation_reason = some reason; paused_at_node = some node }

abbrev reached : Option ℕ → ℕ → Bool
reached none attempts = false
reached (some attempt) attempts = leb attempt attempts

abbrev lacks_task_list : Option TaskListArtifact → Bool
lacks_task_list none = true
lacks_task_list (some t) = false

module _ (services : Services) where
  open services use {host}

  load_constitution : WorkflowState → TicketRunState
  load_constitution state =
      let run = transition_to RunNode.load_constitution state.run in
      let constitution =
        Planner.load_for_run host run.tenant_id run.repo_id run.config_snapshot_id in
      record_artifact_hash host (record run { constitution = some constitution }) constitution

  create_feature_spec : WorkflowState → Result TicketRunState
  create_feature_spec state = do
    let run = transition_to RunNode.create_feature_spec state.run
    context ← resolve (build_context_request run state.planning_request)
    let spec = Planner.create_feature_spec host run state.planning_request context
    ok (record_artifact_hash host (record run { feature_spec = some spec }) spec)

  abbrev ensure_notes : Option RuntimeArtifact → PlanningRequest → TicketRunState → TicketRunState
  ensure_notes (some notes) request run = run
  ensure_notes none request run =
      let notes = Planner.create_clarification_notes host run request in
      record_artifact_hash host (record run { clarification_notes = some notes }) notes

  abbrev retry_clarification : PlanningRequest → TicketRunState → TicketRunState
  retry_clarification request run =
      if reached request.clarification_resolution_attempt run.clarification_attempts
      then record run { clarification_complete = true }
      else if leb run.max_clarification_iterations run.clarification_attempts
      then stop_at RunNode.clarify unresolved_ambiguity run
      else record run { last_retry_reason = some "clarification_retry" }

  clarify : WorkflowState → TicketRunState
  clarify state =
      let request = state.planning_request in
      let entered = transition_to RunNode.clarify state.run in
      let run = ensure_notes entered.clarification_notes request entered in
      if not request.ambiguous
      then record run { clarification_complete = true }
      else retry_clarification request
          (record run { clarification_attempts = run.clarification_attempts + 1 })

  create_plan : WorkflowState → TicketRunState
  create_plan state =
      let run = transition_to RunNode.create_plan state.run in
      let plan = Planner.create_implementation_plan host run state.planning_request in
      record_artifact_hash host (record run { implementation_plan = some plan }) plan

  abbrev adopt_targets : Option TaskListArtifact → TicketRunState → TicketRunState
  adopt_targets none run = run
  adopt_targets (some t) run =
      record_artifact_hash host
        (record run {
          required_test_targets = t.required_test_targets;
          required_quality_checks = t.required_quality_checks;
        })
        t.artifact

  create_task_list : WorkflowState → TicketRunState
  create_task_list state =
      let run = transition_to RunNode.create_task_list state.run in
      let (task_list, ready, errors) = Planner.create_task_list host run state.planning_request in
      adopt_targets task_list (record run {
        task_list = task_list;
        spec_ready_for_implementation = ready;
        readiness_errors = errors;
      })

  readiness_gate : WorkflowState → TicketRunState
  readiness_gate state =
      let run = transition_to RunNode.readiness_gate state.run in
      if lacks_task_list run.task_list || not run.spec_ready_for_implementation
      then stop_at RunNode.readiness_gate invalid_route_attempt run
      else record run { status = RunStatus.active }

  coder : WorkflowState → TicketRunState
  coder state = record (transition_to RunNode.coder state.run) { status = RunStatus.active }

  tester : WorkflowState → TicketRunState
  tester state =
      let request = state.execution_request in
      let run = transition_to RunNode.tester state.run in
      let missing_or_skipped = request.missing_required_tests || request.skip_required_tests in
      let should_fail_tests = ltb run.test_retry_count request.test_failures_before_pass in
      let missing_declared_targets = is_empty run.required_test_targets in
      if missing_or_skipped || should_fail_tests || missing_declared_targets
      then if leb run.max_test_retries run.test_retry_count
        then stop_at RunNode.tester missing_or_failing_required_tests run
        else record run {
          test_retry_count = run.test_retry_count + 1;
          last_retry_reason = some (reason_value missing_or_failing_required_tests);
          tests_passed = false;
        }
      else record run { tests_passed = true }

  reviewer : WorkflowState → TicketRunState
  reviewer state =
      let run = transition_to RunNode.reviewer state.run in
      if not run.tests_passed
      then stop_at RunNode.reviewer invalid_route_attempt run
      else if ltb run.review_retry_count state.execution_request.quality_failures_before_pass
      then if leb run.max_review_retries run.review_retry_count
        then stop_at RunNode.reviewer review_budget_exhausted run
        else record run {
          review_retry_count = run.review_retry_count + 1;
          last_retry_reason = some (reason_value review_budget_exhausted);
          review_approved = false;
          quality_checks_passed = false;
        }
      else record run { quality_checks_passed = true; review_approved = true }

  abbrev protection : ExecutionRequest → BranchProtectionResult
  protection request =
      verify services.verifier request.repo_full_name request.target_branch request.github_token
        request.github_base_url services.branch_protection_config

  pre_pr_sync : WorkflowState → TicketRunState
  pre_pr_sync state =
      let request = state.execution_request in
      let run = transition_to RunNode.pre_pr_sync state.run in
      if request.diff_too_large
      then stop_at RunNode.pre_pr_sync diff_too_large run
      else if request.merge_conflict
      then stop_at RunNode.pre_pr_sync merge_conflict_detected run
      else let result = protection request in
        if not result.passed && not result.shadow_mode
        then stop_at RunNode.pre_pr_sync branch_protection_missing run
        else record run {
          branch_protection_passed = result.passed || result.shadow_mode;
          pre_pr_sync_passed = true;
        }

  pr_creator : WorkflowState → TicketRunState
  pr_creator state =
      let run = transition_to RunNode.pr_creator state.run in
      if not (
        run.tests_passed && run.review_approved && run.pre_pr_sync_passed
        && run.branch_protection_passed)
      then stop_at RunNode.pr_creator invalid_route_attempt run
      else record run { pr_created = true; status = RunStatus.completed }

  abbrev or_node : Option RunNode → RunNode → Option RunNode
  or_node none node = some node
  or_node (some n) node = some n

  abbrev ensure_reason : Option EscalationReason → TicketRunState → TicketRunState
  ensure_reason (some reason) run = run
  ensure_reason none run = record run {
    escalation_reason = some missing_escalation_sink;
    paused_at_node = or_node run.paused_at_node RunNode.escalate;
  }

  abbrev reason_text : Option EscalationReason → String
  reason_text none = ""
  reason_text (some reason) = reason_value reason

  abbrev assign_sink : Option String → TicketRunState → TicketRunState
  assign_sink none run = record run {
    escalation_reason = some missing_escalation_sink;
    escalation_sink = none;
  }
  assign_sink (some sink) run = record run { escalation_sink = some sink }

  -- The reason is set when the sink is looked up, so that `reason_text none` is never read.
  escalate : WorkflowState → TicketRunState
  escalate state =
      let entered = transition_to RunNode.escalate state.run in
      let paused = record entered { status = RunStatus.paused } in
      let run = ensure_reason paused.escalation_reason paused in
      assign_sink (lookup (reason_text run.escalation_reason) state.escalation_sinks) run

  -- `add_node`: the handler of each node. No node is registered under `intake`.
  unfoldable pub handle : RunNode → WorkflowState → Result TicketRunState
  unfolding load_constitution create_feature_spec clarify create_plan create_task_list
      readiness_gate coder tester reviewer pre_pr_sync pr_creator escalate
  handle RunNode.intake state = raise invalid_graph
  handle RunNode.load_constitution state = ok (load_constitution state)
  handle RunNode.create_feature_spec state = create_feature_spec state
  handle RunNode.clarify state = ok (clarify state)
  handle RunNode.create_plan state = ok (create_plan state)
  handle RunNode.create_task_list state = ok (create_task_list state)
  handle RunNode.readiness_gate state = ok (readiness_gate state)
  handle RunNode.coder state = ok (coder state)
  handle RunNode.tester state = ok (tester state)
  handle RunNode.reviewer state = ok (reviewer state)
  handle RunNode.pre_pr_sync state = ok (pre_pr_sync state)
  handle RunNode.pr_creator state = ok (pr_creator state)
  handle RunNode.escalate state = ok (escalate state)
