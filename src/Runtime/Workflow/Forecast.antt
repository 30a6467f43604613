-- ===== src/Runtime/Workflow/Forecast.antt =====
-- The outcome of a run, told in advance from its requests: a specification that has no loops.
pub mod Steps
use multi_agent_langgraph.Base.{
  ℕ, suc, ◌+◌, ◌≡◌, arith, Bool, true, false, not, ◌&&◌, ◌||◌, Option, none, some, ok, leb, ltb,
  is_empty, if◌then◌else◌, Option-cases, Bool-cases, inl, inr,
}
use multi_agent_langgraph.Runtime.Models.{
  RunNode, intake, load_constitution, create_feature_spec, clarify, create_plan, create_task_list,
  readiness_gate, coder, tester, reviewer, pre_pr_sync, pr_creator, escalate, EscalationReason,
  unresolved_ambiguity, review_budget_exhausted, missing_or_failing_required_tests, diff_too_large,
  merge_conflict_detected, invalid_route_attempt, branch_protection_missing, PlanningRequest,
  ExecutionRequest, TaskListArtifact, TicketRunState, transition_to,
}
use multi_agent_langgraph.Runtime.Context.Planning.{resolve-build_context_request}
use multi_agent_langgraph.Runtime.Planner.{
  planned_task_list, record_artifact_hash, create_task_list as plan_tasks,
}
use multi_agent_langgraph.Runtime.Planner.Ready.{
  plans_ready_tasks, create_task_list-ready, planned_targets,
}
use multi_agent_langgraph.Runtime.Workflow.{Services, WorkflowState, handle, protection}
use multi_agent_langgraph.Runtime.Workflow.Graph.{Target, node, end, visit, successor}

abbrev pub Outcome : Type 0
Outcome = Option EscalationReason

abbrev unless : Bool → EscalationReason → Outcome → Outcome
unless b reason rest = if b then some reason else rest

-- Whether a question that is asked `asked` times already is settled within `limit` rounds.
abbrev resolves : Option ℕ → ℕ → ℕ → Bool
resolves none asked limit = false
resolves (some attempt) asked limit = leb attempt (asked + 1) || leb attempt limit

-- Whether `needed` failures are too many after `retried` retries of at most `limit`.
abbrev exceeds : ℕ → ℕ → ℕ → Bool
exceeds needed retried limit = ltb retried needed && ltb limit needed

abbrev pub has_reason : Outcome → Bool
has_reason none = false
has_reason (some reason) = true

abbrev pub stays_ambiguous : PlanningRequest → ℕ → ℕ → Bool
stays_ambiguous request asked limit =
    request.ambiguous && not (resolves request.clarification_resolution_attempt asked limit)

module _ (services : Services) where
  unfoldable pub sync_outcome : ExecutionRequest → Outcome
  sync_outcome request =
      let result = protection services request in
      unless request.diff_too_large diff_too_large (
        unless request.merge_conflict merge_conflict_detected
          (unless (not result.passed && not result.shadow_mode) branch_protection_missing none))

  -- From the reviewer on, with `retried` review retries behind, when the tests pass.
  unfoldable pub review_outcome : ExecutionRequest → ℕ → ℕ → Outcome
  review_outcome request retried limit =
      unless (exceeds request.quality_failures_before_pass retried limit) review_budget_exhausted
        (sync_outcome request)

  abbrev tests_fail : ExecutionRequest → Bool → ℕ → ℕ → Bool
  tests_fail request untargeted retried limit =
      request.missing_required_tests
      || request.skip_required_tests
      || untargeted
      || exceeds request.test_failures_before_pass retried limit

  -- From the coder on: test retries and their limit, review retries and their limit.
  unfoldable pub test_outcome : ExecutionRequest → Bool → ℕ → ℕ → ℕ → ℕ → Outcome
  test_outcome request untargeted tests test_limit reviews review_limit =
      unless (tests_fail request untargeted tests test_limit) missing_or_failing_required_tests
        (review_outcome request reviews review_limit)

  abbrev test_outcome_at : WorkflowState → Outcome
  test_outcome_at s =
      test_outcome s.execution_request (is_empty s.run.required_test_targets) s.run.test_retry_count
        s.run.max_test_retries s.run.review_retry_count s.run.max_review_retries

  unfoldable pub task_outcome : PlanningRequest → ExecutionRequest → ℕ → ℕ → ℕ → ℕ → Outcome
  task_outcome planning request tests test_limit reviews review_limit =
      unless (not (plans_ready_tasks services.host planning)) invalid_route_attempt
        (test_outcome request false tests test_limit reviews review_limit)

  abbrev task_outcome_at : WorkflowState → Outcome
  task_outcome_at s =
      task_outcome s.planning_request s.execution_request s.run.test_retry_count
        s.run.max_test_retries s.run.review_retry_count s.run.max_review_retries

  abbrev clarify_outcome : WorkflowState → Outcome
  clarify_outcome s =
      unless
        (stays_ambiguous s.planning_request s.run.clarification_attempts
          s.run.max_clarification_iterations)
        unresolved_ambiguity (task_outcome_at s)

  abbrev flags_set : TicketRunState → Bool
  flags_set run =
      run.tests_passed && run.review_approved && run.pre_pr_sync_passed
      && run.branch_protection_passed

  abbrev lacks : Option TaskListArtifact → Bool
  lacks none = true
  lacks (some t) = false

  -- The escalation that a run at a node ends with, or `none` for a pull request.
  abbrev pub forecast : RunNode → WorkflowState → Outcome
  forecast intake s = none
  forecast load_constitution s = clarify_outcome s
  forecast create_feature_spec s = clarify_outcome s
  forecast clarify s = clarify_outcome s
  forecast create_plan s = task_outcome_at s
  forecast create_task_list s = task_outcome_at s
  forecast readiness_gate s =
      unless (lacks s.run.task_list || not s.run.spec_ready_for_implementation)
        invalid_route_attempt (test_outcome_at s)
  forecast coder s = test_outcome_at s
  forecast tester s = test_outcome_at s
  forecast reviewer s = unless (not s.run.tests_passed) invalid_route_attempt (
      if ltb s.run.review_retry_count s.execution_request.quality_failures_before_pass
      then unless (leb s.run.max_review_retries s.run.review_retry_count) review_budget_exhausted
          (test_outcome_at s)
      else sync_outcome s.execution_request)
  forecast pre_pr_sync s = elim (sync_outcome s.execution_request) [
    | some reason ↦ some reason
    | none ↦ unless (not (s.run.tests_passed && s.run.review_approved)) invalid_route_attempt none
  ]
  forecast pr_creator s = unless (not (flags_set s.run)) invalid_route_attempt none
  forecast escalate s = s.run.escalation_reason

  -- At `escalate` a reason is set; before, none is, and the questions of `clarify` are open.
  abbrev pub Quiet : RunNode → TicketRunState → Type 0
  Quiet escalate run = has_reason run.escalation_reason ≡ true
  Quiet load_constitution run =
      (run.escalation_reason ≡ none) × (run.clarification_complete ≡ false)
  Quiet create_feature_spec run =
      (run.escalation_reason ≡ none) × (run.clarification_complete ≡ false)
  Quiet clarify run = (run.escalation_reason ≡ none) × (run.clarification_complete ≡ false)
  Quiet _ run = run.escalation_reason ≡ none

-- The outcome of a whole run, from its requests.
abbrev pub expected_outcome : Services → PlanningRequest → ExecutionRequest → Outcome
expected_outcome services planning request =
    unless (stays_ambiguous planning 0 planning.max_clarification_iterations) unresolved_ambiguity (
      task_outcome services planning request 0 planning.max_test_retries 0
        planning.max_review_retries)
