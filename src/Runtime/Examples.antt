-- ===== src/Runtime/Examples.antt =====
-- Runs of the workflow on small requests, and the theorems about it at these.
pub mod Escalations
pub mod Planning
pub mod Store
use multi_agent_langgraph.Base.{
  ℕ, ◌≤◌, ◌≡◌, refl, arith, String, Bool, true, false, Option, none, some, List, [], ◌∷◌, ok, raise,
  Result, graph_recursion_error, subst, any, contains, decimal, join,
}
use multi_agent_langgraph.Base.Dict.{Dict, lookup, insert}
use multi_agent_langgraph.Github.BranchProtection.{
  null_api, verify, find_missing_protections, build_evidence,
}
use multi_agent_langgraph.Github.Json.{get, truthy}
use multi_agent_langgraph.Runtime.Models.{
  PlanningRequest, ExecutionRequest, TicketRunState, load_constitution, new, transition_to,
}
use multi_agent_langgraph.Runtime.Models.Value.{kind_value, reason_value, source_value}
use multi_agent_langgraph.Runtime.Models.Readiness.{
  collect, readiness_errors, pairing_errors, implementation_task_ids, paired_unit_tests,
  validate_for_repo_write,
}
use multi_agent_langgraph.Runtime.Context.{resolve}
use multi_agent_langgraph.Runtime.Planner.{
  build_context_request, record_artifact_hash, create_task_list, planned_task_list,
  create_clarification_notes, create_feature_spec, create_implementation_plan, load_for_run,
}
use multi_agent_langgraph.Runtime.Workflow.{Services, WorkflowState, handle}
use multi_agent_langgraph.Runtime.Workflow.Graph.{visit, successor}
use multi_agent_langgraph.Runtime.Workflow.Engine.{
  initial, default_escalation_sinks, execute, Walks,
}
use multi_agent_langgraph.Runtime.Workflow.Interpreter.{interpret, interpret-Follows}
use multi_agent_langgraph.Runtime.Workflow.Termination.{workflow_terminates}
use multi_agent_langgraph.Runtime.Workflow.Safety.{IsApproved, pr_created-IsApproved}
use multi_agent_langgraph.Runtime.Workflow.Forecast.{
  expected_outcome, task_outcome, test_outcome, review_outcome, sync_outcome,
}
use multi_agent_langgraph.Runtime.Workflow.Outcome.{IsSettled, workflow_outcome, execute_returns}
use multi_agent_langgraph.Runtime.Workflow.History.{IsWithin, retries_bounded}
use multi_agent_langgraph.Runtime.Workflow.Gate.{EndsWith, gate, pr_created-EndsWith}
use multi_agent_langgraph.Runtime.Repository.{
  Repository, save, validate_escalation_sinks, missing_sinks,
}

abbrev services : Services
services = record {
  host = record { run_uuid = "run-1"; artifact_uuid = λ kind. "artifact"; sha256_hex = λ s. s };
  verifier = record { api = null_api; shadow_mode = true };
  branch_protection_config = record {
    required_status_checks = [];
    require_review = true;
    require_signed_commits = false;
    require_linear_history = false;
  };
}

abbrev enforcing : Services
enforcing = record services { verifier = record { api = null_api; shadow_mode = false } }

abbrev planning : PlanningRequest
planning = record {
  tenant_id = "tenant-alpha";
  team_id = "team-core";
  repo_id = "repo-dev-squad";
  ticket_key = "ENG-1";
  summary = "Add login page";
  implementation_tasks = "Implement the requested change and supporting tests." ∷ [];
  ambiguous = false;
  clarification_resolution_attempt = some 1;
  public_surface_change = true;
  design_checks = "lint" ∷ "type_check" ∷ [];
  config_snapshot_id = "config-v1";
  graph_profile_id = "ticket_to_pr_v1";
  catalog_version = "catalog-v1";
  max_clarification_iterations = 2;
  max_test_retries = 2;
  max_review_retries = 1;
  force_missing_task_list = false;
  force_not_ready = false;
}

abbrev flaky : ExecutionRequest
flaky = record {
  test_failures_before_pass = 1;
  quality_failures_before_pass = 1;
  missing_required_tests = false;
  skip_required_tests = false;
  diff_too_large = false;
  merge_conflict = false;
  repo_full_name = "org/repo";
  target_branch = "main";
  github_token = "";
  github_base_url = "https://api.github.com";
}

abbrev start : WorkflowState
start = initial services planning (some flaky) default_escalation_sinks

abbrev or_start : Result WorkflowState → WorkflowState
or_start (ok s) = s
or_start (raise e) = start

-- All that a run computes through.
unfoldable program : Unit {0}
unfolding interpret visit handle new successor resolve any build_context_request transition_to
    record_artifact_hash create_task_list validate_for_repo_write pairing_errors
    implementation_task_ids planned_task_list contains paired_unit_tests decimal verify
    find_missing_protections get insert lookup build_evidence truthy collect readiness_errors
    kind_value reason_value source_value create_clarification_notes create_feature_spec
    create_implementation_plan load_for_run join
program = tt

final : WorkflowState
unfolding program
final = or_start (interpret 25 (visit services) load_constitution start)

pr_created-final : final.run.pr_created ≡ true
unfolding final
pr_created-final = refl

retries-final : (final.run.test_retry_count ≡ 1) × (final.run.review_retry_count ≡ 1)
unfolding final
retries-final = (refl, refl)

-- Sixteen supersteps, and not one fewer.
superstep_count :
    interpret 15 (visit services) load_constitution start ≡ raise graph_recursion_error
unfolding program
superstep_count = refl

-- The same run as a walk along the edges.
abbrev ended :
    (k : ℕ) × (t : WorkflowState) × Walks (visit services) k load_constitution start t × (k ≤ 23)
ended = workflow_terminates services planning (some flaky) default_escalation_sinks

workflow_terminates_example :
    (k : ℕ) × (t : WorkflowState) × Walks (visit services) k load_constitution start t × (k ≤ 23)
workflow_terminates_example =
    workflow_terminates services planning (some flaky) default_escalation_sinks

workflow_outcome_example :
    IsSettled default_escalation_sinks (expected_outcome services planning flaky) ended.1.run
workflow_outcome_example =
    workflow_outcome services ended.0 planning (some flaky) default_escalation_sinks ended.1 ended.2

expected_flaky : expected_outcome services planning flaky ≡ none
unfolding program task_outcome test_outcome review_outcome sync_outcome
expected_flaky = refl

IsSettled-flaky : IsSettled default_escalation_sinks none ended.1.run
IsSettled-flaky =
    subst (λ o. IsSettled default_escalation_sinks o ended.1.run) expected_flaky
      (workflow_outcome services ended.0 planning (some flaky) default_escalation_sinks ended.1
        ended.2)

pr_created-IsApproved_example : IsApproved services ended.1
pr_created-IsApproved_example =
    pr_created-IsApproved services ended.0 planning (some flaky) default_escalation_sinks ended.1
      ended.2 IsSettled-flaky.pr

pr_created-EndsWith_example : EndsWith gate ended.1.run.node_history
pr_created-EndsWith_example =
    pr_created-EndsWith services ended.0 planning (some flaky) default_escalation_sinks ended.1
      ended.2 IsSettled-flaky.pr

retries_bounded_example : IsWithin 1 ended.1.run
retries_bounded_example =
    retries_bounded services ended.0 planning (some flaky) default_escalation_sinks ended.1 ended.2

abbrev empty_repository : Repository
empty_repository = record { runs = [] }

default_sinks_valid : validate_escalation_sinks default_escalation_sinks none ≡ ok tt
unfolding validate_escalation_sinks missing_sinks lookup reason_value
default_sinks_valid = refl

execute_returns_example :
    (run : TicketRunState) × (execute services
        (interpret 25)
        planning
        (some flaky)
        none
        empty_repository
      ≡ ok (save run empty_repository))
    × IsSettled default_escalation_sinks (expected_outcome services planning flaky) run
execute_returns_example =
    execute_returns services (interpret 25) 25 planning (some flaky) none empty_repository
      (interpret-Follows 25) (omega arith) default_sinks_valid

-- The phase-one sinks, and no other.
abbrev phase_one_sinks : Dict String String
phase_one_sinks =
    ("unresolved_ambiguity", "a")
    ∷ ("test_retry_budget_exhausted", "b")
    ∷ ("review_budget_exhausted", "c")
    ∷ ("missing_or_failing_required_tests", "d")
    ∷ ("diff_too_large", "e")
    ∷ ("merge_conflict_detected", "f")
    ∷ ("invalid_route_attempt", "g")
    ∷ ("missing_escalation_sink", "h")
    ∷ []

phase_one_sinks_valid : validate_escalation_sinks phase_one_sinks none ≡ ok tt
unfolding validate_escalation_sinks missing_sinks lookup reason_value
phase_one_sinks_valid = refl
