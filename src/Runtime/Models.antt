-- ===== src/Runtime/Models.antt =====
-- runtime/models.py: the artifacts, the requests and the state of one ticket run.
-- Counters and limits are natural numbers: the code compares a limit only with counters that start
-- at 0 and grow, so that a negative limit acts as 0. `knowledge_excerpts` is left out: nothing in
-- the runtime reads or writes it.
pub mod Value
pub mod Readiness
use multi_agent_langgraph.Base.{
  ℕ, String, Bool, true, false, Option, none, some, List, [], ◌∷◌, ◌++◌, ◌<>◌, if◌then◌else◌,
  string_key, value_error, Result, ok, raise,
}
use multi_agent_langgraph.Base.Dict.{Dict, lookup, insert, erase}

pub data ArtifactKind : Type 0 where
  constitution feature_spec clarification_notes implementation_plan task_list : ArtifactKind

pub data ContextSource : Type 0 where
  jira repository run_state internal_knowledge first_party external_research : ContextSource

pub data RunNode : Type 0 where
  intake load_constitution create_feature_spec clarify create_plan create_task_list : RunNode
  readiness_gate coder tester reviewer pre_pr_sync pr_creator escalate : RunNode

pub data RunStatus : Type 0 where
  planning active paused completed : RunStatus

pub data EscalationReason : Type 0 where
  unresolved_ambiguity test_retry_budget_exhausted review_budget_exhausted : EscalationReason
  missing_or_failing_required_tests diff_too_large merge_conflict_detected : EscalationReason
  invalid_route_attempt missing_escalation_sink budget_exhausted : EscalationReason
  all_providers_unavailable provider_failover_exhausted : EscalationReason
  orphaned_budget_reservation_detected billing_reconciliation_drift : EscalationReason
  branch_protection_missing : EscalationReason

pub record TenantContext : Type 0 where
  pub tenant_id : String
  pub team_id : String

pub record RuntimeArtifact : Type 0 where
  pub artifact_id : String
  pub kind : ArtifactKind
  pub summary : String
  pub version : ℕ

pub data Category : Type 0 where
  implementation unit_test e2e_test quality : Category

pub data TargetKind : Type 0 where
  unit e2e : TargetKind

pub record TaskItem : Type 0 where
  pub task_id : String
  pub title : String
  pub category : Category
  pub paired_with : Option String

pub record TestTarget : Type 0 where
  pub name : String
  pub kind : TargetKind

pub record QualityTarget : Type 0 where
  pub name : String

-- `TaskListArtifact(RuntimeArtifact)`
pub record TaskListArtifact : Type 0 where
  pub artifact : RuntimeArtifact
  pub tasks : List TaskItem
  pub required_test_targets : List TestTarget
  pub required_quality_checks : List QualityTarget
  pub public_surface_change : Bool

pub record PlanningRequest : Type 0 where
  pub tenant_id : String
  pub team_id : String
  pub repo_id : String
  pub ticket_key : String
  pub summary : String
  pub implementation_tasks : List String
  pub ambiguous : Bool
  pub clarification_resolution_attempt : Option ℕ
  pub public_surface_change : Bool
  pub design_checks : List String
  pub config_snapshot_id : String
  pub graph_profile_id : String
  pub catalog_version : String
  pub max_clarification_iterations : ℕ
  pub max_test_retries : ℕ
  pub max_review_retries : ℕ
  pub force_missing_task_list : Bool
  pub force_not_ready : Bool

pub record ExecutionRequest : Type 0 where
  pub test_failures_before_pass : ℕ
  pub quality_failures_before_pass : ℕ
  pub missing_required_tests : Bool
  pub skip_required_tests : Bool
  pub diff_too_large : Bool
  pub merge_conflict : Bool
  pub repo_full_name : String
  pub target_branch : String
  pub github_token : String
  pub github_base_url : String

pub record ResolvedContextEntry : Type 0 where
  pub source : ContextSource
  pub content : String
  pub provenance : String

pub record ResolvedContextBundle : Type 0 where
  pub entries : List ResolvedContextEntry
  pub external_research_reason : Option String

pub record ContextRequest : Type 0 where
  pub available_context : ContextSource → Option (List String)
  pub external_research_reason : Option String

pub record TicketRunState : Type 0 where
  pub tenant_id : String
  pub team_id : String
  pub repo_id : String
  pub ticket_key : String
  pub run_id : String
  pub thread_id : String
  pub config_snapshot_id : String
  pub graph_profile_id : String
  pub catalog_version : String
  pub constitution : Option RuntimeArtifact
  pub feature_spec : Option RuntimeArtifact
  pub clarification_notes : Option RuntimeArtifact
  pub implementation_plan : Option RuntimeArtifact
  pub task_list : Option TaskListArtifact
  pub artifact_hashes : Dict String String
  pub status : RunStatus
  pub current_node : RunNode
  pub node_history : List RunNode
  pub paused_at_node : Option RunNode
  pub escalation_reason : Option EscalationReason
  pub escalation_sink : Option String
  pub clarification_attempts : ℕ
  pub max_clarification_iterations : ℕ
  pub clarification_complete : Bool
  pub spec_ready_for_implementation : Bool
  pub required_test_targets : List TestTarget
  pub required_quality_checks : List QualityTarget
  pub readiness_errors : List String
  pub test_retry_count : ℕ
  pub max_test_retries : ℕ
  pub tests_passed : Bool
  pub review_retry_count : ℕ
  pub max_review_retries : ℕ
  pub quality_checks_passed : Bool
  pub review_approved : Bool
  pub pre_pr_sync_passed : Bool
  pub branch_protection_passed : Bool
  pub pr_created : Bool
  pub last_retry_reason : Option String
  pub state_schema_version : String

-- `TicketRunState.new`: `run_id` is what `uuid4` returned.
unfoldable pub new : String → PlanningRequest → TicketRunState
new run_id request = record {
  tenant_id = request.tenant_id;
  team_id = request.team_id;
  repo_id = request.repo_id;
  ticket_key = request.ticket_key;
  run_id = run_id;
  thread_id = request.tenant_id <> ":" <> request.ticket_key <> ":" <> run_id;
  config_snapshot_id = request.config_snapshot_id;
  graph_profile_id = request.graph_profile_id;
  catalog_version = request.catalog_version;
  constitution = none;
  feature_spec = none;
  clarification_notes = none;
  implementation_plan = none;
  task_list = none;
  artifact_hashes = [];
  status = planning;
  current_node = intake;
  node_history = intake ∷ [];
  paused_at_node = none;
  escalation_reason = none;
  escalation_sink = none;
  clarification_attempts = 0;
  max_clarification_iterations = request.max_clarification_iterations;
  clarification_complete = false;
  spec_ready_for_implementation = false;
  required_test_targets = [];
  required_quality_checks = [];
  readiness_errors = [];
  test_retry_count = 0;
  max_test_retries = request.max_test_retries;
  tests_passed = false;
  review_retry_count = 0;
  max_review_retries = request.max_review_retries;
  quality_checks_passed = false;
  review_approved = false;
  pre_pr_sync_passed = false;
  branch_protection_passed = false;
  pr_created = false;
  last_retry_reason = none;
  state_schema_version = "1";
}

abbrev pub is_paused : RunStatus → Bool
is_paused paused = true
is_paused _ = false

unfoldable pub clear_pause : TicketRunState → TicketRunState
clear_pause run = record run {
  paused_at_node = none;
  escalation_reason = none;
  escalation_sink = none;
  status = if is_paused run.status then active else run.status;
}

unfoldable pub transition_to : RunNode → TicketRunState → TicketRunState
transition_to node run = record run {
  current_node = node;
  node_history = run.node_history ++ node ∷ [];
}

module _ {ℓ} {A : Type ℓ} (differs : A → A → Bool) where
  -- `PlanningRequest.normalize_ticket_id` on a payload whose keys are texts.
  abbrev adopt : Option A → Option A → Dict String (Option A) → Result (Dict String (Option A))
  adopt none (some ticket_id) normalized = ok (insert "ticket_key" (some ticket_id) normalized)
  adopt (some ticket_key) (some ticket_id) normalized =
      if differs ticket_key ticket_id
      then raise (value_error "`ticket_key` and `ticket_id` must match when both are provided.")
      else ok normalized
  adopt _ none normalized = ok normalized

  abbrev given : Option (Option A) → Option A
  given none = none
  given (some value) = value

  unfoldable pub normalize_ticket_id : Dict String (Option A) → Result (Dict String (Option A))
  normalize_ticket_id payload =
      adopt (given (lookup "ticket_key" payload)) (given (lookup "ticket_id" payload))
        (erase "ticket_id" payload)
