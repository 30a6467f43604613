-- ===== src/Runtime/Planner.antt =====
-- runtime/planner.py: `StaticConstitutionLoader` and `RuleBasedPlannerArtifactService`.
pub mod Ready
use multi_agent_langgraph.Base.{
  ℕ, ◌+◌, String, Bool, false, Option, none, some, List, [], ◌∷◌, ◌++◌, ◌<>◌, ◌==◌, string_key,
  if◌then◌else◌, map, decimal, join,
}
use multi_agent_langgraph.Base.Dict.{insert}
use multi_agent_langgraph.Runtime.Models.{
  ArtifactKind, RuntimeArtifact, Category, ContextSource, implementation, unit_test, e2e_test,
  quality, unit, e2e, TaskItem, TestTarget, QualityTarget, TaskListArtifact, PlanningRequest, jira,
  repository, run_state, first_party, ContextRequest, ResolvedContextBundle, TicketRunState,
}
use multi_agent_langgraph.Runtime.Models.Value.{source_value, kind_value}
use multi_agent_langgraph.Runtime.Models.Readiness.{validate_for_repo_write}

-- What the runtime takes from outside: the results of `uuid4` in one run, `sha256(…).hexdigest()`.
pub record Host : Type 0 where
  pub run_uuid : String
  pub artifact_uuid : ArtifactKind → String
  pub sha256_hex : String → String

abbrev constitution_text : String
constitution_text =
    "LangGraph Dev Squad runs a planner-owned SDD workflow and blocks repo writes until readiness, tests, review, and pre-PR guards have passed."

abbrev implementation_id : ℕ → String
implementation_id index = "impl-" <> decimal index

abbrev unit_test_id : ℕ → String
unit_test_id index = "unit-" <> decimal index

abbrev item : String → String → Category → Option String → TaskItem
item task_id title category paired_with = record {
  task_id = task_id;
  title = title;
  category = category;
  paired_with = paired_with;
}

-- The loop over `implementation_tasks`, from `index`: the tasks, and the targets.
implementation_items : ℕ → List String → List TaskItem
implementation_items index [] = []
implementation_items index (title ∷ titles) =
    item (implementation_id index) title implementation none
    ∷ item (unit_test_id index) ("Unit coverage for: " <> title) unit_test
        (some (implementation_id index))
    ∷ implementation_items (index + 1) titles

unit_targets : ℕ → List String → List TestTarget
unit_targets index [] = []
unit_targets index (title ∷ titles) =
    record { name = unit_test_id index; kind = unit } ∷ unit_targets (index + 1) titles

quality_items : ℕ → List QualityTarget → List TaskItem
quality_items index [] = []
quality_items index (target ∷ targets) =
    item ("quality-" <> decimal index) ("Quality gate: " <> target.name) quality none
    ∷ quality_items (index + 1) targets

abbrev quality_targets : List String → List QualityTarget
quality_targets checks = map (λ check_name. record { name = check_name }) checks

abbrev one_if {ℓ} : {A : Type ℓ} → Bool → A → List A
one_if b a = if b then a ∷ [] else []

module _ (host : Host) where
  abbrev artifact : ArtifactKind → String → RuntimeArtifact
  artifact kind summary = record {
    artifact_id = host.artifact_uuid kind;
    kind = kind;
    summary = summary;
    version = 1;
  }

  unfoldable pub load_for_run : String → String → String → RuntimeArtifact
  load_for_run tenant_id repo_id config_snapshot_id = artifact ArtifactKind.constitution (
      constitution_text <> " tenant=" <> tenant_id <> " repo=" <> repo_id <> " snapshot="
      <> config_snapshot_id)

  unfoldable pub create_feature_spec :
      TicketRunState → PlanningRequest → ResolvedContextBundle → RuntimeArtifact
  create_feature_spec run request context =
      let context_sources = join ", " (map (λ entry. source_value entry.source) context.entries) in
      artifact ArtifactKind.feature_spec (
        "Ticket "
        <> request.ticket_key
        <> ": "
        <> request.summary
        <> ". Context order used: "
        <> (if context_sources == "" then "none" else context_sources)
        <> ".")

  unfoldable pub create_clarification_notes : TicketRunState → PlanningRequest → RuntimeArtifact
  create_clarification_notes run request = artifact ArtifactKind.clarification_notes (
      if request.ambiguous
      then "Ambiguity detected. Clarification stays autonomous-first until the configured iteration limit is exhausted."
      else "No unresolved ambiguity detected for this ticket.")

  unfoldable pub create_implementation_plan : TicketRunState → PlanningRequest → RuntimeArtifact
  create_implementation_plan run request = artifact ArtifactKind.implementation_plan (
      "Implementation plan for "
      <> request.ticket_key
      <> ": "
      <> join "; " request.implementation_tasks)

  unfoldable pub planned_task_list : PlanningRequest → TaskListArtifact
  unfolding implementation_items unit_targets quality_items
  planned_task_list request =
      let e2e_item =
        item "e2e-1" "End-to-end validation for public surface behavior" e2e_test none in
      let e2e_target : TestTarget = record { name = "e2e-1"; kind = e2e } in
      record {
        artifact = artifact ArtifactKind.task_list ("Task list for " <> request.ticket_key);
        tasks =
            implementation_items 1 request.implementation_tasks
            ++ (one_if request.public_surface_change e2e_item
                ++ quality_items 1 (quality_targets request.design_checks));
        required_test_targets =
            unit_targets 1 request.implementation_tasks
            ++ one_if request.public_surface_change e2e_target;
        required_quality_checks = quality_targets request.design_checks;
        public_surface_change = request.public_surface_change;
      }

  unfoldable pub create_task_list :
      TicketRunState → PlanningRequest → Option TaskListArtifact × Bool × List String
  create_task_list run request =
      if request.force_missing_task_list
      then (none, false, "Task list generation was intentionally disabled for this request." ∷ [])
      else let task_list = planned_task_list request in
        let (ready, errors) = validate_for_repo_write task_list in
        if request.force_not_ready
        then (
          some task_list,
          false,
          errors ++ "Readiness was intentionally forced off for this request." ∷ [],
        )
        else (some task_list, ready, errors)

  unfoldable pub record_artifact_hash : TicketRunState → RuntimeArtifact → TicketRunState
  record_artifact_hash run artifact = record run {
    artifact_hashes =
        insert (kind_value artifact.kind) (host.sha256_hex artifact.summary) run.artifact_hashes;
  }

abbrev available : TicketRunState → PlanningRequest → ContextSource → Option (List String)
available run request jira = some ((request.ticket_key <> ": " <> request.summary) ∷ [])
available run request repository = some (("Repository scope: " <> request.repo_id) ∷ [])
available run request run_state = some (("Run identity: " <> run.run_id) ∷ [])
available run request first_party =
    some ("Constitution and product contracts from OpenSpec and AGENTS.md" ∷ [])
available run request _ = none

unfoldable pub build_context_request : TicketRunState → PlanningRequest → ContextRequest
build_context_request run request = record {
  available_context = available run request;
  external_research_reason = none;
}
