-- ===== src/ControlPlane/Examples/Profile.antt =====
-- The protected profile as a configuration that the validator accepts.
use multi_agent_langgraph.Base.{
  ◌≡◌, refl, String, true, false, ◌==◌, Option, some, List, [], ◌∷◌, ◌++◌, map, ok, contains,
  string_key, sorted, any,
}
use multi_agent_langgraph.Base.Dict.{lookup, insert, index}
use multi_agent_langgraph.ControlPlane.Graph.{
  HandlerKind, system, GraphNodeConfig, GraphEdgeConfig, RouteHandlerRef, escalate, adjacency_of,
  walk, walk_each, paths_to_target,
}
use multi_agent_langgraph.ControlPlane.Graph.Routes.{Route, arrive, step}
use multi_agent_langgraph.ControlPlane.Validator.{
  GraphConfigVersion, GraphValidationResult, required_system_nodes, index_nodes, edge_errors,
  system_errors, missing_nodes, position, nodes_checks, paths_checks, protected_checks,
  escalation_checks, distinct, finish, node_index_of, validate,
}
use multi_agent_langgraph.ControlPlane.Validator.Protected.{IsProtected, validate-IsProtected}
use multi_agent_langgraph.ControlPlane.Examples.{edge}

abbrev node : String → GraphNodeConfig
node id = record {
  node_id = id;
  handler_name = id;
  handler_kind = system;
  writes_repo = id == "coder";
  is_human_approval = false;
  terminal = false;
}

abbrev ref : String → RouteHandlerRef
ref id = record { handler_name = id; handler_version = "v1"; handler_kind = system }

abbrev links : String → List String → List GraphEdgeConfig
links source [] = edge source "END" ∷ []
links source (target ∷ targets) = edge source target ∷ links target targets

abbrev route : List String
route =
    "load_constitution" ∷ "create_feature_spec" ∷ "clarify" ∷ "create_plan" ∷ "create_task_list"
    ∷ "readiness_gate" ∷ "coder" ∷ "tester" ∷ "reviewer" ∷ "pre_pr_sync" ∷ "pr_creator" ∷ []

abbrev profile : GraphConfigVersion
profile = record {
  config_version_id = "v1";
  profile_id = "ticket_to_pr_v1";
  graph_nodes = map node required_system_nodes;
  graph_edges =
      links "START" route
      ++ edge "tester" "coder"
        ∷ record (edge "tester" "escalate") {
          transition = escalate;
          escalation_reason = some "diff_too_large";
        }
        ∷ [];
  route_handlers = map ref required_system_nodes;
  invariant_profile = "ticket_to_pr_v1";
  created_by = "ada";
  created_at = 0;
}

abbrev registry : String → Option HandlerKind
registry name = some system

abbrev accepted : GraphValidationResult
accepted = record {
  compiles = true;
  invariant_errors = [];
  missing_escalation_sinks = [];
  protected_path_violations = [];
}

profile-accepted : validate registry profile ("diff_too_large" ∷ []) ≡ ok accepted
unfolding validate index_nodes edge_errors system_errors missing_nodes position nodes_checks
    paths_checks protected_checks escalation_checks distinct finish paths_to_target walk walk_each
    adjacency_of lookup insert index contains sorted
profile-accepted = refl

profile-Route : Route profile.graph_edges "pr_creator" "START" [] route
unfolding any contains
profile-Route =
    step (λ e. cc) refl refl
      (step (λ e. cc) refl refl
        (step (λ e. cc) refl refl
          (step (λ e. cc) refl refl
            (step (λ e. cc) refl refl
              (step (λ e. cc) refl refl
                (step (λ e. cc) refl refl
                  (step (λ e. cc) refl refl
                    (step (λ e. cc) refl refl
                      (step (λ e. cc) refl refl (step (λ e. cc) refl refl arrive))))))))))

validate-IsProtected_example : IsProtected (node_index_of registry profile) route
validate-IsProtected_example =
    validate-IsProtected registry profile ("diff_too_large" ∷ []) accepted profile-accepted refl
      refl refl refl route profile-Route
