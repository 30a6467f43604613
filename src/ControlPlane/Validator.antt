-- ===== src/ControlPlane/Validator.antt =====
-- control_plane/graph.py: `GraphConfigValidator.validate`. The handler registry is what `resolve`
-- gives for a name. The errors of a list are in the order in which the loops append them.
pub mod Protected
use multi_agent_langgraph.Base.{
  ℕ, suc, ◌+◌, String, Bool, true, false, not, ◌&&◌, ◌||◌, Option, none, some, List, [], ◌∷◌, ◌++◌,
  ltb, ◌==◌, Eq, string_key, if◌then◌else◌, contains, is_empty, sorted, ◌<>◌, Result, ok, raise,
  ◌>>=◌, key_error, graph_recursion_error,
}
use multi_agent_langgraph.Base.Dict.{Dict, lookup, insert, has_key, index}
use multi_agent_langgraph.ControlPlane.Graph.{
  HandlerKind, system, tenant_configurable, Transition, escalate, terminal, RouteHandlerRef,
  GraphNodeConfig, GraphEdgeConfig, Found, paths_to_target,
}

pub record GraphConfigVersion : Type 0 where
  pub config_version_id : String
  pub profile_id : String
  pub graph_nodes : List GraphNodeConfig
  pub graph_edges : List GraphEdgeConfig
  pub route_handlers : List RouteHandlerRef
  pub invariant_profile : String
  pub created_by : String
  pub created_at : ℕ

pub record GraphValidationResult : Type 0 where
  pub compiles : Bool
  pub invariant_errors : List String
  pub missing_escalation_sinks : List String
  pub protected_path_violations : List String

abbrev pub required_system_nodes : List String
required_system_nodes =
    "load_constitution" ∷ "create_feature_spec" ∷ "clarify" ∷ "create_plan" ∷ "create_task_list"
    ∷ "readiness_gate" ∷ "coder" ∷ "tester" ∷ "reviewer" ∷ "pre_pr_sync" ∷ "pr_creator" ∷ "escalate"
    ∷ []

abbrev pub required_pr_path_nodes : List String
required_pr_path_nodes =
    "readiness_gate" ∷ "coder" ∷ "tester" ∷ "reviewer" ∷ "pre_pr_sync" ∷ "pr_creator" ∷ []

abbrev pub Registry : Type 0
Registry = String → Option HandlerKind

abbrev pub NodeIndex : Type 0
NodeIndex = Dict String GraphNodeConfig

abbrev handler_name_of : RouteHandlerRef → String
handler_name_of ref = ref.handler_name

abbrev is_system : HandlerKind → Bool
is_system system = true
is_system tenant_configurable = false

abbrev same_kind : HandlerKind → HandlerKind → Bool
same_kind system kind = is_system kind
same_kind tenant_configurable kind = not (is_system kind)

abbrev pub when : Bool → String → List String
when b text = if b then text ∷ [] else []

abbrev handler_errors : Option RouteHandlerRef → Option HandlerKind → GraphNodeConfig → List String
handler_errors none kind node =
    ("Node `" <> node.node_id <> "` references unknown handler `" <> node.handler_name <> "`.") ∷ []
handler_errors (some ref) none node =
    ("Handler `" <> node.handler_name <> "` is not present in the registry.") ∷ []
handler_errors (some ref) (some kind) node =
    when (not (same_kind kind node.handler_kind))
      ("Handler `" <> node.handler_name <> "` kind mismatch for node `" <> node.node_id <> "`.")

-- The loop over the nodes: the errors it appends, and the index it builds.
unfoldable pub index_nodes :
    Registry
    → Dict String RouteHandlerRef
    → List GraphNodeConfig
    → NodeIndex
    → List String × NodeIndex
index_nodes registry refs [] nodes = ([], nodes)
index_nodes registry refs (node ∷ rest) nodes =
    let duplicate = has_key node.node_id nodes in
    let (errors, indexed) =
      index_nodes registry refs rest
        (if duplicate then nodes else insert node.node_id node nodes) in
    (
      (if duplicate
            then ("Duplicate node id `" <> node.node_id <> "`.") ∷ []
            else handler_errors (lookup node.handler_name refs) (registry node.handler_name) node)
          ++ errors,
      indexed,
    )

unfoldable pub edge_errors : NodeIndex → List GraphEdgeConfig → List String
edge_errors nodes [] = []
edge_errors nodes (edge ∷ edges) =
    when (not (edge.source == "START") && not (has_key edge.source nodes))
      ("Edge source `" <> edge.source <> "` is not defined in the graph.")
    ++ (when (not (edge.target == "END") && not (has_key edge.target nodes))
          ("Edge target `" <> edge.target <> "` is not defined in the graph.")
        ++ edge_errors nodes edges)

abbrev bound_errors : Option GraphNodeConfig → String → List String
bound_errors none id = ("Protected profile is missing required node `" <> id <> "`.") ∷ []
bound_errors (some node) id =
    when (not (is_system node.handler_kind) || not (node.handler_name == id))
      ("Protected node `" <> id <> "` must remain bound to its system handler.")

unfoldable pub system_errors : NodeIndex → List String → List String
system_errors nodes [] = []
system_errors nodes (id ∷ ids) = bound_errors (lookup id nodes) id ++ system_errors nodes ids

unfoldable pub missing_nodes : List String → List String → List String
missing_nodes path [] = []
missing_nodes path (required ∷ ids) =
    when (not (contains required path))
      ("PR-reaching path is missing required node `" <> required <> "`.")
    ++ missing_nodes path ids

-- `path.index(id)`, for an id that the path has.
unfoldable pub position : String → List String → ℕ
position id [] = 0
position id (node ∷ path) = let rest = position id path in if node == id then 0 else suc rest

-- The invariant errors and the violations of one node of a path.
abbrev pub node_checks : List String → GraphNodeConfig → String → List String × List String
node_checks path node id = (
  when node.is_human_approval "Manual approval cannot appear on the normal PR-reaching path.",
  when
      (node.writes_repo
        && (not (contains "readiness_gate" path)
            || ltb (position id path) (position "readiness_gate" path)))
      ("Repo-writing node `" <> id <> "` is reachable before `readiness_gate`."),
)

abbrev pub both : List String × List String → List String × List String → List String × List String
both (errors, violations) (more_errors, more_violations) =
    (errors ++ more_errors, violations ++ more_violations)

abbrev at_node : Option GraphNodeConfig → String → Result GraphNodeConfig
at_node none id = raise (key_error id)
at_node (some node) id = ok node

-- The loop over the nodes of a path; `node_index[node_id]` may raise.
unfoldable pub nodes_checks :
    NodeIndex → List String → List String → Result (List String × List String)
nodes_checks nodes path [] = ok ([], [])
nodes_checks nodes path (id ∷ ids) = do
  node ← at_node (lookup id nodes) id
  rest ← nodes_checks nodes path ids
  ok (both (node_checks path node id) rest)

unfoldable pub paths_checks : NodeIndex → List (List String) → Result (List String × List String)
paths_checks nodes [] = ok ([], [])
paths_checks nodes (path ∷ paths) = do
  own ← nodes_checks nodes path path
  rest ← paths_checks nodes paths
  ok (both (both (missing_nodes path required_pr_path_nodes, []) own) rest)

-- The search has fuel enough, so that `none` is never read.
abbrev searched : Found → Result (List (List String))
searched none = raise graph_recursion_error
searched (some paths) = ok paths

unfoldable pub protected_checks :
    NodeIndex → List GraphEdgeConfig → Result (List String × List String)
protected_checks nodes edges = do
  paths ← searched (paths_to_target edges "pr_creator")
  checks ← paths_checks nodes paths
  ok (
      both
        (
          system_errors nodes required_system_nodes
              ++ when (is_empty paths) "No success path reaches `pr_creator`.",
          [],
        )
        checks)

abbrev needs_reason : Transition → Bool
needs_reason escalate = true
needs_reason terminal = true
needs_reason _ = false

abbrev reason_checks : Option String → GraphEdgeConfig → List String → List String × List String
reason_checks none edge sinks = (
  ("Edge `" <> edge.source <> "->" <> edge.target <> "` must declare an escalation reason.") ∷ [],
  [],
)
reason_checks (some reason) edge sinks = ([], when (not (contains reason sinks)) reason)

-- The invariant errors and the missing sinks of the edges.
unfoldable pub escalation_checks : List GraphEdgeConfig → List String → List String × List String
escalation_checks [] sinks = ([], [])
escalation_checks (edge ∷ edges) sinks =
    let rest = escalation_checks edges sinks in
    if needs_reason edge.transition
    then both (reason_checks edge.escalation_reason edge sinks) rest
    else rest

-- `sorted(set(texts))`
unfoldable pub distinct : List String → List String
distinct [] = []
distinct (text ∷ texts) =
    let rest = distinct texts in if contains text rest then rest else text ∷ rest

unfoldable pub finish :
    List String × List String → List String × List String → GraphValidationResult
finish (errors, violations) (edge_problems, missing) = record {
  compiles = true;
  invariant_errors = sorted (distinct (errors ++ edge_problems));
  missing_escalation_sinks = sorted (distinct missing);
  protected_path_violations = sorted (distinct violations);
}

abbrev pub node_index_of : Registry → GraphConfigVersion → NodeIndex
node_index_of registry config =
    (index_nodes registry (index handler_name_of config.route_handlers []) config.graph_nodes []).1

abbrev compile_errors : Registry → GraphConfigVersion → List String
compile_errors registry config =
    (index_nodes registry (index handler_name_of config.route_handlers []) config.graph_nodes []).0
    ++ edge_errors (node_index_of registry config) config.graph_edges

unfoldable pub validate : Registry → GraphConfigVersion → List String → Result GraphValidationResult
validate registry config sinks =
    let errors = compile_errors registry config in
    if not (is_empty errors)
    then ok (record {
      compiles = false;
      invariant_errors = errors;
      missing_escalation_sinks = [];
      protected_path_violations = [];
    })
    else do
      checks ←
          if config.invariant_profile == "ticket_to_pr_v1"
          then protected_checks (node_index_of registry config) config.graph_edges
          else ok ([], [])
      ok (finish checks (escalation_checks config.graph_edges sinks))
