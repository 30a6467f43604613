-- ===== src/ControlPlane/Examples.antt =====
-- The search for paths in a small graph with a cycle.
pub mod Handlers
pub mod Profile
pub mod Retirement
pub mod Store
use multi_agent_langgraph.Base.{
  ◌≡◌, ◌↔◌, refl, String, none, some, List, [], ◌∷◌, In, contains, string_key,
}
use multi_agent_langgraph.Base.Dict.{lookup, insert}
use multi_agent_langgraph.ControlPlane.Graph.{
  GraphEdgeConfig, success, retry, adjacency_of, walk, walk_each, paths_to_target,
}
use multi_agent_langgraph.ControlPlane.Graph.Routes.{Route}
use multi_agent_langgraph.ControlPlane.Graph.Paths.{paths_to_target-Route}

abbrev edge : String → String → GraphEdgeConfig
edge source target = record {
  source = source;
  target = target;
  transition = success;
  escalation_reason = none;
}

abbrev edges : List GraphEdgeConfig
edges =
    edge "START" "coder"
    ∷ edge "coder" "tester"
    ∷ record (edge "tester" "coder") { transition = retry }
    ∷ edge "tester" "pr_creator"
    ∷ edge "coder" "pr_creator"
    ∷ edge "pr_creator" "END"
    ∷ []

two_paths :
    paths_to_target edges "pr_creator"
    ≡ some (("coder" ∷ "tester" ∷ "pr_creator" ∷ []) ∷ ("coder" ∷ "pr_creator" ∷ []) ∷ [])
unfolding paths_to_target walk walk_each adjacency_of lookup insert contains
two_paths = refl

paths_to_target-Route_example :
    (paths : List (List String)) × (paths_to_target edges "pr_creator" ≡ some paths)
    × ((p : List String) → In p paths ↔ Route edges "pr_creator" "START" [] p)
paths_to_target-Route_example = paths_to_target-Route edges "pr_creator"
