-- ===== src/ControlPlane/Graph.antt =====
-- control_plane/graph.py: the parts of a graph configuration, and the search of
-- `GraphConfigValidator._paths_to_target`, a recursive function, here on fuel.
pub mod Paths
pub mod Routes
use multi_agent_langgraph.Base.{
  ℕ, zero, suc, ◌+◌, String, Bool, true, false, not, ◌&&◌, ◌||◌, Option, none, some, List, [], ◌∷◌,
  ◌++◌, ◌==◌, Eq, string_key, if◌then◌else◌, contains, length, is_empty, sorted, ◌<>◌,
}
use multi_agent_langgraph.Base.Dict.{Dict, lookup, insert, get_or, has_key, index}

pub data HandlerKind : Type 0 where
  system tenant_configurable : HandlerKind

pub data Transition : Type 0 where
  success retry escalate terminal break_glass : Transition

pub record RouteHandlerRef : Type 0 where
  pub handler_name : String
  pub handler_version : String
  pub handler_kind : HandlerKind

pub record GraphNodeConfig : Type 0 where
  pub node_id : String
  pub handler_name : String
  pub handler_kind : HandlerKind
  pub writes_repo : Bool
  pub is_human_approval : Bool
  pub terminal : Bool

pub record GraphEdgeConfig : Type 0 where
  pub source : String
  pub target : String
  pub transition : Transition
  pub escalation_reason : Option String

abbrev pub Adjacency : Type 0
Adjacency = Dict String (List String)

-- `adjacency[edge.source].append(edge.target)`, for each edge.
unfoldable pub adjacency_of : List GraphEdgeConfig → Adjacency → Adjacency
adjacency_of [] adjacency = adjacency
adjacency_of (edge ∷ edges) adjacency =
    adjacency_of edges
      (insert edge.source (get_or edge.source adjacency [] ++ edge.target ∷ []) adjacency)

abbrev pub neighbours : Adjacency → String → List String
neighbours adjacency node = get_or node adjacency []

-- What `walk` appends to `paths` is what it returns, `none` when the fuel is used up.
abbrev pub Found : Type 0
Found = Option (List (List String))

abbrev pub append_paths : Found → Found → Found
append_paths (some found) (some more) = some (found ++ more)
append_paths _ _ = none

-- The loop over the neighbours, with the walk from each.
unfoldable pub walk_each : (String → List String → Found) → List String → List String → Found
walk_each walk_from [] path = some []
walk_each walk_from (next ∷ nodes) path =
    let rest = walk_each walk_from nodes path in
    if next == "END" || contains next path
    then rest
    else append_paths (walk_from next (path ++ next ∷ [])) rest

unfoldable pub walk : Adjacency → String → ℕ → String → List String → Found
walk adjacency target zero current path = none
walk adjacency target (suc fuel) current path =
    if current == target
    then some (path ∷ [])
    else walk_each (walk adjacency target fuel) (neighbours adjacency current) path

-- As many steps as there are edges, and one more for `START`, are enough fuel.
unfoldable pub paths_to_target : List GraphEdgeConfig → String → Option (List (List String))
paths_to_target edges target = walk (adjacency_of edges []) target (suc (length edges)) "START" []
