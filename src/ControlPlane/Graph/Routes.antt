-- ===== src/ControlPlane/Graph/Routes.antt =====
-- The routes of a graph, in terms of its edges, and what a step of one leaves unvisited.
use multi_agent_langgraph.Base.{
  ℕ, ◌+◌, ◌≤◌, ◌≡◌, ◌≢◌, refl, arith, String, Bool, true, false, not, ◌&&◌, ◌||◌, List, [], ◌∷◌,
  ◌++◌, ◌==◌, string_key, contains, any, count_if,
}
use multi_agent_langgraph.Base.Dict.{insert, lookup-insert}
use multi_agent_langgraph.ControlPlane.Graph.{GraphEdgeConfig, Adjacency, adjacency_of, neighbours}

abbrev pub is_edge : String → String → GraphEdgeConfig → Bool
is_edge source target edge = edge.source == source && edge.target == target

contains-append :
    (n : String) (xs ys : List String) → contains n (xs ++ ys) ≡ (contains n xs || contains n ys)
unfolding contains
contains-append n [] ys = refl
contains-append n (x ∷ xs) ys = ground (arith, contains-append n xs ys)

pub contains-neighbours :
    (source target : String) (edges : List GraphEdgeConfig) (adjacency : Adjacency)
    → contains target (neighbours (adjacency_of edges adjacency) source)
      ≡ (contains target (neighbours adjacency source) || any (is_edge source target) edges)
unfolding adjacency_of any contains
contains-neighbours source target [] adjacency = ground arith
contains-neighbours source target (edge ∷ edges) adjacency =
    let grown = neighbours adjacency edge.source ++ edge.target ∷ [] in
    ground (
      arith,
      contains-neighbours source target edges (insert edge.source grown adjacency),
      lookup-insert edge.source source grown adjacency,
      contains-append target (neighbours adjacency edge.source) (edge.target ∷ []),
      string_key.beq_iff edge.source source,
    )

module _ (edges : List GraphEdgeConfig) (target : String) where
  -- A path that goes on from `current` along the edges to the target, never to `END` and to no node
  -- twice: what it has passed, and all that it passes.
  pub data Route : String → List String → List String → Type 0 where
    arrive : {path : List String} → Route target path path
    step :
        {current next : String} {path whole : List String}
        → current ≢ target
        → any (is_edge current next) edges ≡ true
        → (next == "END") || contains next path ≡ false
        → Route next (path ++ next ∷ []) whole
        → Route current path whole

  abbrev pub is_new : List String → GraphEdgeConfig → Bool
  is_new path edge = not (contains edge.target path)

  -- The edges that lead to no node of the path.
  abbrev pub unvisited : List String → ℕ
  unvisited path = count_if (is_new path) edges

module _ (path : List String) (next : String) where
  fewer :
      (edges : List GraphEdgeConfig)
      → count_if (λ e. not (contains e.target (path ++ next ∷ []))) edges
        ≤ count_if (λ e. not (contains e.target path)) edges
  unfolding count_if contains
  fewer [] = omega arith
  fewer (e ∷ es) = ground (arith, fewer es, contains-append e.target path (next ∷ []))

  pub fewer_by_one :
      (source : String) (edges : List GraphEdgeConfig)
      → any (is_edge source next) edges ≡ true
      → contains next path ≡ false
      → count_if (λ e. not (contains e.target (path ++ next ∷ []))) edges + 1
        ≤ count_if (λ e. not (contains e.target path)) edges
  unfolding count_if contains any
  fewer_by_one source [] h n = cc
  fewer_by_one source (e ∷ es) h n = ground (
    arith,
    fewer es,
    fewer_by_one source es,
    contains-append e.target path (next ∷ []),
    string_key.beq_iff e.target next,
    string_key.beq_iff next e.target,
  )
