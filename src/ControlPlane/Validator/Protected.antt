-- ===== src/ControlPlane/Validator/Protected.antt =====
-- The protected profile: `GraphConfigValidator.validate` of control_plane/graph.py and the routes to
-- `pr_creator`.
use multi_agent_langgraph.Base.{
  ◌≤◌, ◌≡◌, refl, sym, ap, ◌∙◌, arith, subst, is_empty-sorted, String, Bool, true, false, not, ◌&&◌,
  some, List, [], ◌∷◌, ◌++◌, string_key, contains, In, first, later, is_empty, sorted, ok,
  Option-cases, Result-cases, inl, inr,
}
use multi_agent_langgraph.Base.Dict.{lookup}
use multi_agent_langgraph.ControlPlane.Graph.{GraphNodeConfig, GraphEdgeConfig, paths_to_target}
use multi_agent_langgraph.ControlPlane.Graph.Routes.{Route}
use multi_agent_langgraph.ControlPlane.Graph.Paths.{paths_to_target-Route}
use multi_agent_langgraph.ControlPlane.Validator.{
  GraphConfigVersion, GraphValidationResult, Registry, NodeIndex, required_pr_path_nodes, when,
  missing_nodes, position, node_checks, nodes_checks, paths_checks, protected_checks, distinct,
  finish, node_index_of, validate, both, escalation_checks, system_errors, required_system_nodes,
}

-- A node of the path may stand there: it needs no approval, and writes to the repository only from
-- the readiness gate on.
pub record IsGuarded (path : List String) (node : GraphNodeConfig) (id : String) : Type 0 where
  pub automatic : node.is_human_approval ≡ false
  pub gated :
      node.writes_repo ≡ true
      → (contains "readiness_gate" path ≡ true)
        × (position "readiness_gate" path ≤ position id path)

-- Every node that a route to a pull request needs is on the path, and each of its nodes is guarded.
pub record IsProtected (nodes : NodeIndex) (path : List String) : Type 0 where
  pub complete : (id : String) → In id required_pr_path_nodes → contains id path ≡ true
  pub guarded :
      (id : String)
      → In id path
      → (node : GraphNodeConfig) × (lookup id nodes ≡ some node) × IsGuarded path node id

is_empty-append-true {ℓ} :
    {A : Type ℓ} (xs ys : List A)
    → is_empty (xs ++ ys) ≡ true
    → (is_empty xs ≡ true) × (is_empty ys ≡ true)
is_empty-append-true [] ys h = (refl, h)
is_empty-append-true (x ∷ xs) ys h = cc

is_empty-when-true : (b : Bool) (text : String) → is_empty (when b text) ≡ true → b ≡ false
is_empty-when-true true text h = cc
is_empty-when-true false text h = refl

missing_nodes-contains :
    (path ids : List String)
    → is_empty (missing_nodes path ids) ≡ true
    → (id : String) → In id ids
    → contains id path ≡ true
unfolding missing_nodes
missing_nodes-contains path [] h id m = elim m [ ]
missing_nodes-contains path (r ∷ ids) h id first =
    let e = is_empty-append-true (when (not (contains r path)) _) (missing_nodes path ids) h in
    let f = is_empty-when-true (not (contains r path)) _ e.0 in ground (arith, f)
missing_nodes-contains path (r ∷ ids) h id (later m) =
    let e = is_empty-append-true (when (not (contains r path)) _) (missing_nodes path ids) h in
    missing_nodes-contains path ids e.1 id m

-- Both lists are empty.
abbrev clean : List String × List String → Bool
clean (errors, violations) = is_empty errors && is_empty violations

clean-both :
    (a b : List String × List String)
    → clean (both a b) ≡ true
    → (clean a ≡ true) × (clean b ≡ true)
clean-both (a, b) (c, d) h =
    let e = is_empty-append-true a c (ground arith) in
    let f = is_empty-append-true b d (ground arith) in (ground (arith, e, f), ground (arith, e, f))

clean-node_checks :
    (path : List String) (node : GraphNodeConfig) (id : String)
    → clean (node_checks path node id) ≡ true
    → IsGuarded path node id
clean-node_checks path node id h = record {
  automatic = ground arith;
  gated = λ w. (ground arith, ground arith);
}

nodes_checks-IsGuarded :
    (nodes : NodeIndex) (path ids : List String) (found : List String × List String)
    → nodes_checks nodes path ids ≡ ok found
    → clean found ≡ true
    → (id : String) → In id ids
    → (node : GraphNodeConfig) × (lookup id nodes ≡ some node) × IsGuarded path node id
unfolding nodes_checks
nodes_checks-IsGuarded nodes path [] found h c id m = elim m [ ]
nodes_checks-IsGuarded nodes path (i ∷ ids) found h c id m = elim (Option-cases (lookup i nodes)) [
  | inl absent ↦ absurd (ground arith)
  | inr (node, there) ↦ elim (Result-cases (nodes_checks nodes path ids)) [
    | inr (e, bad) ↦ absurd (ground arith)
    | inl (rest, done) ↦
        let split = clean-both (node_checks path node i) rest (ground arith) in
        at_or_after node there (clean-node_checks path node i split.0)
          (λ j n. nodes_checks-IsGuarded nodes path ids rest done split.1 j n) id m
  ]
]
  where
    at_or_after :
        (node : GraphNodeConfig)
        → lookup i nodes ≡ some node
        → IsGuarded path node i
        → ((j : String)
            → In j ids
            → (n : GraphNodeConfig) × (lookup j nodes ≡ some n) × IsGuarded path n j)
        → (k : String) → In k (i ∷ ids)
        → (n : GraphNodeConfig) × (lookup k nodes ≡ some n) × IsGuarded path n k
    at_or_after node there g f k first = (node, there, g)
    at_or_after node there g f k (later n) = f k n

paths_checks-IsProtected :
    (nodes : NodeIndex) (paths : List (List String)) (found : List String × List String)
    → paths_checks nodes paths ≡ ok found
    → clean found ≡ true
    → (path : List String) → In path paths
    → IsProtected nodes path
unfolding paths_checks
paths_checks-IsProtected nodes [] found h c path m = elim m [ ]
paths_checks-IsProtected nodes (p ∷ paths) found h c path m =
    elim (Result-cases (nodes_checks nodes p p)) [
      | inr (e, bad) ↦ absurd (ground arith)
      | inl (own, done) ↦ elim (Result-cases (paths_checks nodes paths)) [
        | inr (e, bad) ↦ absurd (ground arith)
        | inl (rest, more) ↦
            let missing = missing_nodes p required_pr_path_nodes in
            let outer = clean-both (both (missing, []) own) rest (ground arith) in
            let inner = clean-both (missing, []) own outer.0 in
            at_or_after
              (record {
                complete =
                    λ id n. missing_nodes-contains p required_pr_path_nodes (ground arith) id n;
                guarded = λ id n. nodes_checks-IsGuarded nodes p p own done inner.1 id n;
              })
              (λ q n. paths_checks-IsProtected nodes paths rest more outer.1 q n) path m
      ]
    ]
  where
    at_or_after :
        IsProtected nodes p
        → ((q : List String) → In q paths → IsProtected nodes q)
        → (q : List String) → In q (p ∷ paths)
        → IsProtected nodes q
    at_or_after own f q first = own
    at_or_after own f q (later n) = f q n

is_empty-distinct : (xs : List String) → is_empty (distinct xs) ≡ is_empty xs
unfolding distinct contains
is_empty-distinct [] = refl
is_empty-distinct (x ∷ xs) = ground (arith, is_empty-distinct xs)

protected_checks-IsProtected :
    (nodes : NodeIndex) (edges : List GraphEdgeConfig) (found : List String × List String)
    → protected_checks nodes edges ≡ ok found
    → clean found ≡ true
    → (path : List String) → Route edges "pr_creator" "START" [] path
    → IsProtected nodes path
unfolding protected_checks
protected_checks-IsProtected nodes edges found h c path r =
    let (paths, searched, exact) = paths_to_target-Route edges "pr_creator" in
    let before =
      system_errors nodes required_system_nodes
      ++ when (is_empty paths) "No success path reaches `pr_creator`." in
    elim (Result-cases (paths_checks nodes paths)) [
      | inr (e, bad) ↦ absurd (ground (arith, searched))
      | inl (checks, done) ↦
          paths_checks-IsProtected nodes paths checks done
            (clean-both (before, []) checks
              (subst (λ f. clean f ≡ true) (sym (found_is paths searched checks done)) c)).1
            path ((exact path).1 r)
    ]
  where
    found_is :
        (paths : List (List String))
        → paths_to_target edges "pr_creator" ≡ some paths
        → (checks : List String × List String) → paths_checks nodes paths ≡ ok checks
        → both
            (
              system_errors nodes required_system_nodes
                  ++ when (is_empty paths) "No success path reaches `pr_creator`.",
              [],
            )
            checks
          ≡ found
    found_is paths searched checks done = ground (arith, searched, done)

clean-finish :
    (checks edge_checks : List String × List String)
    → (finish checks edge_checks).invariant_errors ≡ []
    → (finish checks edge_checks).protected_path_violations ≡ []
    → clean checks ≡ true
unfolding finish
clean-finish (errors, violations) (edge_problems, missing) h k =
    let e = is_empty-append-true errors edge_problems (nothing (errors ++ edge_problems) h) in
    let f = nothing violations k in ground (arith, e, f)
  where
    nothing : (xs : List String) → sorted (distinct xs) ≡ [] → is_empty xs ≡ true
    nothing xs n = sym (is_empty-distinct xs) ∙ sym (is_empty-sorted (distinct xs)) ∙ ap is_empty n

-- Where a configuration of the protected profile compiles, with no invariant error and no violation of
-- the protected path, every route from `START` to `pr_creator`, that is, every path along the edges
-- which passes no node twice and not `END`, has all the nodes that a pull request needs; each node of
-- it is configured, needs no manual approval, and writes to the repository only if it does not come
-- before `readiness_gate`.
pub validate-IsProtected :
    (registry : Registry) (config : GraphConfigVersion) (sinks : List String)
    (result : GraphValidationResult)
    → validate registry config sinks ≡ ok result
    → config.invariant_profile ≡ "ticket_to_pr_v1"
    → result.compiles ≡ true
    → result.invariant_errors ≡ []
    → result.protected_path_violations ≡ []
    → (path : List String) → Route config.graph_edges "pr_creator" "START" [] path
    → IsProtected (node_index_of registry config) path
unfolding validate
validate-IsProtected registry config sinks result h profile compiles errors violations path r =
    elim (Result-cases (protected_checks (node_index_of registry config) config.graph_edges)) [
      | inr (e, bad) ↦
          absurd (ground (arith, string_key.beq_iff config.invariant_profile "ticket_to_pr_v1"))
      | inl (checks, done) ↦
          let edge_checks = escalation_checks config.graph_edges sinks in
          protected_checks-IsProtected (node_index_of registry config) config.graph_edges checks
            done
            (clean-finish checks edge_checks
              (ground (arith, string_key.beq_iff config.invariant_profile "ticket_to_pr_v1"))
              (ground (arith, string_key.beq_iff config.invariant_profile "ticket_to_pr_v1")))
            path r
    ]
