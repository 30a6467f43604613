-- ===== src/Runtime/Workflow/Gate.antt =====
-- What comes before a pull request: the last nodes of the history of a run.
use mathlib.Core.List.{append_assoc}
use multi_agent_langgraph.Base.{
  ℕ, ◌≡◌, refl, subst, arith, Bool, true, false, Option, List, [], ◌∷◌, ◌++◌, ok, String,
}
use multi_agent_langgraph.Base.Dict.{Dict}
use multi_agent_langgraph.Runtime.Models.{
  RunNode, load_constitution, create_feature_spec, clarify, create_plan, create_task_list,
  readiness_gate, coder, tester, reviewer, pre_pr_sync, pr_creator, escalate, PlanningRequest,
  ExecutionRequest, new, transition_to,
}
use multi_agent_langgraph.Runtime.Context.Planning.{resolve-build_context_request}
use multi_agent_langgraph.Runtime.Planner.{record_artifact_hash}
use multi_agent_langgraph.Runtime.Workflow.{Services, WorkflowState, handle}
use multi_agent_langgraph.Runtime.Workflow.Graph.{node, end, visit, successor}
use multi_agent_langgraph.Runtime.Workflow.Engine.{Walks, stop, go, initial}

-- The last nodes of a history.
pub record EndsWith (suffix history : List RunNode) : Type 0 where
  pub before : List RunNode
  pub split : history ≡ before ++ suffix

EndsWith-snoc :
    (suffix history : List RunNode) (n : RunNode)
    → EndsWith suffix history
    → EndsWith (suffix ++ n ∷ []) (history ++ n ∷ [])
EndsWith-snoc suffix history n e = record {
  before = e.before;
  split = rw e.split (append_assoc e.before suffix (n ∷ []));
}

-- What has just run when a node is entered.
abbrev Passed : RunNode → List RunNode → Type 0
Passed tester history = EndsWith (coder ∷ []) history
Passed reviewer history = EndsWith (coder ∷ tester ∷ []) history
Passed pre_pr_sync history = EndsWith (coder ∷ tester ∷ reviewer ∷ []) history
Passed pr_creator history = EndsWith (coder ∷ tester ∷ reviewer ∷ pre_pr_sync ∷ []) history
Passed _ history = Unit

coder_last : (history : List RunNode) → EndsWith (coder ∷ []) (history ++ coder ∷ [])
coder_last history = record { before = history; split = refl }

abbrev pub gate : List RunNode
gate = coder ∷ tester ∷ reviewer ∷ pre_pr_sync ∷ pr_creator ∷ []

-- The edges of the graph, without their conditions.
abbrev pub is_edge : RunNode → RunNode → Bool
is_edge load_constitution create_feature_spec = true
is_edge create_feature_spec clarify = true
is_edge clarify clarify = true
is_edge clarify create_plan = true
is_edge clarify escalate = true
is_edge create_plan create_task_list = true
is_edge create_task_list readiness_gate = true
is_edge readiness_gate coder = true
is_edge readiness_gate escalate = true
is_edge coder tester = true
is_edge tester coder = true
is_edge tester reviewer = true
is_edge tester escalate = true
is_edge reviewer coder = true
is_edge reviewer pre_pr_sync = true
is_edge reviewer escalate = true
is_edge pre_pr_sync pr_creator = true
is_edge pre_pr_sync escalate = true
is_edge pr_creator escalate = true
is_edge _ _ = false

Passed-edge :
    (n m : RunNode) (history : List RunNode)
    → is_edge n m ≡ true
    → Passed n history
    → Passed m (history ++ n ∷ [])
Passed-edge coder tester history e p = coder_last history
Passed-edge tester reviewer history e p = EndsWith-snoc (coder ∷ []) history tester p
Passed-edge reviewer pre_pr_sync history e p =
    EndsWith-snoc (coder ∷ tester ∷ []) history reviewer p
Passed-edge pre_pr_sync pr_creator history e p =
    EndsWith-snoc (coder ∷ tester ∷ reviewer ∷ []) history pre_pr_sync p
Passed-edge _ tester history e p = cc
Passed-edge _ reviewer history e p = cc
Passed-edge _ pre_pr_sync history e p = cc
Passed-edge _ pr_creator history e p = cc
Passed-edge _ _ history e p = tt

module _ (services : Services) where
  -- A handler appends its node to the history.
  history-visit :
      (n m : RunNode) (s t : WorkflowState)
      → visit services n s ≡ ok (t, node m)
      → t.run.node_history ≡ s.run.node_history ++ n ∷ []
  unfolding visit handle successor transition_to record_artifact_hash
  history-visit create_feature_spec m s t h =
      let run = transition_to create_feature_spec s.run in
      ground (arith, resolve-build_context_request run s.planning_request)
  history-visit create_task_list m s t h = ground arith
  history-visit _ m s t h = ground arith

  edge-visit :
      (n m : RunNode) (s t : WorkflowState)
      → visit services n s ≡ ok (t, node m)
      → is_edge n m ≡ true
  unfolding visit handle successor transition_to record_artifact_hash
  edge-visit create_feature_spec m s t h =
      let run = transition_to create_feature_spec s.run in
      ground (arith, resolve-build_context_request run s.planning_request)
  edge-visit create_task_list m s t h = ground arith
  edge-visit _ m s t h = ground arith

  passed_end :
      (n : RunNode) (s t : WorkflowState)
      → visit services n s ≡ ok (t, end)
      → s.run.pr_created ≡ false
      → t.run.pr_created ≡ true
      → (n ≡ pr_creator) × (t.run.node_history ≡ s.run.node_history ++ pr_creator ∷ [])
  unfolding visit handle successor transition_to record_artifact_hash
  passed_end create_feature_spec s t h c p =
      let run = transition_to create_feature_spec s.run in
      ground (arith, resolve-build_context_request run s.planning_request)
  passed_end _ s t h c p = ground arith

  uncreated-visit :
      (n m : RunNode) (s t : WorkflowState)
      → visit services n s ≡ ok (t, node m)
      → s.run.pr_created ≡ false
      → t.run.pr_created ≡ false
  unfolding visit handle successor transition_to record_artifact_hash
  uncreated-visit create_feature_spec m s t h c =
      let run = transition_to create_feature_spec s.run in
      ground (arith, resolve-build_context_request run s.planning_request)
  uncreated-visit create_task_list m s t h c = ground arith
  uncreated-visit _ m s t h c = ground arith

  Walks-EndsWith :
      {k : ℕ} {n : RunNode} {s t : WorkflowState}
      → Walks (visit services) k n s t
      → Passed n s.run.node_history
      → s.run.pr_created ≡ false
      → t.run.pr_created ≡ true
      → EndsWith gate t.run.node_history
  Walks-EndsWith {n = n} {s = s} {t = t} (stop h) p c d =
      let (e, a) = passed_end n s t h c d in
      rw a (
        EndsWith-snoc (coder ∷ tester ∷ reviewer ∷ pre_pr_sync ∷ []) s.run.node_history pr_creator
          (subst (λ x. Passed x s.run.node_history) e p))
  Walks-EndsWith {n = n} {s = s} {t = t} (go {m = m} {s' = s'} h w) p c d =
      Walks-EndsWith w
        (rw (history-visit n m s s' h)
          (Passed-edge n m s.run.node_history (edge-visit n m s s' h) p))
        (uncreated-visit n m s s' h c) d

  -- When the workflow ends with a created pull request, its history ends with the coder, the tester,
  -- the reviewer, the pre-PR sync and the PR creator, in this order and with nothing in between.
  pub pr_created-EndsWith :
      (k : ℕ) (request : PlanningRequest) (execution : Option ExecutionRequest)
      (sinks : Dict String String) (t : WorkflowState)
      → Walks (visit services) k load_constitution (initial services request execution sinks) t
      → t.run.pr_created ≡ true
      → EndsWith gate t.run.node_history
  unfolding new
  pr_created-EndsWith k request execution sinks t w d = Walks-EndsWith w tt refl d
