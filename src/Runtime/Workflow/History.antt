-- ===== src/Runtime/Workflow/History.antt =====
-- What the node history of a run shows: how often the coder ran, and what came before the end.
use multi_agent_langgraph.Base.{
  ℕ, ◌+◌, ◌≤◌, ◌≡◌, arith, Bool, true, false, Option, [], ◌∷◌, ok, String, count_if,
  count_if-append, max,
}
use multi_agent_langgraph.Base.Dict.{Dict}
use multi_agent_langgraph.Runtime.Models.{
  RunNode, load_constitution, create_feature_spec, clarify, create_task_list, coder, tester,
  reviewer, pre_pr_sync, pr_creator, escalate, PlanningRequest, ExecutionRequest, TicketRunState,
  new, transition_to,
}
use multi_agent_langgraph.Runtime.Context.Planning.{resolve-build_context_request}
use multi_agent_langgraph.Runtime.Planner.{record_artifact_hash}
use multi_agent_langgraph.Runtime.Workflow.{Services, WorkflowState, handle}
use multi_agent_langgraph.Runtime.Workflow.Graph.{node, end, visit, successor}
use multi_agent_langgraph.Runtime.Workflow.Engine.{Walks, stop, go, initial}

abbrev pub is_coder : RunNode → Bool
is_coder coder = true
is_coder _ = false

abbrev pub coder_runs : TicketRunState → ℕ
coder_runs run = count_if is_coder run.node_history

-- The coder runs that a node has behind it, beyond one for each retry.
abbrev extra : RunNode → ℕ
extra tester = 1
extra reviewer = 1
extra pre_pr_sync = 1
extra pr_creator = 1
extra escalate = 1
extra _ = 0

-- Retries stay within their limits, and each allows one more run of the coder.
pub record IsWithin (slack : ℕ) (run : TicketRunState) : Type 0 where
  pub tests : run.test_retry_count ≤ run.max_test_retries
  pub reviews : run.review_retry_count ≤ run.max_review_retries
  pub clarified : run.clarification_attempts ≤ max 1 run.max_clarification_iterations
  pub coded : coder_runs run ≤ run.test_retry_count + run.review_retry_count + slack

module _ (services : Services) where
  abbrev MayAsk : RunNode → TicketRunState → Type 0
  MayAsk clarify run = run.clarification_attempts + 1 ≤ max 1 run.max_clarification_iterations
  MayAsk load_constitution run =
      run.clarification_attempts + 1 ≤ max 1 run.max_clarification_iterations
  MayAsk create_feature_spec run =
      run.clarification_attempts + 1 ≤ max 1 run.max_clarification_iterations
  MayAsk _ run = Unit

  IsWithin-visit :
      (n m : RunNode) (s t : WorkflowState)
      → visit services n s ≡ ok (t, node m)
      → IsWithin (extra n) s.run
      → MayAsk n s.run
      → IsWithin (extra m) t.run × MayAsk m t.run
  unfolding visit handle successor transition_to record_artifact_hash count_if
  IsWithin-visit create_feature_spec m s t h i a =
      let run = transition_to create_feature_spec s.run in
      ground (
        arith,
        resolve-build_context_request run s.planning_request,
        count_if-append is_coder s.run.node_history (create_feature_spec ∷ []),
      )
  IsWithin-visit create_task_list m s t h i a =
      ground (arith, count_if-append is_coder s.run.node_history (create_task_list ∷ []))
  IsWithin-visit clarify m s t h i a =
      ground (arith, count_if-append is_coder s.run.node_history (clarify ∷ []))
  IsWithin-visit n m s t h i a =
      ground (arith, count_if-append is_coder s.run.node_history (n ∷ []))

  IsWithin-end :
      (n : RunNode) (s t : WorkflowState)
      → visit services n s ≡ ok (t, end)
      → IsWithin (extra n) s.run
      → IsWithin 1 t.run
  unfolding visit handle successor transition_to record_artifact_hash count_if
  IsWithin-end create_feature_spec s t h i =
      let run = transition_to create_feature_spec s.run in
      ground (arith, resolve-build_context_request run s.planning_request)
  IsWithin-end n s t h i = ground (arith, count_if-append is_coder s.run.node_history (n ∷ []))

  Walks-IsWithin :
      {k : ℕ} {n : RunNode} {s t : WorkflowState}
      → Walks (visit services) k n s t
      → IsWithin (extra n) s.run
      → MayAsk n s.run
      → IsWithin 1 t.run
  Walks-IsWithin {n = n} {s = s} {t = t} (stop h) i a = IsWithin-end n s t h i
  Walks-IsWithin {n = n} {s = s} (go {m = m} {s' = s'} h w) i a =
      let (i', a') = IsWithin-visit n m s s' h i a in Walks-IsWithin w i' a'

  -- When the workflow ends, the test retries, the review retries and the clarification attempts are
  -- within their limits (one clarification attempt is always made), and the coder ran at most once
  -- more than there were retries.
  pub retries_bounded :
      (k : ℕ) (request : PlanningRequest) (execution : Option ExecutionRequest)
      (sinks : Dict String String) (t : WorkflowState)
      → Walks (visit services) k load_constitution (initial services request execution sinks) t
      → IsWithin 1 t.run
  unfolding new count_if
  retries_bounded k request execution sinks t w =
      Walks-IsWithin w
        (record {
          tests = omega arith;
          reviews = omega arith;
          clarified = omega arith;
          coded = omega arith;
        })
        (omega arith)
