-- ===== src/Runtime/Workflow/Termination.antt =====
-- The number of supersteps that the workflow takes.
use multi_agent_langgraph.Base.{
  ℕ, zero, suc, ◌+◌, ◌-◌, ◌*◌, ◌≤◌, ◌<◌, ◌≡◌, ◌≢◌, arith, ok, raise, Result-cases, Error, inl, inr,
  String, Option,
}
use multi_agent_langgraph.Base.Dict.{Dict}
use multi_agent_langgraph.Runtime.Models.{
  RunNode, intake, load_constitution, create_feature_spec, clarify, create_plan, create_task_list,
  readiness_gate, coder, tester, reviewer, pre_pr_sync, pr_creator, escalate, PlanningRequest,
  ExecutionRequest, TicketRunState, new, transition_to,
}
use multi_agent_langgraph.Runtime.Context.Planning.{resolve-build_context_request}
use multi_agent_langgraph.Runtime.Planner.{record_artifact_hash}
use multi_agent_langgraph.Runtime.Workflow.{Services, WorkflowState, handle}
use multi_agent_langgraph.Runtime.Workflow.Graph.{node, end, visit, successor}
use multi_agent_langgraph.Runtime.Workflow.Engine.{Walks, stop, go, initial}

abbrev retries : TicketRunState → ℕ
retries run =
    3
    * ((run.max_test_retries - run.test_retry_count)
        + (run.max_review_retries - run.review_retry_count))

abbrev clarifications : TicketRunState → ℕ
clarifications run = run.max_clarification_iterations - run.clarification_attempts

-- A bound on the supersteps from a node on.
abbrev pub fuel : RunNode → TicketRunState → ℕ
fuel escalate run = 1
fuel pr_creator run = 2
fuel pre_pr_sync run = 3
fuel reviewer run = retries run + 4
fuel tester run = retries run + 5
fuel coder run = retries run + 6
fuel readiness_gate run = retries run + 7
fuel create_task_list run = retries run + 8
fuel create_plan run = retries run + 9
fuel clarify run = clarifications run + retries run + 10
fuel create_feature_spec run = clarifications run + retries run + 11
fuel load_constitution run = clarifications run + retries run + 12
fuel intake run = 0

-- A superstep uses up fuel, and never leads to a node that the graph lacks.
fuel-visit :
    (services : Services) (n m : RunNode) (s t : WorkflowState)
    → visit services n s ≡ ok (t, node m)
    → (0 < fuel m t.run) × (fuel m t.run < fuel n s.run)
unfolding visit handle successor transition_to record_artifact_hash
fuel-visit services intake m s t h = ground arith
fuel-visit services load_constitution m s t h = ground arith
fuel-visit services create_feature_spec m s t h = ground (
  arith,
  resolve-build_context_request (transition_to create_feature_spec s.run) s.planning_request,
)
fuel-visit services clarify m s t h = ground arith
fuel-visit services create_plan m s t h = ground arith
fuel-visit services create_task_list m s t h = ground arith
fuel-visit services readiness_gate m s t h = ground arith
fuel-visit services coder m s t h = ground arith
fuel-visit services tester m s t h = ground arith
fuel-visit services reviewer m s t h = ground arith
fuel-visit services pre_pr_sync m s t h = ground arith
fuel-visit services pr_creator m s t h = ground arith
fuel-visit services escalate m s t h = ground arith

-- No superstep fails, and no router answers with a label that its mapping lacks.
visit_total :
    (services : Services) (n : RunNode) (s : WorkflowState) (e : Error)
    → 0 < fuel n s.run
    → visit services n s ≢ raise e
unfolding visit handle successor transition_to record_artifact_hash
visit_total services intake s e p h = ground arith
visit_total services create_feature_spec s e p h =
    let run = transition_to create_feature_spec s.run in
    ground (arith, resolve-build_context_request run s.planning_request)
visit_total services _ s e p h = ground arith

-- From every node the walk reaches `END` within the node's fuel.
pub Walks-total :
    (services : Services) (bound : ℕ) (n : RunNode) (s : WorkflowState)
    → 0 < fuel n s.run
    → fuel n s.run ≤ bound
    → (k : ℕ) × (t : WorkflowState) × Walks (visit services) k n s t × (k ≤ bound)
Walks-total services zero n s p b = absurd (omega arith)
Walks-total services (suc bound) n s p b = elim (Result-cases (visit services n s)) [
  | inl ((t, end), h) ↦ (1, t, stop h, omega arith)
  | inl ((t, node m), h) ↦
      let (lives, falls) = fuel-visit services n m s t h in
      let (k, u, w, c) = Walks-total services bound m t lives (omega arith) in
      (suc k, u, go h w, omega arith)
  | inr (e, h) ↦ absurd (visit_total services n s e p h)
]

-- The supersteps of a run of `request`, at most.
abbrev pub superstep_bound : PlanningRequest → ℕ
superstep_bound request =
    request.max_clarification_iterations
    + 3 * (request.max_test_retries + request.max_review_retries)
    + 12

-- From `START` the workflow reaches `END`, whatever the request and the sinks, and takes at most
-- `max_clarification_iterations + 3 * (max_test_retries + max_review_retries) + 12` supersteps.
pub workflow_terminates :
    (services : Services) (request : PlanningRequest) (execution : Option ExecutionRequest)
    (sinks : Dict String String)
    → (k : ℕ) × (t : WorkflowState) × Walks
        (visit services)
        k
        load_constitution
        (initial services request execution sinks)
        t
      × (k ≤ superstep_bound request)
unfolding new
workflow_terminates services request execution sinks =
    Walks-total services (superstep_bound request) load_constitution
      (initial services request execution sinks) (omega arith) (omega arith)
