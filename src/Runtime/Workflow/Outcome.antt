-- ===== src/Runtime/Workflow/Outcome.antt =====
-- The whole workflow, and `execute`, against a specification without loops.
use multi_agent_langgraph.Base.{
  ℕ, ◌≤◌, ◌≡◌, refl, arith, string_key, String, Bool, true, false, Option, none, some, ok,
}
use multi_agent_langgraph.Base.Dict.{Dict, lookup}
use multi_agent_langgraph.Runtime.Models.{
  RunNode, load_constitution, create_feature_spec, pr_creator, escalate, EscalationReason,
  missing_escalation_sink, PlanningRequest, ExecutionRequest, RunStatus, paused, completed,
  TicketRunState, new, transition_to,
}
use multi_agent_langgraph.Runtime.Models.Value.{reason_value}
use multi_agent_langgraph.Runtime.Context.Planning.{resolve-build_context_request}
use multi_agent_langgraph.Runtime.Planner.{record_artifact_hash}
use multi_agent_langgraph.Runtime.Repository.{Repository, save, validate_escalation_sinks}
use multi_agent_langgraph.Runtime.Workflow.{Services, WorkflowState, handle}
use multi_agent_langgraph.Runtime.Workflow.Graph.{node, end, visit, successor}
use multi_agent_langgraph.Runtime.Workflow.Engine.{
  Engine, Follows, Walks, stop, go, initial, execution_of, sinks_of, execute,
}
use multi_agent_langgraph.Runtime.Workflow.Termination.{superstep_bound, workflow_terminates}
use multi_agent_langgraph.Runtime.Workflow.Forecast.{Outcome, Quiet, forecast, expected_outcome}
use multi_agent_langgraph.Runtime.Workflow.Forecast.Steps.{IsOpen, Quiet-visit, forecast-visit}

-- How a run ends with an outcome, under the registered sinks: a reason without a sink is replaced
-- by `missing_escalation_sink`.
abbrev pub created : Outcome → Bool
created none = true
created (some reason) = false

abbrev pub final_status : Outcome → RunStatus
final_status none = completed
final_status (some reason) = paused

abbrev pub final_sink : Dict String String → Outcome → Option String
final_sink sinks none = none
final_sink sinks (some reason) = lookup (reason_value reason) sinks

abbrev unless_missing : Option String → EscalationReason → Outcome
unless_missing none reason = some missing_escalation_sink
unless_missing (some sink) reason = some reason

abbrev pub final_reason : Dict String String → Outcome → Outcome
final_reason sinks none = none
final_reason sinks (some reason) = unless_missing (lookup (reason_value reason) sinks) reason

pub record IsSettled (sinks : Dict String String) (outcome : Outcome) (run : TicketRunState)
    : Type 0 where
  pub pr : run.pr_created ≡ created outcome
  pub status : run.status ≡ final_status outcome
  pub reason : run.escalation_reason ≡ final_reason sinks outcome
  pub sink : run.escalation_sink ≡ final_sink sinks outcome

module _ (services : Services) where
  IsSettled-visit :
      (n : RunNode) (s t : WorkflowState)
      → visit services n s ≡ ok (t, end)
      → IsOpen s.run
      → Quiet services n s.run
      → IsSettled s.escalation_sinks (forecast services n s) t.run
  unfolding visit handle successor transition_to record_artifact_hash
  IsSettled-visit create_feature_spec s t h c q =
      let run = transition_to create_feature_spec s.run in
      ground (arith, resolve-build_context_request run s.planning_request)
  IsSettled-visit escalate s t h c q = ground arith
  IsSettled-visit pr_creator s t h c q = ground arith
  IsSettled-visit _ s t h c q = ground arith

  sinks-visit :
      (n m : RunNode) (s t : WorkflowState)
      → visit services n s ≡ ok (t, node m)
      → t.escalation_sinks ≡ s.escalation_sinks
  unfolding visit
  sinks-visit n m s t h = ground arith

  Walks-IsSettled :
      {k : ℕ} {n : RunNode} {s t : WorkflowState}
      → Walks (visit services) k n s t
      → IsOpen s.run
      → Quiet services n s.run
      → IsSettled s.escalation_sinks (forecast services n s) t.run
  Walks-IsSettled {n = n} {s = s} {t = t} (stop h) c q = IsSettled-visit n s t h c q
  Walks-IsSettled {n = n} {s = s} {t = t} (go {m = m} {s' = s'} h w) c q =
      let (q', c') = Quiet-visit services n m s s' h c q in
      rw (forecast-visit services n m s s' h q)
        (rw (← sinks-visit n m s s' h) (Walks-IsSettled w c' q'))

  -- Whichever way the workflow reaches `END`, the run ends as `expected_outcome` tells from the
  -- requests: with a pull request when nothing stands against it, else paused with the reason and
  -- its sink, where a reason without a registered sink becomes `missing_escalation_sink`.
  pub workflow_outcome :
      (k : ℕ) (request : PlanningRequest) (execution : Option ExecutionRequest)
      (sinks : Dict String String) (t : WorkflowState)
      → Walks (visit services) k load_constitution (initial services request execution sinks) t
      → IsSettled sinks (expected_outcome services request (execution_of execution)) t.run
  unfolding new
  workflow_outcome k request execution sinks t w =
      Walks-IsSettled w (record { uncreated = refl; unsent = refl }) (refl, refl)

  -- With an engine that follows the edges within a recursion limit that covers the request, and
  -- with sinks that pass validation, `execute` returns a run that ended as `expected_outcome` tells,
  -- and stores it.
  pub execute_returns :
      (engine : Engine) (limit : ℕ) (request : PlanningRequest)
      (execution : Option ExecutionRequest) (sinks : Option (Dict String String))
      (repository : Repository)
      → Follows engine limit
      → superstep_bound request ≤ limit
      → validate_escalation_sinks (sinks_of sinks) none ≡ ok tt
      → (run : TicketRunState) × (execute services engine request execution sinks repository
          ≡ ok (save run repository))
        × IsSettled
            (sinks_of sinks)
            (expected_outcome services request (execution_of execution))
            run
  unfolding execute
  execute_returns engine limit request execution sinks repository f b v =
      let (k, t, w, c) = workflow_terminates services request execution (sinks_of sinks) in
      (
        t.run,
        rw (v, f.returns (visit services) k load_constitution _ t w (omega arith)),
        workflow_outcome k request execution (sinks_of sinks) t w,
      )
