-- ===== src/Runtime/Workflow/Forecast/Steps.antt =====
-- The supersteps of the workflow and the outcome that `forecast` tells.
use multi_agent_langgraph.Base.{◌≡◌, arith, true, false, none, some, ok, ◌⊎◌}
use multi_agent_langgraph.Runtime.Models.{
  RunNode, create_feature_spec, clarify, create_plan, create_task_list, tester, reviewer,
  pre_pr_sync, pr_creator, escalate, unresolved_ambiguity, TicketRunState, transition_to,
}
use multi_agent_langgraph.Runtime.Context.Planning.{resolve-build_context_request}
use multi_agent_langgraph.Runtime.Planner.{record_artifact_hash, create_task_list as plan_tasks}
use multi_agent_langgraph.Runtime.Planner.Ready.{create_task_list-ready, planned_targets}
use multi_agent_langgraph.Runtime.Workflow.{Services, WorkflowState, handle}
use multi_agent_langgraph.Runtime.Workflow.Graph.{node, visit, successor}
use multi_agent_langgraph.Runtime.Workflow.Forecast.{
  Quiet, forecast, sync_outcome, review_outcome, test_outcome, task_outcome, stays_ambiguous,
}

-- Before the end there is neither a pull request nor a sink.
pub record IsOpen (run : TicketRunState) : Type 0 where
  pub uncreated : run.pr_created ≡ false
  pub unsent : run.escalation_sink ≡ none

module _ (services : Services) where
  pub Quiet-visit :
      (n m : RunNode) (s t : WorkflowState)
      → visit services n s ≡ ok (t, node m)
      → IsOpen s.run
      → Quiet services n s.run
      → Quiet services m t.run × IsOpen t.run
  unfolding visit handle successor transition_to record_artifact_hash
  Quiet-visit create_feature_spec m s t h c q =
      let run = transition_to create_feature_spec s.run in
      ground (arith, resolve-build_context_request run s.planning_request)
  Quiet-visit create_task_list m s t h c q = ground arith
  Quiet-visit _ m s t h c q = ground arith

  tasks_forecast :
      (s : WorkflowState) (m : RunNode) (t : WorkflowState)
      → visit services create_task_list s ≡ ok (t, node m)
      → Quiet services create_task_list s.run
      → forecast services create_task_list s ≡ forecast services m t
  unfolding visit handle successor transition_to record_artifact_hash task_outcome plan_tasks
  tasks_forecast s m t h q = ground (
    arith,
    create_task_list-ready services.host s.planning_request,
    planned_targets services.host s.planning_request,
  )

  tester-forecast :
      (s : WorkflowState) (m : RunNode) (t : WorkflowState)
      → visit services tester s ≡ ok (t, node m)
      → Quiet services tester s.run
      → forecast services tester s ≡ forecast services m t
  unfolding visit handle successor transition_to record_artifact_hash test_outcome review_outcome
  tester-forecast s m t h q = ground arith

  reviewer-forecast :
      (s : WorkflowState) (m : RunNode) (t : WorkflowState)
      → visit services reviewer s ≡ ok (t, node m)
      → Quiet services reviewer s.run
      → forecast services reviewer s ≡ forecast services m t
  unfolding visit handle successor transition_to record_artifact_hash test_outcome review_outcome
  reviewer-forecast s m t h q = ground arith

  sync_forecast :
      (s : WorkflowState) (m : RunNode) (t : WorkflowState)
      → visit services pre_pr_sync s ≡ ok (t, node m)
      → Quiet services pre_pr_sync s.run
      → forecast services pre_pr_sync s ≡ forecast services m t
  unfolding visit handle successor transition_to record_artifact_hash sync_outcome
  sync_forecast s m t h q = ground arith

  -- What `clarify` leaves alone.
  clarify_keeps :
      (s : WorkflowState) (m : RunNode) (t : WorkflowState)
      → visit services clarify s ≡ ok (t, node m)
      → (t.planning_request ≡ s.planning_request)
        × (t.execution_request ≡ s.execution_request)
        × (t.run.test_retry_count ≡ s.run.test_retry_count)
        × (t.run.max_test_retries ≡ s.run.max_test_retries)
        × (t.run.review_retry_count ≡ s.run.review_retry_count)
        × (t.run.max_review_retries ≡ s.run.max_review_retries)
        × (t.run.max_clarification_iterations ≡ s.run.max_clarification_iterations)
  unfolding visit handle successor transition_to record_artifact_hash
  clarify_keeps s m t h = ground arith

  -- The three ways out of `clarify`.
  clarify_cases :
      (s : WorkflowState) (m : RunNode) (t : WorkflowState)
      → visit services clarify s ≡ ok (t, node m)
      → Quiet services clarify s.run
      → (m ≡ create_plan)
          × (stays_ambiguous s.planning_request s.run.clarification_attempts
                s.run.max_clarification_iterations
              ≡ false)
        ⊎ (m ≡ escalate)
          × (t.run.escalation_reason ≡ some unresolved_ambiguity)
          × (stays_ambiguous s.planning_request s.run.clarification_attempts
                s.run.max_clarification_iterations
              ≡ true)
        ⊎ (m ≡ clarify)
          × (stays_ambiguous t.planning_request t.run.clarification_attempts
                t.run.max_clarification_iterations
              ≡ stays_ambiguous s.planning_request s.run.clarification_attempts
                  s.run.max_clarification_iterations)
  unfolding visit handle successor transition_to record_artifact_hash
  clarify_cases s m t h q = ground arith

  clarify-forecast :
      (s : WorkflowState) (m : RunNode) (t : WorkflowState)
      → visit services clarify s ≡ ok (t, node m)
      → Quiet services clarify s.run
      → forecast services clarify s ≡ forecast services m t
  clarify-forecast s m t h q = ground (arith, clarify_keeps s m t h, clarify_cases s m t h q)

  pub forecast-visit :
      (n m : RunNode) (s t : WorkflowState)
      → visit services n s ≡ ok (t, node m)
      → Quiet services n s.run
      → forecast services n s ≡ forecast services m t
  unfolding visit handle successor transition_to record_artifact_hash
  forecast-visit create_feature_spec m s t h q =
      let run = transition_to create_feature_spec s.run in
      ground (arith, resolve-build_context_request run s.planning_request)
  forecast-visit create_task_list m s t h q = tasks_forecast s m t h q
  forecast-visit clarify m s t h q = clarify-forecast s m t h q
  forecast-visit tester m s t h q = tester-forecast s m t h q
  forecast-visit reviewer m s t h q = reviewer-forecast s m t h q
  forecast-visit pre_pr_sync m s t h q = sync_forecast s m t h q
  forecast-visit pr_creator m s t h q = ground arith
  forecast-visit _ m s t h q = ground arith
