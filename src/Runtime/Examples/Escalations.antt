-- ===== src/Runtime/Examples/Escalations.antt =====
-- Runs of the workflow that end with an escalation, and the theorems about their sinks.
use multi_agent_langgraph.Base.{ℕ, ◌≤◌, ◌≡◌, refl, none, some, string_key, false, ◌⊎◌}
use multi_agent_langgraph.Base.Dict.{lookup}
use multi_agent_langgraph.Runtime.Models.{load_constitution, branch_protection_missing}
use multi_agent_langgraph.Runtime.Workflow.{WorkflowState}
use multi_agent_langgraph.Runtime.Workflow.Graph.{visit}
use multi_agent_langgraph.Runtime.Workflow.Engine.{initial, Walks}
use multi_agent_langgraph.Runtime.Workflow.Termination.{workflow_terminates}
use multi_agent_langgraph.Runtime.Workflow.Forecast.{
  expected_outcome, task_outcome, test_outcome, review_outcome, sync_outcome,
}
use multi_agent_langgraph.Runtime.Workflow.Sinks.{ReachesSink, LosesSink, escalation-ReachesSink}
use multi_agent_langgraph.Runtime.Examples.{
  enforcing, planning, flaky, program, phase_one_sinks, phase_one_sinks_valid,
}

abbrev enforced_end :
    (k : ℕ) × (t : WorkflowState) × Walks
      (visit enforcing)
      k
      load_constitution
      (initial enforcing planning (some flaky) phase_one_sinks)
      t
    × (k ≤ 23)
enforced_end = workflow_terminates enforcing planning (some flaky) phase_one_sinks

expected_enforced : expected_outcome enforcing planning flaky ≡ some branch_protection_missing
unfolding program task_outcome test_outcome review_outcome sync_outcome
expected_enforced = refl

no_sink : lookup "branch_protection_missing" phase_one_sinks ≡ none
unfolding lookup
no_sink = refl

escalation-ReachesSink_example :
    (enforced_end.1.run.pr_created ≡ false
      → ReachesSink phase_one_sinks enforced_end.1.run
        ⊎ ((lookup "branch_protection_missing" phase_one_sinks ≡ none)
            × LosesSink enforced_end.1.run))
    × (expected_outcome enforcing planning flaky ≡ some branch_protection_missing
        → lookup "branch_protection_missing" phase_one_sinks ≡ none
        → LosesSink enforced_end.1.run)
escalation-ReachesSink_example =
    escalation-ReachesSink enforcing enforced_end.0 planning (some flaky) phase_one_sinks
      enforced_end.1 phase_one_sinks_valid enforced_end.2
