-- ===== src/Runtime/Workflow/Sinks.antt =====
-- Which sink an escalation reaches.
use multi_agent_langgraph.Base.{
  ◌≡◌, refl, arith, String, Bool, true, false, none, some, In, first, later, ok, string_key, ℕ,
  Option, ◌⊎◌, inl, inr, Option-cases,
}
use multi_agent_langgraph.Base.Dict.{Dict, lookup}
use multi_agent_langgraph.Runtime.Models.{
  EscalationReason, unresolved_ambiguity, review_budget_exhausted,
  missing_or_failing_required_tests, diff_too_large, merge_conflict_detected, invalid_route_attempt,
  missing_escalation_sink, branch_protection_missing, PlanningRequest, ExecutionRequest,
  TicketRunState, load_constitution,
}
use multi_agent_langgraph.Runtime.Models.Value.{reason_value}
use multi_agent_langgraph.Runtime.Repository.{
  validate_escalation_sinks, required_phase_one_escalation_reasons,
}
use multi_agent_langgraph.Runtime.Repository.Laws.{validated-has_key}
use multi_agent_langgraph.Runtime.Workflow.{Services, WorkflowState}
use multi_agent_langgraph.Runtime.Workflow.Forecast.{
  expected_outcome, task_outcome, test_outcome, review_outcome, sync_outcome,
}
use multi_agent_langgraph.Runtime.Workflow.Outcome.{IsSettled, workflow_outcome}
use multi_agent_langgraph.Runtime.Workflow.Graph.{visit}
use multi_agent_langgraph.Runtime.Workflow.Engine.{Walks, initial, execution_of}

-- The reasons that a run can end with.
abbrev arises : EscalationReason → Bool
arises unresolved_ambiguity = true
arises review_budget_exhausted = true
arises missing_or_failing_required_tests = true
arises diff_too_large = true
arises merge_conflict_detected = true
arises invalid_route_attempt = true
arises branch_protection_missing = true
arises _ = false

expected_arises :
    (services : Services) (planning : PlanningRequest) (request : ExecutionRequest)
    (reason : EscalationReason)
    → expected_outcome services planning request ≡ some reason
    → arises reason ≡ true
unfolding task_outcome test_outcome review_outcome sync_outcome
expected_arises services planning request reason h = ground arith

phase_one :
    (reason : EscalationReason)
    → arises reason ≡ true
    → (reason ≡ branch_protection_missing) ⊎ In reason required_phase_one_escalation_reasons
phase_one unresolved_ambiguity a = inr first
phase_one review_budget_exhausted a = inr (later (later first))
phase_one missing_or_failing_required_tests a = inr (later (later (later first)))
phase_one diff_too_large a = inr (later (later (later (later first))))
phase_one merge_conflict_detected a = inr (later (later (later (later (later first)))))
phase_one invalid_route_attempt a = inr (later (later (later (later (later (later first))))))
phase_one branch_protection_missing a = inl refl
phase_one _ a = cc

-- The only reason that validation leaves without a sink.
no_sink_reason :
    (sinks : Dict String String) (reason : EscalationReason)
    → validate_escalation_sinks sinks none ≡ ok tt
    → arises reason ≡ true
    → lookup (reason_value reason) sinks ≡ none
    → lookup "branch_protection_missing" sinks ≡ none
unfolding reason_value
no_sink_reason sinks reason v a l = elim (phase_one reason a) [
  | inl e ↦ ground (arith, l, e)
  | inr m ↦ let known = validated-has_key sinks reason v m in absurd (ground (arith, l, known))
]

-- The run has a reason, and its sink is the one registered for it.
abbrev pub ReachesSink : Dict String String → TicketRunState → Type 0
ReachesSink sinks run =
    (reason : EscalationReason) × (sink : String) × (run.escalation_reason ≡ some reason)
    × (lookup (reason_value reason) sinks ≡ some sink)
    × (run.escalation_sink ≡ some sink)

-- The run has lost its reason for want of a sink.
abbrev pub LosesSink : TicketRunState → Type 0
LosesSink run =
    (run.escalation_reason ≡ some missing_escalation_sink) × (run.escalation_sink ≡ none)

settled_reaches :
    (services : Services) (planning : PlanningRequest) (request : ExecutionRequest)
    (sinks : Dict String String) (run : TicketRunState)
    → validate_escalation_sinks sinks none ≡ ok tt
    → IsSettled sinks (expected_outcome services planning request) run
    → run.pr_created ≡ false
    → ReachesSink sinks run ⊎ ((lookup "branch_protection_missing" sinks ≡ none) × LosesSink run)
settled_reaches services planning request sinks run v i p =
    elim (Option-cases (expected_outcome services planning request)) [
      | inl none_expected ↦ absurd (ground (arith, i.pr, none_expected, p))
      | inr (reason, e) ↦ elim (Option-cases (lookup (reason_value reason) sinks)) [
        | inr (sink, l) ↦
            inl (reason, sink, ground (arith, i.reason, e, l), l, ground (arith, i.sink, e, l))
        | inl l ↦ inr (
          no_sink_reason sinks reason v (expected_arises services planning request reason e) l,
          (ground (arith, i.reason, e, l), ground (arith, i.sink, e, l)),
        )
      ]
    ]

-- When the sinks pass validation, a run of the workflow that ends without a pull request has a
-- reason whose registered sink is its own, except where the sinks have none for
-- `branch_protection_missing`, which validation does not ask for: there the run may end with
-- `missing_escalation_sink` and no sink, and does so whenever the requests let branch protection
-- stop it.
pub escalation-ReachesSink :
    (services : Services) (k : ℕ) (planning : PlanningRequest) (execution : Option ExecutionRequest)
    (sinks : Dict String String) (t : WorkflowState)
    → validate_escalation_sinks sinks none ≡ ok tt
    → Walks (visit services) k load_constitution (initial services planning execution sinks) t
    → (t.run.pr_created ≡ false
        → ReachesSink sinks t.run
          ⊎ ((lookup "branch_protection_missing" sinks ≡ none) × LosesSink t.run))
      × (expected_outcome services planning (execution_of execution)
            ≡ some branch_protection_missing
          → lookup "branch_protection_missing" sinks ≡ none
          → LosesSink t.run)
unfolding reason_value
escalation-ReachesSink services k planning execution sinks t v w =
    let i = workflow_outcome services k planning execution sinks t w in
    (
      settled_reaches services planning (execution_of execution) sinks t.run v i,
      λ e l. (ground (arith, i.reason, e, l), ground (arith, i.sink, e, l)),
    )
