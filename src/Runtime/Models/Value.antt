-- ===== src/Runtime/Models/Value.antt =====
-- The texts behind the enumerations of runtime/models.py (`StrEnum` values).
use multi_agent_langgraph.Base.{String}
use multi_agent_langgraph.Runtime.Models.{
  ArtifactKind, constitution, feature_spec, clarification_notes, implementation_plan, task_list,
  ContextSource, jira, repository, run_state, internal_knowledge, first_party, external_research,
  EscalationReason, unresolved_ambiguity, test_retry_budget_exhausted, review_budget_exhausted,
  missing_or_failing_required_tests, diff_too_large, merge_conflict_detected, invalid_route_attempt,
  missing_escalation_sink, budget_exhausted, all_providers_unavailable, provider_failover_exhausted,
  orphaned_budget_reservation_detected, billing_reconciliation_drift, branch_protection_missing,
}

unfoldable pub kind_value : ArtifactKind → String
kind_value constitution = "constitution"
kind_value feature_spec = "feature_spec"
kind_value clarification_notes = "clarification_notes"
kind_value implementation_plan = "implementation_plan"
kind_value task_list = "task_list"

unfoldable pub source_value : ContextSource → String
source_value jira = "jira"
source_value repository = "repository"
source_value run_state = "run_state"
source_value internal_knowledge = "internal_knowledge"
source_value first_party = "first_party"
source_value external_research = "external_research"

unfoldable pub reason_value : EscalationReason → String
reason_value unresolved_ambiguity = "unresolved_ambiguity"
reason_value test_retry_budget_exhausted = "test_retry_budget_exhausted"
reason_value review_budget_exhausted = "review_budget_exhausted"
reason_value missing_or_failing_required_tests = "missing_or_failing_required_tests"
reason_value diff_too_large = "diff_too_large"
reason_value merge_conflict_detected = "merge_conflict_detected"
reason_value invalid_route_attempt = "invalid_route_attempt"
reason_value missing_escalation_sink = "missing_escalation_sink"
reason_value budget_exhausted = "budget_exhausted"
reason_value all_providers_unavailable = "all_providers_unavailable"
reason_value provider_failover_exhausted = "provider_failover_exhausted"
reason_value orphaned_budget_reservation_detected = "orphaned_budget_reservation_detected"
reason_value billing_reconciliation_drift = "billing_reconciliation_drift"
reason_value branch_protection_missing = "branch_protection_missing"
