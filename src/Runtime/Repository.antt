-- ===== src/Runtime/Repository.antt =====
-- persistence/testing/runtime.py: `InMemoryRunRepository`. `model_copy(deep=True)` is the value
-- itself: a record here is never shared.
pub mod Laws
use multi_agent_langgraph.Base.{
  String, Bool, false, not, ◌||◌, Option, none, some, List, [], ◌∷◌, ◌<>◌, ◌==◌, string_key,
  if◌then◌else◌, is_empty, join, sorted, Result, ok, raise, ◌>>=◌, ◌>>◌, value_error, key_error,
}
use multi_agent_langgraph.Base.Dict.{Dict, lookup, insert, has_key}
use multi_agent_langgraph.Runtime.Models.{
  EscalationReason, unresolved_ambiguity, test_retry_budget_exhausted, review_budget_exhausted,
  missing_or_failing_required_tests, diff_too_large, merge_conflict_detected, invalid_route_attempt,
  missing_escalation_sink, RunNode, paused, TenantContext, TicketRunState, clear_pause,
}
use multi_agent_langgraph.Runtime.Models.Value.{reason_value}

pub record Repository : Type 0 where
  pub runs : Dict String TicketRunState

abbrev pub required_phase_one_escalation_reasons : List EscalationReason
required_phase_one_escalation_reasons =
    unresolved_ambiguity ∷ test_retry_budget_exhausted ∷ review_budget_exhausted
    ∷ missing_or_failing_required_tests ∷ diff_too_large ∷ merge_conflict_detected
    ∷ invalid_route_attempt ∷ missing_escalation_sink ∷ []

unfoldable pub save : TicketRunState → Repository → TicketRunState × Repository
save run repository = (run, record repository { runs = insert run.thread_id run repository.runs })

abbrev outside : Option TenantContext → TicketRunState → Bool
outside none run = false
outside (some context) run =
    not (run.tenant_id == context.tenant_id) || not (run.team_id == context.team_id)

abbrev pub visible : Option TenantContext → Option TicketRunState → Option TicketRunState
visible context none = none
visible context (some run) = if outside context run then none else some run

unfoldable pub load : String → Option TenantContext → Repository → Option TicketRunState
load thread_id context repository = visible context (lookup thread_id repository.runs)

abbrev given : Option (List EscalationReason) → List EscalationReason
given none = required_phase_one_escalation_reasons
given (some []) = required_phase_one_escalation_reasons
given (some reasons) = reasons

unfoldable pub missing_sinks : Dict String String → List EscalationReason → List String
missing_sinks sinks [] = []
missing_sinks sinks (reason ∷ reasons) =
    let rest = missing_sinks sinks reasons in
    if has_key (reason_value reason) sinks then rest else reason_value reason ∷ rest

unfoldable pub validate_escalation_sinks :
    Dict String String → Option (List EscalationReason) → Result (Unit {0})
validate_escalation_sinks sinks required_reasons =
    let missing = missing_sinks sinks (given required_reasons) in
    if is_empty missing
    then ok tt
    else raise (
        value_error (
          "Every phase-1 escalation reason must map to a registered sink. Missing: "
          <> join ", " (sorted missing)))

abbrev found : Option String → String → Result String
found none key = raise (key_error key)
found (some sink) key = ok sink

unfoldable pub pause :
    TicketRunState
    → RunNode
    → EscalationReason
    → Dict String String
    → Repository
    → Result (TicketRunState × Repository)
pause run node reason sinks repository = do
  validate_escalation_sinks sinks none
  sink ← found (lookup (reason_value reason) sinks) (reason_value reason)
  ok (
      save
        (record run {
          status = paused;
          paused_at_node = some node;
          escalation_reason = some reason;
          escalation_sink = some sink;
        })
        repository)

abbrev reactivate :
    String → Option TicketRunState → Repository → Result (TicketRunState × Repository)
reactivate thread_id none repository =
    raise (key_error ("No run found for thread `" <> thread_id <> "`."))
reactivate thread_id (some run) repository = ok (save (clear_pause run) repository)

unfoldable pub resume :
    String → Option TenantContext → Repository → Result (TicketRunState × Repository)
resume thread_id context repository =
    reactivate thread_id (load thread_id context repository) repository
