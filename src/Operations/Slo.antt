-- ===== src/Operations/Slo.antt =====
-- operations/slo.py: the alerts on burn rates and the report on the error budget. Rates and
-- percentages are counted in hundredths.
use multi_agent_langgraph.Base.{ℕ, leb, String, Bool, true, false, if◌then◌else◌}

pub record BurnRateAlertPolicy : Type 0 where
  pub sli_id : String
  pub short_window : String
  pub long_window : String
  pub warning_burn_rate : ℕ
  pub critical_burn_rate : ℕ

pub record BurnRateDecision : Type 0 where
  pub triggered : Bool
  pub severity : String

pub data ErrorBudgetState : Type 0 where
  healthy low exhausted : ErrorBudgetState

pub record ErrorBudgetReport : Type 0 where
  pub sli_id : String
  pub state : ErrorBudgetState
  pub remaining_percent : ℕ
  pub release_blocked : Bool

unfoldable pub evaluate_burn_rate : BurnRateAlertPolicy → ℕ → BurnRateDecision
evaluate_burn_rate policy current_burn_rate =
    if leb policy.critical_burn_rate current_burn_rate
    then record { triggered = true; severity = "critical" }
    else if leb policy.warning_burn_rate current_burn_rate
    then record { triggered = true; severity = "warning" }
    else record { triggered = false; severity = "none" }

abbrev state_of : ℕ → ErrorBudgetState
state_of remaining =
    if leb remaining 0 then exhausted else if leb remaining 5000 then low else healthy

abbrev is_exhausted : ErrorBudgetState → Bool
is_exhausted exhausted = true
is_exhausted healthy = false
is_exhausted low = false

unfoldable pub error_budget_report : String → ℕ → ErrorBudgetReport
error_budget_report sli_id remaining = record {
  sli_id = sli_id;
  state = state_of remaining;
  remaining_percent = remaining;
  release_blocked = is_exhausted (state_of remaining);
}
