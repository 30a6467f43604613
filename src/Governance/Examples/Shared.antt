-- ===== src/Governance/Examples/Shared.antt =====
-- The shared health store and the shared budget ledger on small histories.
use multi_agent_langgraph.Base.{
  ℕ, ◌≡◌, ◌≤◌, refl, true, false, none, some, List, [], ◌∷◌, raise, budget_exceeded, all,
  string_key, arith, ok, leb, ltb, ◌-◌, nat_key, pair_key,
}
use multi_agent_langgraph.Base.Dict.{lookup, sum_of, has_key}
use multi_agent_langgraph.Governance.Catalog.{coder}
use multi_agent_langgraph.Governance.Budget.{BudgetContext, BudgetCaps}
use multi_agent_langgraph.Governance.Health as Memory
use multi_agent_langgraph.Governance.SharedHealth.{Settings, new}
use multi_agent_langgraph.Governance.SharedHealth.Traces.{
  Call, failure, request, probing, shared_answers, memory_answers, shared_health_refines, timely,
}
use multi_agent_langgraph.Governance.SharedBudget.{
  Ledger, Counters, ReservationRow, active, usd_to_cents, load_caps, active_in_run, charged_in_run,
  daily_key,
}
use multi_agent_langgraph.Governance.SharedBudget.Operations.{reserve, settle}
use multi_agent_langgraph.Governance.SharedBudget.Caps.{IsWithinCap, committed}
use multi_agent_langgraph.Governance.SharedBudget.Traces.{
  reserve_call, settle_call, after_calls, whole_amount, shared_calls_within_ticket_cap,
}
use multi_agent_langgraph.Governance.SharedBudget.Traces as Budget
use multi_agent_langgraph.Governance.SharedBudget.Midnight.{late_settlement_limits_day}

abbrev settings : Settings
settings = record {
  fail_closed_without_redis = true;
  failure_threshold = 2;
  recovery_probe_limit = 1;
}

abbrev calls : List Call
calls =
    failure 1 "openai"
    ∷ failure 2 "openai"
    ∷ request 3 "openai"
    ∷ probing 4 "openai"
    ∷ request 5 "openai"
    ∷ request 6 "openai"
    ∷ []

all-timely : all timely calls ≡ true
unfolding all
all-timely = refl

shared_health_refines_example :
    shared_answers calls (new settings) ≡ memory_answers calls (Memory.new 2 1)
shared_health_refines_example = shared_health_refines calls settings all-timely

abbrev context : BudgetContext
context = record {
  tenant_id = "t";
  team_id = "team";
  run_id = "run";
  ticket_key = "T-1";
  role = coder;
}

-- Ten dollars for the run, a hundred for the day, a thousand for the month.
abbrev caps : BudgetCaps
caps = record {
  ticket_cap_usd = 10000000;
  daily_team_cap_usd = 100000000;
  monthly_team_cap_usd = 1000000000;
}

abbrev no_counters : Counters
no_counters = record { ticket = []; daily = []; monthly = [] }

abbrev empty_ledger : Ledger
empty_ledger = record {
  cap_snapshots = ("run", caps) ∷ [];
  reservations = [];
  charges = [];
  denials = [];
  counters = no_counters;
}

abbrev month : ℕ → ℕ
month now = 0

empty-IsWithinCap : IsWithinCap "run" 10000000 empty_ledger
unfolding lookup active_in_run charged_in_run sum_of
empty-IsWithinCap = record {
  configured = λ c h. ground (arith, h);
  within = omega arith;
  spent_whole = refl;
  rows_whole = λ id row h. cc h;
  room = λ cents h. cc h;
}

abbrev budget_calls : List Budget.Call
budget_calls =
    reserve_call context "r1" 6000000 100
    ∷ reserve_call context "r2" 6000000 200
    ∷ settle_call "r1" 2000000 300
    ∷ []

all_whole : all whole_amount budget_calls ≡ true
unfolding all
all_whole = refl

shared_calls_within_ticket_cap_example :
    committed "run" 10000000 (after_calls month budget_calls empty_ledger) ≤ 10000000
shared_calls_within_ticket_cap_example =
    shared_calls_within_ticket_cap month "run" 10000000 refl budget_calls empty_ledger all_whole
      empty-IsWithinCap

-- A reservation of six dollars of the day before, of which five are used.
abbrev row : ReservationRow
row = record {
  context = context;
  reserved_amount_usd = 6000000;
  status = active;
  release_reason = none;
  released_amount_usd = none;
  created_at = 80000;
}

abbrev night : Ledger
night = record empty_ledger { reservations = ("r1", row) ∷ [] }

night_caps : load_caps context night ≡ ok caps
unfolding load_caps lookup
night_caps = refl

night_row : lookup "r1" night.reservations ≡ some row
unfolding lookup
night_row = refl

back_positive : leb (usd_to_cents (6000000 - 5000000)) 0 ≡ false
unfolding usd_to_cents
back_positive = refl

back_short : ltb (usd_to_cents (6000000 - 5000000)) (usd_to_cents 2000000) ≡ true
unfolding usd_to_cents
back_short = refl

no_charge : has_key "r1" night.charges ≡ false
unfolding lookup
no_charge = refl

no_daily : lookup (daily_key month context 90000) night.counters.daily ≡ none
unfolding lookup
no_daily = refl

late_settlement_limits_day_example :
    (reserve month context "r2" 2000000 90000 (settle month "r1" 5000000 90000 night).1).0
    ≡ raise budget_exceeded
late_settlement_limits_day_example =
    late_settlement_limits_day month "r1" "r2" row 5000000 2000000 90000 caps night night_row refl
      refl no_charge no_daily back_positive night_caps back_short
