-- ===== src/Governance/Budget.antt =====
-- governance/budget.py and `InMemoryBudgetLedger` of persistence/testing/governance.py. An amount is
-- a whole number of the smallest unit of a `Decimal`, and not negative. The lock makes a method one
-- step. An exception leaves the ledger as the method had changed it by then.
pub mod Operations
pub mod Caps
pub mod Effects
pub mod Traces
use multi_agent_langgraph.Base.{
  ℕ, ◌+◌, ◌-◌, String, Bool, ◌&&◌, ◌||◌, not, Option, none, some, List, [], ◌∷◌, ◌++◌, ltb, ◌==◌,
  string_key, pair_key, if◌then◌else◌, Result, ok, raise, value_error, key_error, budget_exceeded,
  ◌<>◌, Eq,
}
use multi_agent_langgraph.Base.Dict.{Dict, lookup, insert, erase, has_key, get_or}
use multi_agent_langgraph.Base.Int.{ℤ, sub_ℕ}
use multi_agent_langgraph.Governance.Catalog.{RuntimeRole}

pub record BudgetContext : Type 0 where
  pub tenant_id : String
  pub team_id : String
  pub run_id : String
  pub ticket_key : String
  pub role : RuntimeRole

pub record BudgetCaps : Type 0 where
  pub ticket_cap_usd : ℕ
  pub daily_team_cap_usd : ℕ
  pub monthly_team_cap_usd : ℕ

pub record BudgetReservation : Type 0 where
  pub reservation_id : String
  pub reserved_amount_usd : ℕ
  pub ticket_cap_remaining_usd : ℤ
  pub daily_team_cap_remaining_usd : ℤ
  pub monthly_team_cap_remaining_usd : ℤ

pub record BudgetBalance : Type 0 where
  pub ticket_remaining_usd : ℤ
  pub daily_team_remaining_usd : ℤ
  pub monthly_team_remaining_usd : ℤ

pub record BudgetSettlement : Type 0 where
  pub reservation_id : String
  pub estimated_cost_usd : ℕ
  pub actual_cost_usd : ℕ
  pub refunded_amount_usd : ℕ

pub record OrphanedReservationRelease : Type 0 where
  pub reservation_id : String
  pub released_amount_usd : ℕ
  pub reason : String

pub record ActiveReservation : Type 0 where
  pub reservation_id : String
  pub context : BudgetContext
  pub reserved_amount_usd : ℕ

abbrev pub Team : Type 0
Team = String × String

abbrev pub team_key : Eq Team
team_key = pair_key

pub record Ledger : Type 0 where
  pub caps_by_run : Dict String BudgetCaps
  pub team_caps : Dict Team BudgetCaps
  pub ticket_spend : Dict String ℕ
  pub team_daily_spend : Dict Team ℕ
  pub team_monthly_spend : Dict Team ℕ
  pub active_reservations : Dict String ActiveReservation
  pub settlements : List BudgetSettlement
  pub orphaned_releases : List OrphanedReservationRelease

abbrev pub new : Ledger
new = record {
  caps_by_run = [];
  team_caps = [];
  ticket_spend = [];
  team_daily_spend = [];
  team_monthly_spend = [];
  active_reservations = [];
  settlements = [];
  orphaned_releases = [];
}

abbrev pub team_of : BudgetContext → Team
team_of context = (context.tenant_id, context.team_id)

unfoldable pub configure_caps : BudgetContext → BudgetCaps → Ledger → Ledger
configure_caps context caps ledger = record ledger {
  caps_by_run = insert context.run_id caps ledger.caps_by_run;
  team_caps = insert (team_of context) caps ledger.team_caps;
}

abbrev found : Option BudgetCaps → Bool → String → Result BudgetCaps
found none known run_id =
    raise (value_error ("Budget caps were not configured for run `" <> run_id <> "`."))
found (some caps) known run_id =
    if known
    then ok caps
    else raise (value_error ("Budget caps were not configured for run `" <> run_id <> "`."))

unfoldable pub caps_for_context : BudgetContext → Ledger → Result BudgetCaps
caps_for_context context ledger =
    found (lookup context.run_id ledger.caps_by_run) (has_key (team_of context) ledger.team_caps)
      context.run_id

-- `sum(… for reservation in self._active_reservations.values() if …)`
unfoldable pub reserved_where : (BudgetContext → Bool) → Dict String ActiveReservation → ℕ
reserved_where p [] = 0
reserved_where p ((k, r) ∷ reservations) =
    (if p r.context then r.reserved_amount_usd else 0) + reserved_where p reservations

abbrev pub of_run : String → BudgetContext → Bool
of_run run_id context = context.run_id == run_id

abbrev pub of_team : Team → BudgetContext → Bool
of_team team context = team_of context == team

abbrev pub reserved_amount_for_run : String → Ledger → ℕ
reserved_amount_for_run run_id ledger = reserved_where (of_run run_id) ledger.active_reservations

abbrev pub reserved_amount_for_team : Team → Ledger → ℕ
reserved_amount_for_team team ledger = reserved_where (of_team team) ledger.active_reservations

abbrev pub ticket_used : String → Ledger → ℕ
ticket_used run_id ledger = get_or run_id ledger.ticket_spend 0

abbrev pub daily_used : Team → Ledger → ℕ
daily_used team ledger = get_or team ledger.team_daily_spend 0

abbrev pub monthly_used : Team → Ledger → ℕ
monthly_used team ledger = get_or team ledger.team_monthly_spend 0

-- What a reservation of `cost` would bring the ticket, the day and the month of a team to.
abbrev pub ticket_total : BudgetContext → ℕ → Ledger → ℕ
ticket_total context cost ledger =
    ticket_used context.run_id ledger + reserved_amount_for_run context.run_id ledger + cost

abbrev pub daily_total : BudgetContext → ℕ → Ledger → ℕ
daily_total context cost ledger =
    let team = team_of context in
    daily_used team ledger + reserved_amount_for_team team ledger + cost

abbrev pub monthly_total : BudgetContext → ℕ → Ledger → ℕ
monthly_total context cost ledger =
    let team = team_of context in
    monthly_used team ledger + reserved_amount_for_team team ledger + cost
