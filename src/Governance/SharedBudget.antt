-- ===== src/Governance/SharedBudget.antt =====
-- persistence/governance.py: `PostgresBudgetLedger`, whose tables are in Postgres and whose counters
-- of what remains are in Redis. An amount is a whole number of millionths of a dollar, the scale of
-- the columns. A method returns its result and the ledger as it leaves it, also where it raises. The
-- counters stand under the parts of their keys, the day by its first second and the month by the
-- first second that `month_start` gives. Redis and Postgres answer.
pub mod Operations
pub mod Midnight
pub mod Caps
pub mod Invariant
pub mod Sums
pub mod Settling
pub mod Traces
use multi_agent_langgraph.Base.{
  ℕ, ◌+◌, ◌-◌, ◌*◌, ◌/◌, ◌%◌, ltb, leb, String, Bool, true, false, not, ◌&&◌, ◌||◌, Option, none,
  some, List, [], ◌∷◌, ◌++◌, ◌==◌, string_key, nat_key, pair_key, if◌then◌else◌, Result, ok, raise,
  ◌>>=◌, value_error, ◌<>◌, Eq, coded,
}
use multi_agent_langgraph.Base.Dict.{Dict, lookup, insert, has_key, is_some, sum_of, values}
use multi_agent_langgraph.Governance.Budget.{BudgetContext, BudgetCaps}

pub data ReservationStatus : Type 0 where
  active settled released : ReservationStatus

-- A row of `budget_reservations`.
pub record ReservationRow : Type 0 where
  pub context : BudgetContext
  pub reserved_amount_usd : ℕ
  pub status : ReservationStatus
  pub release_reason : Option String
  pub released_amount_usd : Option ℕ
  pub created_at : ℕ

-- A row of `budget_charges`, under its unique reservation.
pub record ChargeRow : Type 0 where
  pub context : BudgetContext
  pub estimated_cost_usd : ℕ
  pub actual_cost_usd : ℕ
  pub refunded_amount_usd : ℕ
  pub created_at : ℕ

pub record DenialRow : Type 0 where
  pub context : BudgetContext
  pub requested_amount_usd : ℕ
  pub caps : BudgetCaps

abbrev pub TeamPeriod : Type 0
TeamPeriod = (String × String) × ℕ

pub record Counters : Type 0 where
  pub ticket : Dict String ℕ
  pub daily : Dict TeamPeriod ℕ
  pub monthly : Dict TeamPeriod ℕ

pub record Ledger : Type 0 where
  pub cap_snapshots : Dict String BudgetCaps
  pub reservations : Dict String ReservationRow
  pub charges : Dict String ChargeRow
  pub denials : List DenialRow
  pub counters : Counters

-- `_usd_to_cents` rounds half up.
unfoldable pub usd_to_cents : ℕ → ℕ
usd_to_cents amount = (amount + 5000) / 10000

unfoldable pub cents_to_usd : ℕ → ℕ
cents_to_usd cents = cents * 10000

abbrev pub is_active : ReservationStatus → Bool
is_active active = true
is_active settled = false
is_active released = false

-- The terms of the sums over the tables: `if` for the rows that a query leaves out.
abbrev counted : Bool → ℕ → ℕ
counted wanted amount = if wanted then amount else 0

abbrev pub active_of_run : String → ReservationRow → ℕ
active_of_run run_id row =
    counted (row.context.run_id == run_id && is_active row.status) row.reserved_amount_usd

abbrev pub charge_of_run : String → ChargeRow → ℕ
charge_of_run run_id row = counted (row.context.run_id == run_id) row.actual_cost_usd

abbrev of_team : String → String → BudgetContext → Bool
of_team tenant_id team_id context = context.tenant_id == tenant_id && context.team_id == team_id

abbrev active_of_team : String → String → ℕ → ReservationRow → ℕ
active_of_team tenant_id team_id since row =
    counted
      (of_team tenant_id team_id row.context && (is_active row.status && leb since row.created_at))
      row.reserved_amount_usd

abbrev charge_of_team : String → String → ℕ → ChargeRow → ℕ
charge_of_team tenant_id team_id since row =
    counted (of_team tenant_id team_id row.context && leb since row.created_at) row.actual_cost_usd

unfoldable pub active_in_run : String → Dict String ReservationRow → ℕ
active_in_run run_id reservations = sum_of (active_of_run run_id) (values reservations)

unfoldable pub charged_in_run : String → Dict String ChargeRow → ℕ
charged_in_run run_id charges = sum_of (charge_of_run run_id) (values charges)

-- What the team has reserved and spent since a time.
unfoldable pub team_committed : BudgetContext → ℕ → Ledger → ℕ
team_committed context since ledger =
    sum_of (active_of_team context.tenant_id context.team_id since) (values ledger.reservations)
    + sum_of (charge_of_team context.tenant_id context.team_id since) (values ledger.charges)

pub record Remaining : Type 0 where
  pub ticket_remaining_usd : ℕ
  pub daily_team_remaining_usd : ℕ
  pub monthly_team_remaining_usd : ℕ

-- `now.replace(hour=0, minute=0, second=0, microsecond=0)`
abbrev pub day_start : ℕ → ℕ
day_start now = now - now % 86400

abbrev team_period : BudgetContext → ℕ → TeamPeriod
team_period context start = ((context.tenant_id, context.team_id), start)

abbrev or_not_configured : String → Option BudgetCaps → Result BudgetCaps
or_not_configured run_id none =
    raise (value_error ("Budget caps were not configured for run `" <> run_id <> "`."))
or_not_configured run_id (some caps) = ok caps

unfoldable pub load_caps : BudgetContext → Ledger → Result BudgetCaps
load_caps context ledger =
    or_not_configured context.run_id (lookup context.run_id ledger.cap_snapshots)

module _ (month_start : ℕ → ℕ) where
  -- `max(0, ...)` is what subtraction does.
  unfoldable pub remaining_from_postgres : BudgetContext → BudgetCaps → ℕ → Ledger → Remaining
  remaining_from_postgres context caps now ledger = record {
    ticket_remaining_usd =
        caps.ticket_cap_usd
        - (active_in_run context.run_id ledger.reservations
            + charged_in_run context.run_id ledger.charges);
    daily_team_remaining_usd =
        caps.daily_team_cap_usd - team_committed context (day_start now) ledger;
    monthly_team_remaining_usd =
        caps.monthly_team_cap_usd - team_committed context (month_start now) ledger;
  }

  abbrev pub daily_key : BudgetContext → ℕ → TeamPeriod
  daily_key context now = team_period context (day_start now)

  abbrev pub monthly_key : BudgetContext → ℕ → TeamPeriod
  monthly_key context now = team_period context (month_start now)

  -- The three `SET` of `reconcile`.
  unfoldable pub set_counters : BudgetContext → ℕ → Remaining → Counters → Counters
  set_counters context now remaining counters = record {
    ticket = insert context.run_id (usd_to_cents remaining.ticket_remaining_usd) counters.ticket;
    daily =
        insert (daily_key context now) (usd_to_cents remaining.daily_team_remaining_usd)
          counters.daily;
    monthly =
        insert (monthly_key context now) (usd_to_cents remaining.monthly_team_remaining_usd)
          counters.monthly;
  }

  abbrev pub reconciled : BudgetContext → BudgetCaps → ℕ → Ledger → Ledger
  reconciled context caps now ledger = record ledger {
    counters =
        set_counters context now (remaining_from_postgres context caps now ledger) ledger.counters;
  }

  abbrev pub reconcile_with :
      Result BudgetCaps → BudgetContext → ℕ → Ledger → Result Remaining × Ledger
  reconcile_with (raise error) context now ledger = (raise error, ledger)
  reconcile_with (ok caps) context now ledger =
      (ok (remaining_from_postgres context caps now ledger), reconciled context caps now ledger)

  unfoldable pub reconcile : BudgetContext → ℕ → Ledger → Result Remaining × Ledger
  reconcile context now ledger = reconcile_with (load_caps context ledger) context now ledger

  abbrev pub has_counters : BudgetContext → ℕ → Counters → Bool
  has_counters context now counters =
      has_key context.run_id counters.ticket
      && (has_key (daily_key context now) counters.daily
          && has_key (monthly_key context now) counters.monthly)

  unfoldable pub ensure_counters : BudgetContext → ℕ → Ledger → Ledger
  ensure_counters context now ledger =
      if has_counters context now ledger.counters then ledger else (reconcile context now ledger).1
