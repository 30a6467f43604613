-- ===== src/Governance/SharedBudget/Operations.antt =====
-- The public methods of `PostgresBudgetLedger`.
use multi_agent_langgraph.Base.{
  ℕ, ◌+◌, ◌-◌, ltb, leb, String, ◌||◌, Option, none, some, [], ◌∷◌, ◌++◌, string_key, nat_key,
  pair_key, if◌then◌else◌, Result, ok, raise, value_error, key_error, budget_exceeded,
  integrity_error, ◌<>◌,
}
use multi_agent_langgraph.Base.Dict.{lookup, insert, has_key}
use multi_agent_langgraph.Governance.Budget.{BudgetContext, BudgetCaps}
use multi_agent_langgraph.Governance.SharedBudget.{
  Ledger, Counters, ReservationRow, ReservationStatus, active, settled, released, is_active,
  ChargeRow, Remaining, usd_to_cents, cents_to_usd, load_caps, reconcile, remaining_from_postgres,
  ensure_counters, daily_key, monthly_key,
}

pub record Reservation : Type 0 where
  pub reservation_id : String
  pub reserved_amount_usd : ℕ
  pub ticket_cap_remaining_usd : ℕ
  pub daily_team_cap_remaining_usd : ℕ
  pub monthly_team_cap_remaining_usd : ℕ

-- What the reservation script returns: -1, 0 or 1, and what remains.
pub data Answer : Type 0 where
  missing : Answer
  refused granted : ℕ → ℕ → ℕ → Answer

abbrev pub weigh : ℕ → Option ℕ → Option ℕ → Option ℕ → Answer
weigh amount (some ticket) (some daily) (some monthly) =
    if ltb ticket amount || (ltb daily amount || ltb monthly amount)
    then refused ticket daily monthly
    else granted (ticket - amount) (daily - amount) (monthly - amount)
weigh amount _ _ _ = missing

abbrev unknown : {A : Type 0} → String → Result A
unknown reservation_id = raise (key_error ("Unknown reservation `" <> reservation_id <> "`."))

abbrev inactive : {A : Type 0} → String → Result A
inactive reservation_id =
    raise (value_error ("Reservation `" <> reservation_id <> "` is not active."))

-- The row of an active reservation.
abbrev pub active_row : String → Option ReservationRow → Result ReservationRow
active_row reservation_id none = unknown reservation_id
active_row reservation_id (some row) =
    if is_active row.status then ok row else inactive reservation_id

module _ (month_start : ℕ → ℕ) where
  unfoldable pub configure_caps :
      BudgetContext → BudgetCaps → ℕ → Ledger → Result Remaining × Ledger
  configure_caps context caps now ledger =
      reconcile month_start context now
        (record ledger { cap_snapshots = insert context.run_id caps ledger.cap_snapshots })

  unfoldable pub script_answer : BudgetContext → ℕ → ℕ → Counters → Answer
  script_answer context now amount counters =
      weigh amount (lookup context.run_id counters.ticket)
        (lookup (daily_key month_start context now) counters.daily)
        (lookup (monthly_key month_start context now) counters.monthly)

  -- The three `DECRBY`, to what is left.
  abbrev pub left : BudgetContext → ℕ → ℕ → ℕ → ℕ → Counters → Counters
  left context now ticket daily monthly counters = record {
    ticket = insert context.run_id ticket counters.ticket;
    daily = insert (daily_key month_start context now) daily counters.daily;
    monthly = insert (monthly_key month_start context now) monthly counters.monthly;
  }

  abbrev added : ℕ → Option ℕ → ℕ
  added cents none = cents
  added cents (some n) = n + cents

  -- The three `INCRBY`, which start from 0 where there is no counter.
  unfoldable pub credit_counters : BudgetContext → ℕ → ℕ → Counters → Counters
  credit_counters context now cents counters =
      if leb cents 0
      then counters
      else left context now (added cents (lookup context.run_id counters.ticket))
          (added cents (lookup (daily_key month_start context now) counters.daily))
          (added cents (lookup (monthly_key month_start context now) counters.monthly)) counters

  abbrev pub deny : BudgetContext → BudgetCaps → ℕ → Ledger → Ledger
  deny context caps amount ledger = record ledger {
    denials =
        ledger.denials
        ++ record { context = context; requested_amount_usd = amount; caps = caps } ∷ [];
  }

  abbrev pub reservation_row : BudgetContext → ℕ → ℕ → ReservationRow
  reservation_row context amount now = record {
    context = context;
    reserved_amount_usd = amount;
    status = active;
    release_reason = none;
    released_amount_usd = none;
    created_at = now;
  }

  -- The insertion, and the credit where the identifier is taken.
  unfoldable pub insert_reservation :
      BudgetContext → String → ℕ → ℕ → ℕ → ℕ → ℕ → Ledger → Result Reservation × Ledger
  insert_reservation context reservation_id amount now ticket daily monthly ledger =
      if has_key reservation_id ledger.reservations
      then (
        raise (integrity_error "budget_reservations"),
        record ledger {
          counters = credit_counters context now (usd_to_cents amount) ledger.counters;
        },
      )
      else (
        ok (record {
          reservation_id = reservation_id;
          reserved_amount_usd = amount;
          ticket_cap_remaining_usd = cents_to_usd ticket;
          daily_team_cap_remaining_usd = cents_to_usd daily;
          monthly_team_cap_remaining_usd = cents_to_usd monthly;
        }),
        record ledger {
          reservations =
              insert reservation_id (reservation_row context amount now) ledger.reservations;
        },
      )

  abbrev pub answered :
      BudgetContext → String → ℕ → ℕ → BudgetCaps → Answer → Ledger → Result Reservation × Ledger
  answered context reservation_id amount now caps missing ledger =
      (raise budget_exceeded, deny context caps amount ledger)
  answered context reservation_id amount now caps (refused ticket daily monthly) ledger =
      (raise budget_exceeded, deny context caps amount ledger)
  answered context reservation_id amount now caps (granted ticket daily monthly) ledger =
      insert_reservation context reservation_id amount now ticket daily monthly
        (record ledger { counters = left context now ticket daily monthly ledger.counters })

  abbrev pub reserve_with :
      Result BudgetCaps → BudgetContext → String → ℕ → ℕ → Ledger → Result Reservation × Ledger
  reserve_with (raise error) context reservation_id amount now ledger = (raise error, ledger)
  reserve_with (ok caps) context reservation_id amount now ledger =
      let ready = ensure_counters month_start context now ledger in
      answered context reservation_id amount now caps
        (script_answer context now (usd_to_cents amount) ready.counters) ready

  -- `_ensure_counters` leaves all three counters, so that the script is run once.
  unfoldable pub reserve : BudgetContext → String → ℕ → ℕ → Ledger → Result Reservation × Ledger
  reserve context reservation_id worst_case_cost_usd now ledger =
      reserve_with (load_caps context ledger) context reservation_id worst_case_cost_usd now ledger

  abbrev pub charge_row : ReservationRow → ℕ → ℕ → ChargeRow
  charge_row row actual now = record {
    context = row.context;
    estimated_cost_usd = row.reserved_amount_usd;
    actual_cost_usd = actual;
    refunded_amount_usd = row.reserved_amount_usd - actual;
    created_at = now;
  }

  abbrev pub ended : ReservationStatus → String → ℕ → ReservationRow → ReservationRow
  ended status reason amount row = record row {
    status = status;
    release_reason = some reason;
    released_amount_usd = some amount;
  }

  unfoldable pub settle_row : String → ReservationRow → ℕ → ℕ → Ledger → Result (Unit {0}) × Ledger
  settle_row reservation_id row actual now ledger =
      if ltb row.reserved_amount_usd actual
      then (raise (value_error "Actual cost exceeded the reserved worst-case estimate."), ledger)
      else if has_key reservation_id ledger.charges
      then (raise (integrity_error "budget_charges"), ledger)
      else (
        ok tt,
        record ledger {
          charges = insert reservation_id (charge_row row actual now) ledger.charges;
          reservations =
              insert reservation_id (ended settled "settled" (row.reserved_amount_usd - actual) row)
                ledger.reservations;
          counters =
              credit_counters row.context now (usd_to_cents (row.reserved_amount_usd - actual))
                ledger.counters;
        },
      )

  abbrev pub settle_with :
      Result ReservationRow → String → ℕ → ℕ → Ledger → Result (Unit {0}) × Ledger
  settle_with (raise error) reservation_id actual now ledger = (raise error, ledger)
  settle_with (ok row) reservation_id actual now ledger =
      settle_row reservation_id row actual now ledger

  unfoldable pub settle : String → ℕ → ℕ → Ledger → Result (Unit {0}) × Ledger
  settle reservation_id actual_cost_usd now ledger =
      settle_with (active_row reservation_id (lookup reservation_id ledger.reservations))
        reservation_id actual_cost_usd now ledger

  abbrev pub release_with :
      Result ReservationRow → String → String → ℕ → Ledger → Result (Unit {0}) × Ledger
  release_with (raise error) reservation_id reason now ledger = (raise error, ledger)
  release_with (ok row) reservation_id reason now ledger = (
    ok tt,
    record ledger {
      reservations =
          insert reservation_id (ended released reason row.reserved_amount_usd row)
            ledger.reservations;
      counters =
          credit_counters row.context now (usd_to_cents row.reserved_amount_usd) ledger.counters;
    },
  )

  unfoldable pub release_orphaned : String → String → ℕ → Ledger → Result (Unit {0}) × Ledger
  release_orphaned reservation_id reason now ledger =
      release_with (active_row reservation_id (lookup reservation_id ledger.reservations))
        reservation_id reason now ledger

  abbrev pub balance_with :
      Result BudgetCaps → BudgetContext → ℕ → Ledger → Result Remaining × Ledger
  balance_with (raise error) context now ledger = (raise error, ledger)
  balance_with (ok caps) context now ledger =
      let ready = ensure_counters month_start context now ledger in
      (ok (remaining_from_postgres month_start context caps now ready), ready)

  unfoldable pub balance : BudgetContext → ℕ → Ledger → Result Remaining × Ledger
  balance context now ledger = balance_with (load_caps context ledger) context now ledger
