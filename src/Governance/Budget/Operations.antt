-- ===== src/Governance/Budget/Operations.antt =====
-- `InMemoryBudgetLedger` of persistence/testing/governance.py: `reserve`, `settle`,
-- `release_orphaned` and `balance`.
use multi_agent_langgraph.Base.{
  ℕ, ◌+◌, ◌-◌, String, Option, none, some, [], ◌∷◌, ◌++◌, ltb, string_key, pair_key, if◌then◌else◌,
  Result, ok, raise, value_error, key_error, budget_exceeded,
}
use multi_agent_langgraph.Base.Dict.{lookup, insert, erase}
use multi_agent_langgraph.Base.Int.{sub_ℕ}
use multi_agent_langgraph.Governance.Budget.{
  BudgetContext, BudgetCaps, BudgetReservation, BudgetBalance, ActiveReservation, Ledger, team_of,
  caps_for_context, ticket_used, daily_used, monthly_used, ticket_total, daily_total, monthly_total,
}

-- `reservation_id` is what `uuid4` returned.
abbrev grant : String → BudgetContext → ℕ → Ledger → BudgetCaps → Result BudgetReservation × Ledger
grant reservation_id context cost ledger caps = (
  ok (record {
    reservation_id = reservation_id;
    reserved_amount_usd = cost;
    ticket_cap_remaining_usd = sub_ℕ caps.ticket_cap_usd (ticket_total context cost ledger);
    daily_team_cap_remaining_usd = sub_ℕ caps.daily_team_cap_usd (daily_total context cost ledger);
    monthly_team_cap_remaining_usd =
        sub_ℕ caps.monthly_team_cap_usd (monthly_total context cost ledger);
  }),
  record ledger {
    active_reservations =
        insert reservation_id
          (record {
            reservation_id = reservation_id;
            context = context;
            reserved_amount_usd = cost;
          })
          ledger.active_reservations;
  },
)

abbrev reserve_with :
    Result BudgetCaps → String → BudgetContext → ℕ → Ledger → Result BudgetReservation × Ledger
reserve_with (raise e) reservation_id context cost ledger = (raise e, ledger)
reserve_with (ok caps) reservation_id context cost ledger =
    if ltb caps.ticket_cap_usd (ticket_total context cost ledger)
    then (raise budget_exceeded, ledger)
    else if ltb caps.daily_team_cap_usd (daily_total context cost ledger)
    then (raise budget_exceeded, ledger)
    else if ltb caps.monthly_team_cap_usd (monthly_total context cost ledger)
    then (raise budget_exceeded, ledger)
    else grant reservation_id context cost ledger caps

unfoldable pub reserve : String → BudgetContext → ℕ → Ledger → Result BudgetReservation × Ledger
reserve reservation_id context cost ledger =
    reserve_with (caps_for_context context ledger) reservation_id context cost ledger

abbrev spend : String → BudgetContext → ℕ → ActiveReservation → Ledger → Ledger
spend reservation_id context actual reservation ledger =
    let team = team_of context in
    record ledger {
      ticket_spend =
          insert context.run_id (ticket_used context.run_id ledger + actual) ledger.ticket_spend;
      team_daily_spend = insert team (daily_used team ledger + actual) ledger.team_daily_spend;
      team_monthly_spend =
          insert team (monthly_used team ledger + actual) ledger.team_monthly_spend;
      settlements =
          ledger.settlements
          ++ record {
            reservation_id = reservation_id;
            estimated_cost_usd = reservation.reserved_amount_usd;
            actual_cost_usd = actual;
            refunded_amount_usd = reservation.reserved_amount_usd - actual;
          }
            ∷ [];
    }

-- `self._active_reservations.pop(reservation_id)`
abbrev pop : String → Ledger → Ledger
pop reservation_id ledger = record ledger {
  active_reservations = erase reservation_id ledger.active_reservations;
}

-- The reservation is popped before the actual cost is compared with it.
abbrev settle_popped : Option ActiveReservation → String → ℕ → Ledger → Result (Unit {0}) × Ledger
settle_popped none reservation_id actual ledger = (raise (key_error reservation_id), ledger)
settle_popped (some reservation) reservation_id actual ledger =
    let popped = pop reservation_id ledger in
    if ltb reservation.reserved_amount_usd actual
    then (raise (value_error "Actual cost exceeded the reserved worst-case estimate."), popped)
    else (ok tt, spend reservation_id reservation.context actual reservation popped)

unfoldable pub settle : String → ℕ → Ledger → Result (Unit {0}) × Ledger
settle reservation_id actual ledger =
    settle_popped (lookup reservation_id ledger.active_reservations) reservation_id actual ledger

abbrev release_popped :
    Option ActiveReservation → String → String → Ledger → Result (Unit {0}) × Ledger
release_popped none reservation_id reason ledger = (raise (key_error reservation_id), ledger)
release_popped (some reservation) reservation_id reason ledger = (
  ok tt,
  record (pop reservation_id ledger) {
    orphaned_releases =
        ledger.orphaned_releases
        ++ record {
          reservation_id = reservation_id;
          released_amount_usd = reservation.reserved_amount_usd;
          reason = reason;
        }
          ∷ [];
  },
)

unfoldable pub release_orphaned : String → String → Ledger → Result (Unit {0}) × Ledger
release_orphaned reservation_id reason ledger =
    release_popped (lookup reservation_id ledger.active_reservations) reservation_id reason ledger

abbrev balance_with : Result BudgetCaps → BudgetContext → Ledger → Result BudgetBalance
balance_with (raise e) context ledger = raise e
balance_with (ok caps) context ledger = ok (record {
  ticket_remaining_usd = sub_ℕ caps.ticket_cap_usd (ticket_total context 0 ledger);
  daily_team_remaining_usd = sub_ℕ caps.daily_team_cap_usd (daily_total context 0 ledger);
  monthly_team_remaining_usd = sub_ℕ caps.monthly_team_cap_usd (monthly_total context 0 ledger);
})

unfoldable pub balance : BudgetContext → Ledger → Result BudgetBalance
balance context ledger = balance_with (caps_for_context context ledger) context ledger
