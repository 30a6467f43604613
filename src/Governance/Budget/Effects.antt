-- ===== src/Governance/Budget/Effects.antt =====
-- What `reserve` and `settle` of the budget ledger do.
use multi_agent_langgraph.Base.{
  ℕ, ◌+◌, ◌-◌, ◌≤◌, ◌<◌, ◌≡◌, arith, String, none, some, [], ◌∷◌, ◌++◌, string_key, Error, ok,
  raise, value_error, inl, inr, Result-cases, if◌then◌else◌, ◌==◌, pair_key,
}
use multi_agent_langgraph.Base.Dict.{lookup, lookup-insert, lookup-erase}
use multi_agent_langgraph.Base.Int.{pos}
use multi_agent_langgraph.Governance.Budget.{
  BudgetContext, BudgetCaps, BudgetReservation, BudgetSettlement, ActiveReservation, Team, team_key,
  Ledger, team_of, of_run, of_team, caps_for_context, ticket_used, daily_used, monthly_used,
}
use multi_agent_langgraph.Governance.Budget.Operations.{reserve, settle}
use multi_agent_langgraph.Governance.Budget.Caps.{
  reserved_where-insert, reserved_where-erase, ticket_committed, daily_committed, monthly_committed,
}

module _ (id : String) (context : BudgetContext) (cost : ℕ) (ledger : Ledger) where
  abbrev after : Ledger
  after = (reserve id context cost ledger).1

  abbrev own : ActiveReservation
  own = record { reservation_id = id; context = context; reserved_amount_usd = cost }

  -- When `reserve` succeeds, the caps of the run were configured, what the ticket, the day and the
  -- month have committed afterwards is within them, and the reservation tells what remains of the ticket cap.
  pub reserve_within_caps :
      (r : BudgetReservation)
      → (reserve id context cost ledger).0 ≡ ok r
      → (caps : BudgetCaps) × (caps_for_context context ledger ≡ ok caps)
        × (ticket_committed context.run_id after ≤ caps.ticket_cap_usd)
        × (daily_committed (team_of context) after ≤ caps.daily_team_cap_usd)
        × (monthly_committed (team_of context) after ≤ caps.monthly_team_cap_usd)
        × (r.ticket_cap_remaining_usd
            ≡ pos (caps.ticket_cap_usd - (ticket_committed context.run_id ledger + cost)))
  unfolding reserve
  reserve_within_caps r h = elim (Result-cases (caps_for_context context ledger)) [
    | inr (e, bad) ↦ absurd (ground arith)
    | inl (caps, good) ↦
        let team = team_of context in
        let held = ledger.active_reservations in
        let more_run = reserved_where-insert (of_run context.run_id) id own held in
        let more_team = reserved_where-insert (of_team team) id own held in
        let same_run = string_key.beq_iff context.run_id context.run_id in
        let same_team = team_key.beq_iff team team in
        (
          caps,
          good,
          ground (arith, more_run, same_run),
          ground (arith, more_team, same_team),
          ground (arith, more_team, same_team),
          ground arith,
        )
  ]

  -- A refused reservation changes nothing.
  pub reserve_refused : (e : Error) → (reserve id context cost ledger).0 ≡ raise e → after ≡ ledger
  unfolding reserve
  reserve_refused e h = ground arith

  -- Another run's commitment grows by no reservation but its own.
  pub reserve_committed :
      (run_id : String) (team : Team)
      → (ticket_committed run_id after
          ≤ ticket_committed run_id ledger + (if context.run_id == run_id then cost else 0))
        × (daily_committed team after
            ≤ daily_committed team ledger + (if team_of context == team then cost else 0))
        × (monthly_committed team after
            ≤ monthly_committed team ledger + (if team_of context == team then cost else 0))
  unfolding reserve
  reserve_committed run_id team = ground (
    arith,
    reserved_where-insert (of_run run_id) id own ledger.active_reservations,
    reserved_where-insert (of_team team) id own ledger.active_reservations,
  )

pub caps_known :
    (context : BudgetContext) (caps : BudgetCaps) (ledger : Ledger)
    → caps_for_context context ledger ≡ ok caps
    → lookup context.run_id ledger.caps_by_run ≡ some caps
unfolding caps_for_context
caps_known context caps ledger h = ground arith

module _ (id : String) (actual : ℕ) (ledger : Ledger) (r : ActiveReservation)
    (there : lookup id ledger.active_reservations ≡ some r) where
  abbrev settled : Ledger
  settled = (settle id actual ledger).1

  abbrev entry : BudgetSettlement
  entry = record {
    reservation_id = id;
    estimated_cost_usd = r.reserved_amount_usd;
    actual_cost_usd = actual;
    refunded_amount_usd = r.reserved_amount_usd - actual;
  }

  -- Settling an active reservation for at most its amount succeeds: the ticket, the day and the month
  -- are charged with the actual cost, the reservation is gone, and the settlement that is recorded
  -- splits the estimate into the actual cost and the refund.
  pub settle_success :
      actual ≤ r.reserved_amount_usd
      → ((settle id actual ledger).0 ≡ ok tt)
        × (ticket_used r.context.run_id settled ≡ ticket_used r.context.run_id ledger + actual)
        × (daily_used (team_of r.context) settled ≡ daily_used (team_of r.context) ledger + actual)
        × (monthly_used (team_of r.context) settled
            ≡ monthly_used (team_of r.context) ledger + actual)
        × (lookup id settled.active_reservations ≡ none)
        × (settled.settlements ≡ ledger.settlements ++ entry ∷ [])
        × (entry.actual_cost_usd + entry.refunded_amount_usd ≡ entry.estimated_cost_usd)
  unfolding settle
  settle_success fits =
      let run = r.context.run_id in
      let own = team_of r.context in
      ground (
        arith,
        there,
        lookup-erase id id ledger.active_reservations,
        lookup-insert run run (ticket_used run ledger + actual) ledger.ticket_spend,
        lookup-insert own own (daily_used own ledger + actual) ledger.team_daily_spend,
        lookup-insert own own (monthly_used own ledger + actual) ledger.team_monthly_spend,
        string_key.beq_iff id id,
        string_key.beq_iff run run,
        team_key.beq_iff own own,
      )

  -- Settling for more than the reserved amount fails, and yet the reservation is gone: nothing is
  -- charged and no settlement is recorded, so that the cost is lost and its amount is free again.
  pub settle_overrun :
      r.reserved_amount_usd < actual
      → ((settle id actual ledger).0
          ≡ raise (value_error "Actual cost exceeded the reserved worst-case estimate."))
        × (lookup id settled.active_reservations ≡ none)
        × (settled.ticket_spend ≡ ledger.ticket_spend)
        × (settled.team_daily_spend ≡ ledger.team_daily_spend)
        × (settled.team_monthly_spend ≡ ledger.team_monthly_spend)
        × (settled.settlements ≡ ledger.settlements)
        × (ticket_committed r.context.run_id settled + r.reserved_amount_usd
            ≤ ticket_committed r.context.run_id ledger)
  unfolding settle
  settle_overrun over = ground (
    arith,
    there,
    lookup-erase id id ledger.active_reservations,
    string_key.beq_iff id id,
    string_key.beq_iff r.context.run_id r.context.run_id,
    reserved_where-erase (of_run r.context.run_id) id ledger.active_reservations r there,
  )
