-- ===== src/Governance/Examples/Spending.antt =====
-- The budget ledger with the caps of one run and a few calls.
use multi_agent_langgraph.Base.{
  ◌+◌, ◌≤◌, ◌≡◌, refl, arith, none, some, List, [], ◌∷◌, ok, raise, value_error, string_key,
  pair_key,
}
use multi_agent_langgraph.Base.Dict.{lookup, insert}
use multi_agent_langgraph.Base.Int.{pos}
use multi_agent_langgraph.Governance.Budget.{
  BudgetContext, BudgetCaps, BudgetReservation, ActiveReservation, Ledger, new, configure_caps,
  caps_for_context, reserved_where, team_of,
}
use multi_agent_langgraph.Governance.Budget.Operations.{reserve, settle}
use multi_agent_langgraph.Governance.Budget.Caps.{
  ticket_committed, daily_committed, monthly_committed,
}
use multi_agent_langgraph.Governance.Budget.Effects.{settle_overrun}
use multi_agent_langgraph.Governance.Budget.Traces.{
  Call, reserving, settling, releasing, calls, calls_within_ticket_cap, IsCapped,
  calls_within_team_caps,
}
use multi_agent_langgraph.Governance.Catalog.{coder}

abbrev context : BudgetContext
context = record {
  tenant_id = "tenant-alpha";
  team_id = "team-core";
  run_id = "run-1";
  ticket_key = "ENG-1";
  role = coder;
}

abbrev caps : BudgetCaps
caps = record { ticket_cap_usd = 10; daily_team_cap_usd = 20; monthly_team_cap_usd = 100 }

unfoldable configured : Ledger
unfolding configure_caps insert
configured = configure_caps context caps new

unfoldable reserved : Ledger
unfolding configured reserve caps_for_context lookup insert reserved_where
reserved = (reserve "r1" context 6 configured).1

abbrev granted : BudgetReservation
granted = record {
  reservation_id = "r1";
  reserved_amount_usd = 6;
  ticket_cap_remaining_usd = pos 4;
  daily_team_cap_remaining_usd = pos 14;
  monthly_team_cap_remaining_usd = pos 94;
}

reserve-granted : (reserve "r1" context 6 configured).0 ≡ ok granted
unfolding configured reserve caps_for_context lookup insert reserved_where
reserve-granted = refl

abbrev active : ActiveReservation
active = record { reservation_id = "r1"; context = context; reserved_amount_usd = 6 }

active-there : lookup "r1" reserved.active_reservations ≡ some active
unfolding reserved configured reserve caps_for_context lookup insert reserved_where
active-there = refl

settle_overrun_example :
    ((settle "r1" 7 reserved).0
      ≡ raise (value_error "Actual cost exceeded the reserved worst-case estimate."))
    × (lookup "r1" (settle "r1" 7 reserved).1.active_reservations ≡ none)
    × ((settle "r1" 7 reserved).1.ticket_spend ≡ reserved.ticket_spend)
    × ((settle "r1" 7 reserved).1.team_daily_spend ≡ reserved.team_daily_spend)
    × ((settle "r1" 7 reserved).1.team_monthly_spend ≡ reserved.team_monthly_spend)
    × ((settle "r1" 7 reserved).1.settlements ≡ reserved.settlements)
    × (ticket_committed "run-1" (settle "r1" 7 reserved).1 + 6 ≤ ticket_committed "run-1" reserved)
settle_overrun_example = settle_overrun "r1" 7 reserved active active-there (omega arith)

abbrev session : List Call
session =
    reserving "r1" context 6
    ∷ reserving "r2" context 5
    ∷ settling "r1" 5
    ∷ reserving "r2" context 5
    ∷ releasing "r2" "timeout"
    ∷ settling "r2" 1
    ∷ []

caps-there : lookup "run-1" configured.caps_by_run ≡ some caps
unfolding configured lookup
caps-there = refl

nothing_yet :
    (ticket_committed "run-1" configured ≡ 0)
    × (daily_committed (team_of context) configured ≡ 0)
    × (monthly_committed (team_of context) configured ≡ 0)
unfolding configured lookup reserved_where
nothing_yet = (refl, refl, refl)

calls_within_ticket_cap_example : ticket_committed "run-1" (calls session configured) ≤ 10
calls_within_ticket_cap_example =
    calls_within_ticket_cap "run-1" caps session configured caps-there
      (omega (arith, nothing_yet.0))

configured-IsCapped : IsCapped 20 100 configured
unfolding configured lookup
configured-IsCapped = record { at_run = λ run_id c e. ground (arith, e) }

calls_within_team_caps_example :
    (daily_committed (team_of context) (calls session configured) ≤ 20)
    × (monthly_committed (team_of context) (calls session configured) ≤ 100)
calls_within_team_caps_example =
    calls_within_team_caps (team_of context) 20 100 session configured configured-IsCapped
      (omega (arith, nothing_yet.1), omega (arith, nothing_yet.2))
