-- ===== src/Governance/Budget/Caps.antt =====
-- What the budget ledger has committed, spent or reserved, for a run and for a team.
use multi_agent_langgraph.Base.{
  ℕ, ◌+◌, ◌≤◌, ◌≡◌, arith, String, Bool, some, [], ◌∷◌, string_key, pair_key, if◌then◌else◌,
  Option-cases, inl, inr,
}
use multi_agent_langgraph.Base.Dict.{Dict, lookup, insert, erase, lookup-insert}
use multi_agent_langgraph.Governance.Budget.{
  BudgetContext, ActiveReservation, Team, team_key, Ledger, team_of, of_run, of_team,
  reserved_where, reserved_amount_for_run, reserved_amount_for_team, ticket_used, daily_used,
  monthly_used,
}
use multi_agent_langgraph.Governance.Budget.Operations.{settle, release_orphaned}

module _ (p : BudgetContext → Bool) where
  abbrev amount_if : ActiveReservation → ℕ
  amount_if r = if p r.context then r.reserved_amount_usd else 0

  pub reserved_where-insert :
      (k : String) (r : ActiveReservation) (d : Dict String ActiveReservation)
      → reserved_where p (insert k r d) ≤ reserved_where p d + amount_if r
  unfolding reserved_where insert
  reserved_where-insert k r [] = omega arith
  reserved_where-insert k r ((j, q) ∷ d) = ground (arith, reserved_where-insert k r d)

  reserved_where-erase_le :
      (k : String) (d : Dict String ActiveReservation)
      → reserved_where p (erase k d) ≤ reserved_where p d
  unfolding reserved_where erase
  reserved_where-erase_le k [] = omega arith
  reserved_where-erase_le k ((j, q) ∷ d) = ground (arith, reserved_where-erase_le k d)

  -- What is popped is no longer reserved.
  pub reserved_where-erase :
      (k : String) (d : Dict String ActiveReservation) (r : ActiveReservation)
      → lookup k d ≡ some r
      → reserved_where p (erase k d) + amount_if r ≤ reserved_where p d
  unfolding reserved_where erase lookup
  reserved_where-erase k [] r h = cc
  reserved_where-erase k ((j, q) ∷ d) r h =
      ground (arith, reserved_where-erase_le k d, reserved_where-erase k d r)

abbrev pub ticket_committed : String → Ledger → ℕ
ticket_committed run_id ledger = ticket_used run_id ledger + reserved_amount_for_run run_id ledger

abbrev pub daily_committed : Team → Ledger → ℕ
daily_committed team ledger = daily_used team ledger + reserved_amount_for_team team ledger

abbrev pub monthly_committed : Team → Ledger → ℕ
monthly_committed team ledger = monthly_used team ledger + reserved_amount_for_team team ledger

-- Settling never raises what any run or team has committed, whether it succeeds or not.
pub settle_committed :
    (id : String) (actual : ℕ) (ledger : Ledger) (run_id : String) (team : Team)
    → let after = (settle id actual ledger).1 in
      (ticket_committed run_id after ≤ ticket_committed run_id ledger)
      × (daily_committed team after ≤ daily_committed team ledger)
      × (monthly_committed team after ≤ monthly_committed team ledger)
unfolding settle
settle_committed id actual ledger run_id team =
    elim (Option-cases (lookup id ledger.active_reservations)) [
      | inl absent ↦ ground arith
      | inr (r, there) ↦
          let run = r.context.run_id in
          let own = team_of r.context in
          ground (
            arith,
            reserved_where-erase_le (of_run run_id) id ledger.active_reservations,
            reserved_where-erase_le (of_team team) id ledger.active_reservations,
            reserved_where-erase (of_run run_id) id ledger.active_reservations r there,
            reserved_where-erase (of_team team) id ledger.active_reservations r there,
            lookup-insert run run_id (ticket_used run ledger + actual) ledger.ticket_spend,
            lookup-insert own team (daily_used own ledger + actual) ledger.team_daily_spend,
            lookup-insert own team (monthly_used own ledger + actual) ledger.team_monthly_spend,
            string_key.beq_iff run run_id,
            team_key.beq_iff own team,
          )
    ]

pub release_committed :
    (id reason : String) (ledger : Ledger) (run_id : String) (team : Team)
    → let after = (release_orphaned id reason ledger).1 in
      (ticket_committed run_id after ≤ ticket_committed run_id ledger)
      × (daily_committed team after ≤ daily_committed team ledger)
      × (monthly_committed team after ≤ monthly_committed team ledger)
unfolding release_orphaned
release_committed id reason ledger run_id team = ground (
  arith,
  reserved_where-erase_le (of_run run_id) id ledger.active_reservations,
  reserved_where-erase_le (of_team team) id ledger.active_reservations,
)
