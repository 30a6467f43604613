-- ===== src/Governance/Budget/Traces.antt =====
-- Sequences of calls on the budget ledger.
use native.Mathlib.Nat.{le_trans}
use multi_agent_langgraph.Base.{
  ℕ, ◌≤◌, ◌≡◌, arith, String, some, List, [], ◌∷◌, string_key, inl, inr, Bool-cases, Result-cases,
  ◌==◌, pair_key,
}
use multi_agent_langgraph.Base.Dict.{lookup}
use multi_agent_langgraph.Governance.Budget.{
  BudgetContext, BudgetCaps, Team, team_key, Ledger, team_of,
}
use multi_agent_langgraph.Governance.Budget.Operations.{reserve, settle, release_orphaned}
use multi_agent_langgraph.Governance.Budget.Caps.{
  ticket_committed, daily_committed, monthly_committed, settle_committed, release_committed,
}
use multi_agent_langgraph.Governance.Budget.Effects.{
  reserve_within_caps, reserve_refused, reserve_committed, caps_known,
}

-- Calls on the ledger, each with what `uuid4` returns for it.
pub data Call : Type 0 where
  reserving : String → BudgetContext → ℕ → Call
  settling : String → ℕ → Call
  releasing : String → String → Call

-- The caller catches what a call raises, and goes on from the ledger that the call left.
abbrev pub call : Call → Ledger → Ledger
call (reserving id context cost) ledger = (reserve id context cost ledger).1
call (settling id actual) ledger = (settle id actual ledger).1
call (releasing id reason) ledger = (release_orphaned id reason ledger).1

abbrev pub calls : List Call → Ledger → Ledger
calls [] ledger = ledger
calls (c ∷ cs) ledger = calls cs (call c ledger)

caps-call : (c : Call) (ledger : Ledger) → (call c ledger).caps_by_run ≡ ledger.caps_by_run
unfolding reserve settle release_orphaned
caps-call (reserving id context cost) ledger = ground arith
caps-call (settling id actual) ledger = ground arith
caps-call (releasing id reason) ledger = ground arith

module _ (run_id : String) (caps : BudgetCaps) where
  ticket-call :
      (c : Call) (ledger : Ledger)
      → lookup run_id ledger.caps_by_run ≡ some caps
      → ticket_committed run_id ledger ≤ caps.ticket_cap_usd
      → ticket_committed run_id (call c ledger) ≤ caps.ticket_cap_usd
  ticket-call (settling id actual) ledger k h =
      le_trans (settle_committed id actual ledger run_id ("", "")).0 h
  ticket-call (releasing id reason) ledger k h =
      le_trans (release_committed id reason ledger run_id ("", "")).0 h
  ticket-call (reserving id context cost) ledger k h =
      elim (Result-cases (reserve id context cost ledger).0) [
        | inr (e, refused) ↦ rw (reserve_refused id context cost ledger e refused) h
        | inl (r, done) ↦
            let (caps', known, fits, _, _, _) = reserve_within_caps id context cost ledger r done in
            let grows = (reserve_committed id context cost ledger run_id ("", "")).0 in
            elim (Bool-cases (context.run_id == run_id)) [
              | inl own_run ↦ ground (
                arith,
                string_key.beq_iff context.run_id run_id,
                caps_known context caps' ledger known,
              )
              | inr other ↦ le_trans grows (rw other (omega arith))
            ]
      ]

  -- Whatever calls of `reserve`, `settle` and `release_orphaned` are made, what a run has spent and
  -- reserved stays within its configured ticket cap, if it is within it at the start.
  pub calls_within_ticket_cap :
      (cs : List Call) (ledger : Ledger)
      → lookup run_id ledger.caps_by_run ≡ some caps
      → ticket_committed run_id ledger ≤ caps.ticket_cap_usd
      → ticket_committed run_id (calls cs ledger) ≤ caps.ticket_cap_usd
  calls_within_ticket_cap [] ledger k h = h
  calls_within_ticket_cap (c ∷ cs) ledger k h =
      calls_within_ticket_cap cs (call c ledger) (rw (caps-call c ledger) k)
        (ticket-call c ledger k h)

-- Every configured cap leaves the team at most `daily` and `monthly`.
pub record IsCapped (daily monthly : ℕ) (ledger : Ledger) : Type 0 where
  pub at_run :
      (run_id : String) (caps : BudgetCaps)
      → lookup run_id ledger.caps_by_run ≡ some caps
      → (caps.daily_team_cap_usd ≤ daily) × (caps.monthly_team_cap_usd ≤ monthly)

module _ (team : Team) (daily monthly : ℕ) where
  abbrev IsFunded : Ledger → Type 0
  IsFunded ledger =
      (daily_committed team ledger ≤ daily) × (monthly_committed team ledger ≤ monthly)

  team-call :
      (c : Call) (ledger : Ledger)
      → IsCapped daily monthly ledger
      → IsFunded ledger
      → IsFunded (call c ledger)
  team-call (settling id actual) ledger k h = omega (
    arith,
    (settle_committed id actual ledger "" team).1,
    (settle_committed id actual ledger "" team).2,
  )
  team-call (releasing id reason) ledger k h = omega (
    arith,
    (release_committed id reason ledger "" team).1,
    (release_committed id reason ledger "" team).2,
  )
  team-call (reserving id context cost) ledger k h =
      elim (Result-cases (reserve id context cost ledger).0) [
        | inr (e, refused) ↦ rw (reserve_refused id context cost ledger e refused) h
        | inl (r, done) ↦
            let (caps, known, _, day, month, _) =
              reserve_within_caps id context cost ledger r done in
            let (_, day_grows, month_grows) = reserve_committed id context cost ledger "" team in
            elim (Bool-cases (team_of context == team)) [
              | inl own_team ↦ ground (
                arith,
                team_key.beq_iff (team_of context) team,
                k.at_run context.run_id caps (caps_known context caps ledger known),
              )
              | inr other ↦ (
                le_trans day_grows (rw other (omega arith)),
                le_trans month_grows (rw other (omega arith)),
              )
            ]
      ]

  -- Whatever calls are made, what a team has spent and reserved stays within the daily and the monthly
  -- amount, if every configured cap is and the team starts within them.
  pub calls_within_team_caps :
      (cs : List Call) (ledger : Ledger)
      → IsCapped daily monthly ledger
      → IsFunded ledger
      → IsFunded (calls cs ledger)
  calls_within_team_caps [] ledger k h = h
  calls_within_team_caps (c ∷ cs) ledger k h =
      calls_within_team_caps cs (call c ledger)
        (record { at_run = λ run_id caps e. k.at_run run_id caps (rw caps-call at e) })
        (team-call c ledger k h)
