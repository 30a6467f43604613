-- ===== src/Governance/SharedBudget/Midnight.antt =====
-- A refund on a day that has no counter yet.
use multi_agent_langgraph.Base.{
  ℕ, ◌-◌, ◌≡◌, refl, ltb, leb, String, Bool, true, false, Option, none, some, string_key,
  if◌then◌else◌, ok, raise, nat_key, pair_key, ◌||◌, budget_exceeded,
}
use multi_agent_langgraph.Base.Dict.{lookup, has_key, lookup-insert_same}
use multi_agent_langgraph.Governance.Budget.{BudgetContext, BudgetCaps}
use multi_agent_langgraph.Governance.SharedBudget.{
  Ledger, Counters, ReservationRow, is_active, usd_to_cents, load_caps, ensure_counters,
  has_counters, daily_key, monthly_key,
}
use multi_agent_langgraph.Governance.SharedBudget.Operations.{
  reserve, settle, settle_row, credit_counters, script_answer, answered, refused, granted, weigh,
}

module _ (month_start : ℕ → ℕ) where
  -- A credit leaves all three counters, and the daily one is the credit where there was none.
  credited :
      (context : BudgetContext) (now cents : ℕ) (counters : Counters)
      → leb cents 0 ≡ false
      → lookup (daily_key month_start context now) counters.daily ≡ none
      → (has_counters month_start context now
            (credit_counters month_start context now cents counters)
          ≡ true)
        × (lookup
              (daily_key month_start context now)
              (credit_counters month_start context now cents counters).daily
            ≡ some cents)
  unfolding credit_counters
  credited context now cents counters positive absent =
      rw (positive, absent)
        (rw
          (
            lookup-insert_same context.run_id _ counters.ticket,
            lookup-insert_same (daily_key month_start context now) cents counters.daily,
            lookup-insert_same (monthly_key month_start context now) _ counters.monthly,
          )
          (refl, refl))

  short :
      (context : BudgetContext) (id : String) (amount now d : ℕ) (caps : BudgetCaps)
      (ledger : Ledger) (x z : Option ℕ)
      → ltb d (usd_to_cents amount) ≡ true
      → (answered month_start context id amount now caps
          (weigh (usd_to_cents amount) x (some d) z)
          ledger).0
        ≡ raise budget_exceeded
  short context id amount now d caps ledger none z h = refl
  short context id amount now d caps ledger (some t) none h = refl
  short context id amount now d caps ledger (some t) (some m) h =
      shown (ltb t (usd_to_cents amount)) _ h
    where
      shown :
          (b c : Bool) {x : Bool}
          → x ≡ true
          → (answered month_start context id amount now caps
              (if b || (x || c)
                then refused t d m
                else granted
                    (t - usd_to_cents amount)
                    (d - usd_to_cents amount)
                    (m - usd_to_cents amount))
              ledger).0
            ≡ raise budget_exceeded
      shown true c h = refl
      shown false c h = rw h refl

  starved :
      (context : BudgetContext) (id : String) (amount now d : ℕ) (caps : BudgetCaps)
      (ledger : Ledger)
      → load_caps context ledger ≡ ok caps
      → has_counters month_start context now ledger.counters ≡ true
      → lookup (daily_key month_start context now) ledger.counters.daily ≡ some d
      → ltb d (usd_to_cents amount) ≡ true
      → (reserve month_start context id amount now ledger).0 ≡ raise budget_exceeded
  unfolding reserve ensure_counters script_answer
  starved context id amount now d caps ledger c h l s =
      rw c (rw h (rw l (short context id amount now d caps ledger _ _ s)))

  -- Under the shared budget ledger, when a reservation is settled with a refund on a day for which
  -- the team has no daily counter yet, the refund becomes all that the counter of that day allows: a
  -- reservation of more by the same run is then refused, whatever the caps are.
  pub late_settlement_limits_day :
      (id other : String) (row : ReservationRow) (actual amount now : ℕ) (caps : BudgetCaps)
      (ledger : Ledger)
      → lookup id ledger.reservations ≡ some row
      → is_active row.status ≡ true
      → ltb row.reserved_amount_usd actual ≡ false
      → has_key id ledger.charges ≡ false
      → lookup (daily_key month_start row.context now) ledger.counters.daily ≡ none
      → leb (usd_to_cents (row.reserved_amount_usd - actual)) 0 ≡ false
      → load_caps row.context ledger ≡ ok caps
      → ltb (usd_to_cents (row.reserved_amount_usd - actual)) (usd_to_cents amount) ≡ true
      → (reserve month_start row.context other amount now
          (settle month_start id actual now ledger).1).0
        ≡ raise budget_exceeded
  unfolding settle settle_row load_caps
  late_settlement_limits_day id other row actual amount now caps ledger f a e k absent p c s =
      let back = row.reserved_amount_usd - actual in
      let after = credited row.context now (usd_to_cents back) ledger.counters p absent in
      rw (f, a, e, k)
        (starved row.context other amount now (usd_to_cents back) caps _ c (after.0) (after.1) s)
