-- ===== src/Governance/SharedBudget/Traces.antt =====
-- Sequences of calls on the shared budget ledger.
use multi_agent_langgraph.Base.{
  ℕ, ◌%◌, ◌≤◌, ◌≡◌, arith, String, Bool, true, List, [], ◌∷◌, string_key, inl, inr, Option-cases,
  Bool-cases, nat_eq, all, nat_key, pair_key,
}
use multi_agent_langgraph.Base.Dict.{lookup}
use multi_agent_langgraph.Governance.Budget.{BudgetContext}
use multi_agent_langgraph.Governance.SharedBudget.{Ledger, is_active}
use multi_agent_langgraph.Governance.SharedBudget.Operations.{
  reserve, settle, release_orphaned, balance,
}
use multi_agent_langgraph.Governance.SharedBudget.Caps.{IsWhole, committed, IsWithinCap}
use multi_agent_langgraph.Governance.SharedBudget.Invariant.{
  reserve-IsWithinCap, balance-IsWithinCap,
}
use multi_agent_langgraph.Governance.SharedBudget.Settling.{
  release-IsWithinCap, settle_row-IsWithinCap,
}

pub data Call : Type 0 where
  reserve_call : BudgetContext → String → ℕ → ℕ → Call
  settle_call : String → ℕ → ℕ → Call
  release_call : String → String → ℕ → Call
  balance_call : BudgetContext → ℕ → Call

abbrev pub whole_amount : Call → Bool
whole_amount (reserve_call context id amount now) = nat_eq (amount % 10000) 0
whole_amount (settle_call id actual now) = nat_eq (actual % 10000) 0
whole_amount (release_call id reason now) = true
whole_amount (balance_call context now) = true

module _ (month_start : ℕ → ℕ) where
  unfoldable pub after_call : Call → Ledger → Ledger
  after_call (reserve_call context id amount now) ledger =
      (reserve month_start context id amount now ledger).1
  after_call (settle_call id actual now) ledger = (settle month_start id actual now ledger).1
  after_call (release_call id reason now) ledger =
      (release_orphaned month_start id reason now ledger).1
  after_call (balance_call context now) ledger = (balance month_start context now ledger).1

  unfoldable pub after_calls : List Call → Ledger → Ledger
  after_calls [] ledger = ledger
  after_calls (call ∷ calls) ledger = after_calls calls (after_call call ledger)

  module _ (run_id : String) (cap : ℕ) (cap_whole : IsWhole cap) where
    settle-IsWithinCap :
        (id : String) (actual now : ℕ) (ledger : Ledger)
        → IsWhole actual
        → IsWithinCap run_id cap ledger
        → IsWithinCap run_id cap (settle month_start id actual now ledger).1
    unfolding settle
    settle-IsWithinCap id actual now ledger w i =
        elim (Option-cases (lookup id ledger.reservations)) [
          | inl e ↦ rw e i
          | inr (row, e) ↦ rw e (elim (Bool-cases (is_active row.status)) [
            | inl a ↦ rw a (
                settle_row-IsWithinCap run_id cap month_start now cap_whole id row ledger i e a
                  actual w)
            | inr a ↦ rw a i
          ])
        ]

    release_orphaned-IsWithinCap :
        (id reason : String) (now : ℕ) (ledger : Ledger)
        → IsWithinCap run_id cap ledger
        → IsWithinCap run_id cap (release_orphaned month_start id reason now ledger).1
    unfolding release_orphaned
    release_orphaned-IsWithinCap id reason now ledger i =
        elim (Option-cases (lookup id ledger.reservations)) [
          | inl e ↦ rw e i
          | inr (row, e) ↦ rw e (elim (Bool-cases (is_active row.status)) [
            | inl a ↦ rw a (
                release-IsWithinCap run_id cap month_start now cap_whole id row ledger i e a reason)
            | inr a ↦ rw a i
          ])
        ]

    after_call-IsWithinCap :
        (call : Call) (ledger : Ledger)
        → whole_amount call ≡ true
        → IsWithinCap run_id cap ledger
        → IsWithinCap run_id cap (after_call call ledger)
    unfolding after_call
    after_call-IsWithinCap (reserve_call context id amount now) ledger w i =
        reserve-IsWithinCap run_id cap month_start now cap_whole context id amount ledger
          (ground (arith, w)) i
    after_call-IsWithinCap (settle_call id actual now) ledger w i =
        settle-IsWithinCap id actual now ledger (ground (arith, w)) i
    after_call-IsWithinCap (release_call id reason now) ledger w i =
        release_orphaned-IsWithinCap id reason now ledger i
    after_call-IsWithinCap (balance_call context now) ledger w i =
        balance-IsWithinCap run_id cap month_start now cap_whole context ledger i

    after_calls-IsWithinCap :
        (calls : List Call) (ledger : Ledger)
        → all whole_amount calls ≡ true
        → IsWithinCap run_id cap ledger
        → IsWithinCap run_id cap (after_calls calls ledger)
    unfolding after_calls all
    after_calls-IsWithinCap [] ledger h i = i
    after_calls-IsWithinCap (call ∷ calls) ledger h i =
        after_calls-IsWithinCap calls (after_call call ledger) (ground (arith, h))
          (after_call-IsWithinCap call ledger (ground (arith, h)) i)

    -- Under the shared budget ledger, what a run has reserved and spent stays within its ticket cap,
    -- whatever reservations, settlements, releases and balances are asked for, by any run, at any
    -- time, if the cap and the amounts are whole cents and the ledger starts within the cap.
    pub shared_calls_within_ticket_cap :
        (calls : List Call) (ledger : Ledger)
        → all whole_amount calls ≡ true
        → IsWithinCap run_id cap ledger
        → committed run_id cap (after_calls calls ledger) ≤ cap
    shared_calls_within_ticket_cap calls ledger h i =
        (after_calls-IsWithinCap calls ledger h i).within
