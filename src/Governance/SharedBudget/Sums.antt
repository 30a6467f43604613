-- ===== src/Governance/SharedBudget/Sums.antt =====
-- The sums over the tables of the shared budget ledger when a row is written.
use multi_agent_langgraph.Base.{
  ◌+◌, ◌≡◌, sym, ◌∙◌, arith, String, false, some, string_key, ◌==◌, inl, inr, Option-cases,
  Bool-cases,
}
use multi_agent_langgraph.Base.Dict.{Dict, lookup, insert, has_key, sum_of-insert, lookup-insert}
use multi_agent_langgraph.Governance.SharedBudget.{
  ReservationRow, ChargeRow, active_in_run, charged_in_run, active_of_run, charge_of_run,
}
use multi_agent_langgraph.Governance.SharedBudget.Caps.{IsWhole}

module _ (run_id : String) where
  pub active-insert :
      (id : String) (row : ReservationRow) (rows : Dict String ReservationRow)
      → has_key id rows ≡ false
      → active_in_run run_id (insert id row rows)
        ≡ active_in_run run_id rows + active_of_run run_id row
  unfolding active_in_run
  active-insert id row rows h = elim (Option-cases (lookup id rows)) [
    | inl e ↦ ground (arith, e, sum_of-insert (active_of_run run_id) id row rows)
    | inr (old, e) ↦ ground (arith, e, h)
  ]

  pub active-replace :
      (id : String) (row old : ReservationRow) (rows : Dict String ReservationRow)
      → lookup id rows ≡ some old
      → active_in_run run_id (insert id row rows) + active_of_run run_id old
        ≡ active_in_run run_id rows + active_of_run run_id row
  unfolding active_in_run
  active-replace id row old rows e =
      ground (arith, e, sum_of-insert (active_of_run run_id) id row rows)

  pub charged-insert :
      (id : String) (row : ChargeRow) (rows : Dict String ChargeRow)
      → has_key id rows ≡ false
      → charged_in_run run_id (insert id row rows)
        ≡ charged_in_run run_id rows + charge_of_run run_id row
  unfolding charged_in_run
  charged-insert id row rows h = elim (Option-cases (lookup id rows)) [
    | inl e ↦ ground (arith, e, sum_of-insert (charge_of_run run_id) id row rows)
    | inr (old, e) ↦ ground (arith, e, h)
  ]

pub rows-insert :
    (id : String) (row : ReservationRow) (rows : Dict String ReservationRow)
    → IsWhole row.reserved_amount_usd
    → ((j : String) (r : ReservationRow) → lookup j rows ≡ some r → IsWhole r.reserved_amount_usd)
    → (j : String) (r : ReservationRow) → lookup j (insert id row rows) ≡ some r
    → IsWhole r.reserved_amount_usd
rows-insert id row rows w old j r h = elim (Bool-cases (id == j)) [
  | inl e ↦ ground (arith, e, h, w, lookup-insert id j row rows)
  | inr e ↦ old j r (sym (other e) ∙ h)
]
  where
    other : (id == j) ≡ false → lookup j (insert id row rows) ≡ lookup j rows
    other e = ground (arith, e, lookup-insert id j row rows)
