-- ===== src/Governance/SharedBudget/Settling.antt =====
-- A settlement or a release keeps every run within its ticket cap under the shared budget ledger.
use multi_agent_langgraph.Base.{
  ℕ, ◌+◌, ◌-◌, ◌*◌, ◌≤◌, ◌≡◌, refl, sym, ap, ◌∙◌, arith, ltb, String, true, false, some, string_key,
  ◌==◌, if◌then◌else◌, inl, inr, Bool-cases, ok,
}
use multi_agent_langgraph.Base.Dict.{lookup, insert, has_key}
use multi_agent_langgraph.Governance.SharedBudget.{
  Ledger, ReservationRow, settled, released, is_active, usd_to_cents,
}
use multi_agent_langgraph.Governance.SharedBudget.Operations.{
  settle_row, credit_counters, charge_row, ended, release_with,
}
use multi_agent_langgraph.Governance.SharedBudget.Caps.{
  IsWhole, committed, IsWithinCap, HasRoom, credit-HasRoom, usd_to_cents-IsWhole,
}
use multi_agent_langgraph.Governance.SharedBudget.Sums.{active-replace, charged-insert, rows-insert}

module _ (run_id : String) (cap : ℕ) (month_start : ℕ → ℕ) (now : ℕ) (cap_whole : IsWhole cap) where
  abbrev spent : Ledger → ℕ
  spent = committed run_id cap

  module _ (id : String) (row : ReservationRow) (ledger : Ledger)
      (i : IsWithinCap run_id cap ledger) (found : lookup id ledger.reservations ≡ some row)
      (live : is_active row.status ≡ true) where
    reserved-IsWhole : IsWhole row.reserved_amount_usd
    reserved-IsWhole = i.rows_whole id row found

    -- What the run has committed once the row is ended and a charge, if any, is added: a part of the
    -- reservation, whole cents, goes back.
    module _ (back : ℕ) (after : Ledger) (back_whole : IsWhole back)
        (le : back ≤ row.reserved_amount_usd)
        (caps_same : after.cap_snapshots ≡ ledger.cap_snapshots)
        (rows_same : (j : String) (r : ReservationRow)
          → lookup j after.reservations ≡ some r
          → IsWhole r.reserved_amount_usd)
        (less : spent after + (if row.context.run_id == run_id then back else 0) ≡ spent ledger)
        (credited : after.counters
          ≡ credit_counters month_start row.context now (usd_to_cents back) ledger.counters) where
      less_same : (row.context.run_id == run_id) ≡ true → spent after + back ≡ spent ledger
      less_same r = ground (arith, less, r)

      less_other : (row.context.run_id == run_id) ≡ false → spent after ≡ spent ledger
      less_other r = ground (arith, less, r)

      paid : usd_to_cents back * 10000 ≡ back
      paid = usd_to_cents-IsWhole back back_whole

      ended-room : HasRoom run_id cap (spent after) after.counters.ticket
      ended-room = rw credited (
          credit-HasRoom run_id cap month_start now cap_whole row.context (usd_to_cents back)
            (spent after) ledger.counters (λ r. omega (arith, less_same r, paid, i.within))
            (λ r n h. omega (arith, less_same r, paid, i.room n h))
            (λ r n h. omega (arith, less_other r, i.room n h)))

      ended-IsWithinCap : IsWithinCap run_id cap after
      ended-IsWithinCap = record {
        configured = λ caps h. i.configured caps (ap (λ c. lookup run_id c) (sym caps_same) ∙ h);
        within = elim (Bool-cases (row.context.run_id == run_id)) [
          | inl r ↦ omega (arith, less_same r, i.within)
          | inr r ↦ omega (arith, less_other r, i.within)
        ];
        spent_whole = elim (Bool-cases (row.context.run_id == run_id)) [
          | inl r ↦ omega (arith, less_same r, i.spent_whole, back_whole)
          | inr r ↦ omega (arith, less_other r, i.spent_whole)
        ];
        rows_whole = rows_same;
        room = ended-room;
      }

    pub release-IsWithinCap :
        (reason : String)
        → IsWithinCap run_id cap (release_with month_start (ok row) id reason now ledger).1
    release-IsWithinCap reason =
        let row' = ended month_start released reason row.reserved_amount_usd row in
        ended-IsWithinCap row.reserved_amount_usd _ reserved-IsWhole (omega arith) refl
          (rows-insert id row' ledger.reservations reserved-IsWhole i.rows_whole)
          (ground (arith, live, active-replace run_id id row' row ledger.reservations found)) refl

    pub settle_row-IsWithinCap :
        (actual : ℕ)
        → IsWhole actual
        → IsWithinCap run_id cap (settle_row month_start id row actual now ledger).1
    unfolding settle_row
    settle_row-IsWithinCap actual w = elim (Bool-cases (ltb row.reserved_amount_usd actual)) [
      | inl e ↦ rw e i
      | inr e ↦ rw e (elim (Bool-cases (has_key id ledger.charges)) [
        | inl k ↦ rw k i
        | inr k ↦ rw k (charged-IsWithinCap actual w e k)
      ])
    ]
      where
        charged-IsWithinCap :
            (actual : ℕ)
            → IsWhole actual
            → ltb row.reserved_amount_usd actual ≡ false
            → has_key id ledger.charges ≡ false
            → IsWithinCap run_id cap (record ledger {
              charges = insert id (charge_row month_start row actual now) ledger.charges;
              reservations =
                  insert id
                    (ended month_start settled "settled" (row.reserved_amount_usd - actual) row)
                    ledger.reservations;
              counters =
                  credit_counters month_start row.context now
                    (usd_to_cents (row.reserved_amount_usd - actual))
                    ledger.counters;
            })
        charged-IsWithinCap actual w e k =
            let back = row.reserved_amount_usd - actual in
            let row' = ended month_start settled "settled" back row in
            let reserved = reserved-IsWhole in
            ended-IsWithinCap back _ (ground (arith, e, w, reserved)) (omega arith) refl
              (rows-insert id row' ledger.reservations reserved i.rows_whole)
              (ground (
                arith,
                live,
                e,
                active-replace run_id id row' row ledger.reservations found,
                charged-insert run_id id (charge_row month_start row actual now) ledger.charges k,
              ))
              refl
