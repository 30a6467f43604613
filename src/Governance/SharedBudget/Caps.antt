-- ===== src/Governance/SharedBudget/Caps.antt =====
-- The ticket cap under the shared budget ledger, where amounts are whole cents.
use multi_agent_langgraph.Base.{
  ℕ, ◌+◌, ◌-◌, ◌*◌, ◌%◌, ◌≤◌, ◌≡◌, refl, sym, ap, ◌∙◌, arith, leb, String, true, false, some,
  string_key, ◌==◌, inl, inr, Option-cases, Bool-cases, Result, ok, raise,
}
use multi_agent_langgraph.Base.Dict.{Dict, lookup, insert, lookup-insert}
use multi_agent_langgraph.Governance.Budget.{BudgetContext, BudgetCaps}
use multi_agent_langgraph.Governance.SharedBudget.{
  Ledger, Counters, ReservationRow, usd_to_cents, load_caps, reconcile, reconciled,
  remaining_from_postgres, ensure_counters, set_counters, active_in_run, charged_in_run,
  has_counters, reconcile_with,
}
use multi_agent_langgraph.Governance.SharedBudget.Operations.{credit_counters}

abbrev pub IsWhole : ℕ → Type 0
IsWhole amount = amount % 10000 ≡ 0

pub usd_to_cents-IsWhole : (a : ℕ) → IsWhole a → usd_to_cents a * 10000 ≡ a
unfolding usd_to_cents
usd_to_cents-IsWhole a h = omega (arith, h)

cents_within :
    (limit spent : ℕ)
    → IsWhole limit
    → IsWhole spent
    → spent ≤ limit
    → usd_to_cents (limit - spent) * 10000 + spent ≤ limit
unfolding usd_to_cents
cents_within limit spent h k l = omega (arith, h, k, l)

found_caps :
    (context : BudgetContext) (ledger : Ledger) (caps : BudgetCaps)
    → load_caps context ledger ≡ ok caps
    → lookup context.run_id ledger.cap_snapshots ≡ some caps
unfolding load_caps
found_caps context ledger caps h =
    elim (Option-cases (lookup context.run_id ledger.cap_snapshots)) [
      | inl e ↦ ground (arith, e, h)
      | inr (found, e) ↦ ground (arith, e, h)
    ]

module _ (run_id : String) (cap : ℕ) where
  -- What the run has reserved and spent.
  abbrev pub committed : Ledger → ℕ
  committed ledger = active_in_run run_id ledger.reservations + charged_in_run run_id ledger.charges

  -- The counter of the run, if there is one, promises no more than the cap leaves.
  abbrev pub HasRoom : ℕ → Dict String ℕ → Type 0
  HasRoom spent counters =
      (cents : ℕ) → lookup run_id counters ≡ some cents → cents * 10000 + spent ≤ cap

  pub record IsWithinCap (ledger : Ledger) : Type 0 where
    pub configured :
        (caps : BudgetCaps)
        → lookup run_id ledger.cap_snapshots ≡ some caps
        → caps.ticket_cap_usd ≡ cap
    pub within : committed ledger ≤ cap
    pub spent_whole : IsWhole (committed ledger)
    pub rows_whole :
        (id : String) (row : ReservationRow)
        → lookup id ledger.reservations ≡ some row
        → IsWhole row.reserved_amount_usd
    pub room : HasRoom (committed ledger) ledger.counters.ticket

  pub HasRoom-insert :
      (spent : ℕ) (other : String) (cents : ℕ) (counters : Dict String ℕ)
      → ((other == run_id) ≡ true → cents * 10000 + spent ≤ cap)
      → ((other == run_id) ≡ false → HasRoom spent counters)
      → HasRoom spent (insert other cents counters)
  HasRoom-insert spent other cents counters here there c h = elim (Bool-cases (other == run_id)) [
    | inl e ↦ ground (arith, e, h, here e, lookup-insert other run_id cents counters)
    | inr e ↦ there e c (sym (missed e) ∙ h)
  ]
    where
      missed :
          (other == run_id) ≡ false
          → lookup run_id (insert other cents counters) ≡ lookup run_id counters
      missed e = ground (arith, e, lookup-insert other run_id cents counters)

  -- Only the counters change.
  pub with_counters :
      (ledger : Ledger) (counters : Counters)
      → IsWithinCap ledger
      → HasRoom (committed ledger) counters.ticket
      → IsWithinCap (record ledger { counters = counters })
  with_counters ledger counters i r = record {
    configured = i.configured;
    within = i.within;
    spent_whole = i.spent_whole;
    rows_whole = i.rows_whole;
    room = r;
  }

  module _ (month_start : ℕ → ℕ) (now : ℕ) (cap_whole : IsWhole cap) where
    reconciled-IsWithinCap :
        (context : BudgetContext) (ledger : Ledger) (caps : BudgetCaps)
        → load_caps context ledger ≡ ok caps
        → IsWithinCap ledger
        → IsWithinCap (reconciled month_start context caps now ledger)
    unfolding set_counters remaining_from_postgres load_caps
    reconciled-IsWithinCap context ledger caps h i = with_counters ledger _ i (
        HasRoom-insert (committed ledger) context.run_id _ ledger.counters.ticket
          (λ e.
            let same = (string_key.beq_iff context.run_id run_id).0 e in
            let found = found_caps context ledger caps h in
            let c =
              i.configured caps (ap (λ r. lookup r ledger.cap_snapshots) (sym same) ∙ found) in
            rw (same, c) (cents_within cap (committed ledger) cap_whole i.spent_whole i.within))
          (λ e. i.room))

    reconcile_with-IsWithinCap :
        (context : BudgetContext) (ledger : Ledger) (found : Result BudgetCaps)
        → load_caps context ledger ≡ found
        → IsWithinCap ledger
        → IsWithinCap (reconcile_with month_start found context now ledger).1
    reconcile_with-IsWithinCap context ledger (raise error) h i = i
    reconcile_with-IsWithinCap context ledger (ok caps) h i =
        reconciled-IsWithinCap context ledger caps h i

    pub ensure_counters-IsWithinCap :
        (context : BudgetContext) (ledger : Ledger)
        → IsWithinCap ledger
        → IsWithinCap (ensure_counters month_start context now ledger)
    unfolding ensure_counters reconcile
    ensure_counters-IsWithinCap context ledger i =
        elim (Bool-cases (has_counters month_start context now ledger.counters)) [
          | inl e ↦ rw e i
          | inr e ↦ rw e (reconcile_with-IsWithinCap context ledger _ refl i)
        ]

    -- A credit of what leaves room.
    pub credit-HasRoom :
        (context : BudgetContext) (cents spent : ℕ) (counters : Counters)
        → ((context.run_id == run_id) ≡ true → cents * 10000 + spent ≤ cap)
        → ((context.run_id == run_id) ≡ true
            → (n : ℕ) → lookup run_id counters.ticket ≡ some n
            → (n + cents) * 10000 + spent ≤ cap)
        → ((context.run_id == run_id) ≡ false → HasRoom spent counters.ticket)
        → HasRoom spent (credit_counters month_start context now cents counters).ticket
    unfolding credit_counters
    credit-HasRoom context cents spent counters start more other = elim (Bool-cases (leb cents 0)) [
      | inl e ↦ rw e (elim (Bool-cases (context.run_id == run_id)) [
        | inl r ↦ λ n h. omega (arith, more r n h)
        | inr r ↦ other r
      ])
      | inr e ↦ rw e (
          HasRoom-insert spent context.run_id _ counters.ticket
            (λ r. elim (Option-cases (lookup run_id counters.ticket)) [
              | inl l ↦ ground (arith, l, start r, (string_key.beq_iff context.run_id run_id).0 r)
              | inr (n, l) ↦
                  ground (arith, l, more r n l, (string_key.beq_iff context.run_id run_id).0 r)
            ])
            (λ r. other r))
    ]
