-- ===== src/Governance/SharedBudget/Invariant.antt =====
-- A reservation keeps every run within its ticket cap under the shared budget ledger.
use multi_agent_langgraph.Base.{
  ℕ, ◌+◌, ◌-◌, ◌*◌, ◌≤◌, ◌≡◌, refl, sym, ap, ◌∙◌, arith, String, true, false, Option, none, some,
  string_key, ◌==◌, if◌then◌else◌, inl, inr, Bool-cases, Result, ok, raise,
}
use multi_agent_langgraph.Base.Dict.{lookup, insert, has_key, lookup-insert}
use multi_agent_langgraph.Governance.Budget.{BudgetContext, BudgetCaps}
use multi_agent_langgraph.Governance.SharedBudget.{
  Ledger, Counters, usd_to_cents, load_caps, ensure_counters,
}
use multi_agent_langgraph.Governance.SharedBudget.Operations.{
  reserve, balance, credit_counters, script_answer, left, answered, deny, insert_reservation,
  Answer, missing, refused, granted, reservation_row, weigh, reserve_with, balance_with,
}
use multi_agent_langgraph.Governance.SharedBudget.Caps.{
  IsWhole, committed, IsWithinCap, HasRoom, HasRoom-insert, with_counters,
  ensure_counters-IsWithinCap, credit-HasRoom, usd_to_cents-IsWhole,
}
use multi_agent_langgraph.Governance.SharedBudget.Sums.{active-insert, rows-insert}

weigh-granted :
    (amount : ℕ) (x y z : Option ℕ) (ticket daily monthly : ℕ)
    → weigh amount x y z ≡ granted ticket daily monthly
    → (t : ℕ) × (x ≡ some t) × (amount ≤ t) × (ticket ≡ t - amount)
weigh-granted amount none y z ticket daily monthly h = cc
weigh-granted amount (some t) none z ticket daily monthly h = cc
weigh-granted amount (some t) (some d) none ticket daily monthly h = cc
weigh-granted amount (some t) (some d) (some m) ticket daily monthly h =
    (t, refl, ground (arith, h), ground (arith, h))

module _ (run_id : String) (cap : ℕ) (month_start : ℕ → ℕ) (now : ℕ) (cap_whole : IsWhole cap) where
  abbrev spent : Ledger → ℕ
  spent = committed run_id cap

  -- A reservation that the script has granted: `t` was the counter, and `amount` goes off it.
  module _ (context : BudgetContext) (amount ticket daily monthly t : ℕ) (ledger : Ledger)
      (w : IsWhole amount) (i : IsWithinCap run_id cap ledger)
      (l : lookup context.run_id ledger.counters.ticket ≡ some t) (le : usd_to_cents amount ≤ t)
      (eq : ticket ≡ t - usd_to_cents amount) where
    abbrev debited : Counters
    debited = left month_start context now ticket daily monthly ledger.counters

    t-room : (context.run_id == run_id) ≡ true → t * 10000 + spent ledger ≤ cap
    t-room r =
        let same = (string_key.beq_iff context.run_id run_id).0 r in
        i.room t (ap (λ k. lookup k ledger.counters.ticket) (sym same) ∙ l)

    debited-room : HasRoom run_id cap (spent ledger) debited.ticket
    debited-room =
        HasRoom-insert run_id cap (spent ledger) context.run_id ticket ledger.counters.ticket
          (λ r. omega (arith, t-room r, le, eq)) (λ r. i.room)

    debited-lookup :
        (n : ℕ)
        → (context.run_id == run_id) ≡ true
        → lookup run_id debited.ticket ≡ some n
        → n ≡ ticket
    debited-lookup n r h =
        ground (arith, r, h, lookup-insert context.run_id run_id ticket ledger.counters.ticket)

    taken : IsWithinCap run_id cap (record ledger {
      counters = credit_counters month_start context now (usd_to_cents amount) debited;
    })
    taken = with_counters run_id cap ledger _ i (
        credit-HasRoom run_id cap month_start now cap_whole context (usd_to_cents amount)
          (spent ledger) debited (λ r. omega (arith, t-room r, le))
          (λ r n h. omega (arith, t-room r, le, eq, debited-lookup n r h)) (λ r. debited-room))

    module _ (id : String) (new : has_key id ledger.reservations ≡ false) where
      abbrev stored : Ledger
      stored = record ledger {
        reservations =
            insert id (reservation_row month_start context amount now) ledger.reservations;
        counters = debited;
      }

      stored-spent : spent stored ≡ spent ledger + (if context.run_id == run_id then amount else 0)
      stored-spent = ground (
        arith,
        active-insert run_id id (reservation_row month_start context amount now) ledger.reservations
            new,
      )

      stored_same : (context.run_id == run_id) ≡ true → spent stored ≡ spent ledger + amount
      stored_same r = ground (arith, stored-spent, r)

      stored_other : (context.run_id == run_id) ≡ false → spent stored ≡ spent ledger
      stored_other r = ground (arith, stored-spent, r)

      paid : usd_to_cents amount * 10000 ≡ amount
      paid = usd_to_cents-IsWhole amount w

      stored-IsWithinCap : IsWithinCap run_id cap stored
      stored-IsWithinCap = elim (Bool-cases (context.run_id == run_id)) [
        | inl r ↦ record {
          configured = i.configured;
          within = omega (arith, stored_same r, t-room r, le, paid);
          spent_whole = omega (arith, stored_same r, i.spent_whole, w);
          rows_whole = rows-insert id _ ledger.reservations w i.rows_whole;
          room = λ n h. omega (arith, stored_same r, debited-lookup n r h, t-room r, le, eq, paid);
        }
        | inr r ↦ record {
          configured = i.configured;
          within = omega (arith, stored_other r, i.within);
          spent_whole = omega (arith, stored_other r, i.spent_whole);
          rows_whole = rows-insert id _ ledger.reservations w i.rows_whole;
          room = λ n h. omega (arith, stored_other r, debited-room n h);
        }
      ]

    insert_reservation-IsWithinCap :
        (id : String)
        → IsWithinCap run_id cap
            (insert_reservation month_start context id amount now ticket daily monthly
              (record ledger { counters = debited })).1
    unfolding insert_reservation
    insert_reservation-IsWithinCap id = elim (Bool-cases (has_key id ledger.reservations)) [
      | inl e ↦ rw e taken
      | inr e ↦ rw e (stored-IsWithinCap id e)
    ]

  denied-IsWithinCap :
      (context : BudgetContext) (caps : BudgetCaps) (amount : ℕ) (ledger : Ledger)
      → IsWithinCap run_id cap ledger
      → IsWithinCap run_id cap (deny month_start context caps amount ledger)
  denied-IsWithinCap context caps amount ledger i = record {
    configured = i.configured;
    within = i.within;
    spent_whole = i.spent_whole;
    rows_whole = i.rows_whole;
    room = i.room;
  }

  answered-IsWithinCap :
      (context : BudgetContext) (id : String) (amount : ℕ) (caps : BudgetCaps) (ledger : Ledger)
      (answer : Answer)
      → script_answer month_start context now (usd_to_cents amount) ledger.counters ≡ answer
      → IsWhole amount
      → IsWithinCap run_id cap ledger
      → IsWithinCap run_id cap (answered month_start context id amount now caps answer ledger).1
  unfolding script_answer
  answered-IsWithinCap context id amount caps ledger missing h w i =
      denied-IsWithinCap context caps amount ledger i
  answered-IsWithinCap context id amount caps ledger (refused t d m) h w i =
      denied-IsWithinCap context caps amount ledger i
  answered-IsWithinCap context id amount caps ledger (granted ticket daily monthly) h w i =
      let (t, l, le, eq) = weigh-granted (usd_to_cents amount) _ _ _ ticket daily monthly h in
      insert_reservation-IsWithinCap context amount ticket daily monthly t ledger w i l le eq id

  pub reserve-IsWithinCap :
      (context : BudgetContext) (id : String) (amount : ℕ) (ledger : Ledger)
      → IsWhole amount
      → IsWithinCap run_id cap ledger
      → IsWithinCap run_id cap (reserve month_start context id amount now ledger).1
  unfolding reserve
  reserve-IsWithinCap context id amount ledger w i = with_caps (load_caps context ledger)
    where
      with_caps :
          (found : Result BudgetCaps)
          → IsWithinCap run_id cap (reserve_with month_start found context id amount now ledger).1
      with_caps (raise error) = i
      with_caps (ok caps) =
          answered-IsWithinCap context id amount caps
            (ensure_counters month_start context now ledger) _ refl w
            (ensure_counters-IsWithinCap run_id cap month_start now cap_whole context ledger i)

  pub balance-IsWithinCap :
      (context : BudgetContext) (ledger : Ledger)
      → IsWithinCap run_id cap ledger
      → IsWithinCap run_id cap (balance month_start context now ledger).1
  unfolding balance
  balance-IsWithinCap context ledger i = with_caps (load_caps context ledger)
    where
      with_caps :
          (found : Result BudgetCaps)
          → IsWithinCap run_id cap (balance_with month_start found context now ledger).1
      with_caps (raise error) = i
      with_caps (ok caps) =
          ensure_counters-IsWithinCap run_id cap month_start now cap_whole context ledger i
