-- ===== src/ControlPlane/Postgres/Effects.antt =====
-- What the operations of the Postgres control plane store do to its tables.
use multi_agent_langgraph.Base.{
  ◌≡◌, refl, ap, arith, String, true, false, Option, none, some, ok, string_key, >>=-eq-ok,
  >>-eq-ok, Result-cases, inl, inr, Bool-cases, ◌&&◌,
}
use multi_agent_langgraph.Base.Dict.{Dict, insert, has_key, lookup-insert}
use multi_agent_langgraph.ControlPlane.Shadow.{ShadowComparisonReport}
use multi_agent_langgraph.ControlPlane.Tables.{
  Tables, SnapshotRow, StateRow, ConfigSnapshot, AuditEvent, insert_row, insert_audit_event,
}
use multi_agent_langgraph.ControlPlane.Postgres.{
  Activation, Fresh, insert_snapshot, insert_shadow_report, cas_active_snapshot, same,
  load_active_snapshot_id, swap_row, advance, activate_transaction, activate, activation_row,
  activation_event, expected_of, is_none, load_snapshot,
}

pub insert_row-eq-ok {ℓ} :
    {A : Type ℓ} (table key : String) (row : A) (rows new : Dict String A)
    → insert_row table key row rows ≡ ok new
    → (has_key key rows ≡ false) × (new ≡ insert key row rows)
unfolding insert_row
insert_row-eq-ok table key row rows new h = ground arith

pub same_iff : (a b : Option String) → same a b ≡ true → a ≡ b
same_iff none none h = refl
same_iff none (some b) h = cc
same_iff (some a) none h = cc
same_iff (some a) (some b) h = ground (arith, string_key.beq_iff a b)

module _ (before after : Tables) where
  pub insert_audit_event-kept :
      (event : AuditEvent)
      → insert_audit_event event before ≡ ok after
      → (has_key event.event_id before.audit_events ≡ false)
        × (after ≡ record before { audit_events = insert event.event_id event before.audit_events })
  unfolding insert_audit_event
  insert_audit_event-kept event h =
      let (rows, i, e) = >>=-eq-ok (insert_row _ _ _ _) _ h in
      let (new, is) = insert_row-eq-ok _ _ event before.audit_events rows i in
      (new, ground (arith, is))

  swapped : Option String → String → StateRow → Tables
  swapped expected id row = record before {
    control_plane_state = insert "global" (advance id row) before.control_plane_state;
  }

  swap_row-eq-ok :
      (expected : Option String) (id : String) (found : Option StateRow)
      → swap_row expected id found before ≡ ok after
      → (row : StateRow) × (found ≡ some row)
        × (row.active_snapshot_id ≡ expected)
        × (after ≡ swapped expected id row)
  unfolding swapped
  swap_row-eq-ok expected id none h = cc
  swap_row-eq-ok expected id (some row) h =
      (row, refl, same_iff row.active_snapshot_id expected (ground arith), ground arith)

  pub cas-eq-ok :
      (expected : Option String) (id : String)
      → cas_active_snapshot expected id before ≡ ok after
      → (load_active_snapshot_id before ≡ ok expected)
        × (load_active_snapshot_id after ≡ ok (some id))
        × (after.snapshots ≡ before.snapshots)
        × (after.run_snapshot_bindings ≡ before.run_snapshot_bindings)
  unfolding cas_active_snapshot swapped load_active_snapshot_id
  cas-eq-ok expected id h =
      let (row, found, is, e) = swap_row-eq-ok expected id _ h in
      (
        ground (arith, found, is),
        ground
            (arith, e, lookup-insert "global" "global" (advance id row) before.control_plane_state),
        ap (λ t. t.snapshots) e,
        ap (λ t. t.run_snapshot_bindings) e,
      )

  insert_shadow_report-kept :
      (id : String) (report : ShadowComparisonReport)
      → insert_shadow_report id report before ≡ ok after
      → (after.snapshots ≡ before.snapshots)
        × (after.control_plane_state ≡ before.control_plane_state)
        × (after.run_snapshot_bindings ≡ before.run_snapshot_bindings)
  unfolding insert_shadow_report
  insert_shadow_report-kept id report h =
      let (rows, i, e) = >>=-eq-ok (insert_row _ _ _ _) _ h in
      (ground (arith, e), ground (arith, e), ground (arith, e))

  insert_snapshot-kept :
      (id : String) (row : SnapshotRow)
      → insert_snapshot id row before ≡ ok after
      → (has_key id before.snapshots ≡ false)
        × (after.snapshots ≡ insert id row before.snapshots)
        × (after.control_plane_state ≡ before.control_plane_state)
        × (after.run_snapshot_bindings ≡ before.run_snapshot_bindings)
  unfolding insert_snapshot
  insert_snapshot-kept id row h =
      let (rows, i, e) = >>=-eq-ok (insert_row _ _ _ _) _ h in
      let (new, is) = insert_row-eq-ok _ _ row before.snapshots rows i in
      (new, ground (arith, e, is), ground (arith, e), ground (arith, e))

-- A table of states that is the same has the same active snapshot.
pub load_active-ap :
    (t u : Tables)
    → u.control_plane_state ≡ t.control_plane_state
    → load_active_snapshot_id u ≡ load_active_snapshot_id t
unfolding load_active_snapshot_id
load_active-ap t u e = rw e

module _ (call : Activation) (fresh : Fresh) (before after : Tables) where
  abbrev pub ActivationEffect : Type 0
  ActivationEffect =
      (load_active_snapshot_id before ≡ ok (expected_of call))
      × (load_active_snapshot_id after ≡ ok (some fresh.snapshot_id))
      × (has_key fresh.snapshot_id before.snapshots ≡ false)
      × (after.snapshots
          ≡ insert fresh.snapshot_id (activation_row call fresh (expected_of call))
              before.snapshots)
      × (after.run_snapshot_bindings ≡ before.run_snapshot_bindings)

  -- The four writes of an activation, one after the other.
  activation_steps :
      (reported stored swap : Tables) (previous : Option String)
      → insert_shadow_report fresh.report_id call.comparison_report before ≡ ok reported
      → load_active_snapshot_id reported ≡ ok previous
      → insert_snapshot fresh.snapshot_id (activation_row call fresh previous) reported ≡ ok stored
      → cas_active_snapshot (expected_of call) fresh.snapshot_id stored ≡ ok swap
      → insert_audit_event (activation_event call fresh) swap ≡ ok after
      → ActivationEffect
  activation_steps reported stored swap previous r p s c e =
      let kr = insert_shadow_report-kept before reported _ _ r in
      let ks = insert_snapshot-kept reported stored _ _ s in
      let kc = cas-eq-ok stored swap _ _ c in
      let ke = insert_audit_event-kept swap after _ e in
      let ar = load_active-ap before reported (kr.1) in
      let st = load_active-ap reported stored (ks.2) in
      let aa = load_active-ap swap after (ground (arith, ke)) in
      (
        ground (arith, ar, st, kc),
        ground (arith, aa, kc),
        ground (arith, kr, ks),
        ground (arith, ar, st, kc, kr, ks, ke, p),
        ground (arith, kr, ks, kc, ke),
      )

  pub activate_transaction-eq-ok :
      activate_transaction call fresh before ≡ ok after → ActivationEffect
  unfolding activate_transaction
  activate_transaction-eq-ok h =
      let (_, h1) = >>-eq-ok _ _ h in
      let (_, h2) = >>-eq-ok _ _ h1 in
      let (reported, r, h3) = >>=-eq-ok (insert_shadow_report _ _ _) _ h2 in
      let (previous, p, h4) = >>=-eq-ok (load_active_snapshot_id _) _ h3 in
      let (stored, s, h5) = >>=-eq-ok (insert_snapshot _ _ _) _ h4 in
      let (swap, c, h6) = >>=-eq-ok (cas_active_snapshot _ _ _) _ h5 in
      activation_steps reported stored swap previous r p s c h6

-- An activation that succeeds has committed its transaction.
pub activate-eq-ok :
    (call : Activation) (fresh : Fresh) (before after : Tables) (s : ConfigSnapshot)
    → activate call fresh before ≡ ok (s, after)
    → activate_transaction call fresh before ≡ ok after
unfolding activate
activate-eq-ok call fresh before after s h =
    elim (Bool-cases (call.comparison_report.blocked && is_none call.override_rationale)) [
      | inl e ↦ ground (arith, e)
      | inr e ↦ elim (Result-cases (activate_transaction call fresh before)) [
        | inr (error, t) ↦ ground (arith, e, t)
        | inl (done, t) ↦ elim (Result-cases (load_snapshot fresh.snapshot_id done)) [
          | inr (error, l) ↦ ground (arith, e, t, l)
          | inl (found, l) ↦ ground (arith, e, t, l)
        ]
      ]
    ]
