-- ===== src/ControlPlane/Postgres/Success.antt =====
-- When an activation of the Postgres control plane store succeeds.
use multi_agent_langgraph.Base.{
  ◌≡◌, refl, inl, inr, arith, String, Bool, true, false, ◌&&◌, Option, some, none, List, [], ◌∷◌,
  ok, all, string_key, Option-cases,
}
use multi_agent_langgraph.Base.Dict.{Dict, insert, lookup, has_key, lookup-insert}
use multi_agent_langgraph.ControlPlane.Tables.{
  Tables, StateRow, insert_row, insert_audit_event, nullable_snapshot_id,
}
use multi_agent_langgraph.ControlPlane.Postgres.{
  Activation, Fresh, activate, activate_transaction, activation_row, activation_event, expected_of,
  ids_of, is_none, advance, same, cas_active_snapshot, insert_snapshot, insert_shadow_report,
  load_active_snapshot_id, load_snapshot, require_version, require_agent_versions,
  snapshot_from_row,
}

insert_row-new {ℓ} :
    {A : Type ℓ} (table key : String) (row : A) (rows : Dict String A)
    → has_key key rows ≡ false
    → insert_row table key row rows ≡ ok (insert key row rows)
unfolding insert_row
insert_row-new table key row rows h = rw h

same_refl : (a : Option String) → same a a ≡ true
same_refl none = refl
same_refl (some a) = ground (arith, string_key.beq_iff a a)

abbrev pub known_agent : Tables → String → Bool
known_agent tables id = has_key id tables.agent_versions

agents_known :
    (ids : List String) (tables : Tables)
    → all (known_agent tables) ids ≡ true
    → require_agent_versions ids tables ≡ ok tt
unfolding require_agent_versions require_version all
agents_known [] tables h = refl
agents_known (id ∷ ids) tables h = ground (arith, agents_known ids tables)

-- The identifiers that `uuid4` gave are not taken.
pub record IsFresh (fresh : Fresh) (tables : Tables) : Type 0 where
  pub new_report : has_key fresh.report_id tables.shadow_reports ≡ false
  pub new_snapshot : has_key fresh.snapshot_id tables.snapshots ≡ false
  pub new_event : has_key fresh.event_id tables.audit_events ≡ false

module _ (call : Activation) (fresh : Fresh) (tables : Tables) where
  unfoldable activated_tables : StateRow → Tables
  activated_tables row = record tables {
    shadow_reports =
        insert fresh.report_id
          (record {
            active_version_id =
                nullable_snapshot_id (some call.comparison_report.active_version_id);
            report_payload = call.comparison_report;
          })
          tables.shadow_reports;
    snapshots =
        insert fresh.snapshot_id (activation_row call fresh row.active_snapshot_id)
          tables.snapshots;
    control_plane_state =
        insert "global" (advance fresh.snapshot_id row) tables.control_plane_state;
    audit_events = insert fresh.event_id (activation_event call fresh) tables.audit_events;
  }

  transaction_succeeds :
      (row : StateRow)
      → has_key call.graph_version_id tables.graph_versions ≡ true
      → require_agent_versions (ids_of call.agent_version_ids) tables ≡ ok tt
      → lookup "global" tables.control_plane_state ≡ some row
      → row.active_snapshot_id ≡ expected_of call
      → IsFresh fresh tables
      → activate_transaction call fresh tables ≡ ok (activated_tables row)
  unfolding activate_transaction activated_tables require_version insert_shadow_report
      insert_snapshot cas_active_snapshot load_active_snapshot_id insert_audit_event insert_row
      activation_event
  transaction_succeeds row g a st e f =
      rw (g, a, f.new_report, st, f.new_snapshot, st, e, same_refl (expected_of call), f.new_event)
        refl

  activated-loads :
      (row : StateRow)
      → row.active_snapshot_id ≡ expected_of call
      → (load_snapshot fresh.snapshot_id (activated_tables row)
          ≡ ok (snapshot_from_row fresh.snapshot_id (activation_row call fresh (expected_of call))))
        × (load_active_snapshot_id (activated_tables row) ≡ ok (some fresh.snapshot_id))
  unfolding activated_tables load_snapshot load_active_snapshot_id
  activated-loads row e = (
    ground (
      arith,
      e,
      lookup-insert fresh.snapshot_id fresh.snapshot_id
          (activation_row call fresh row.active_snapshot_id) tables.snapshots,
      string_key.beq_iff fresh.snapshot_id fresh.snapshot_id,
    ),
    ground (
      arith,
      lookup-insert "global" "global" (advance fresh.snapshot_id row) tables.control_plane_state,
    ),
  )

  abbrev pub Activated : Type 0
  Activated =
      (after : Tables) × (activate call fresh tables
        ≡ ok (
          snapshot_from_row fresh.snapshot_id (activation_row call fresh (expected_of call)),
          after,
        ))
      × (load_active_snapshot_id after ≡ ok (some fresh.snapshot_id))

  activate-row :
      (row : StateRow)
      → (call.comparison_report.blocked && is_none call.override_rationale) ≡ false
      → activate_transaction call fresh tables ≡ ok (activated_tables row)
      → row.active_snapshot_id ≡ expected_of call
      → Activated
  unfolding activate
  activate-row row b t e =
      let (found, active) = activated-loads row e in
      (activated_tables row, ground (arith, b, t, found), active)

  -- An activation whose report is not blocked, or is overridden, whose versions are known, which
  -- expects the active snapshot and whose identifiers are new succeeds: it returns the new snapshot,
  -- as the call describes it, and that snapshot is then the active one.
  pub activate_succeeds :
      (call.comparison_report.blocked && is_none call.override_rationale) ≡ false
      → has_key call.graph_version_id tables.graph_versions ≡ true
      → all (known_agent tables) (ids_of call.agent_version_ids) ≡ true
      → load_active_snapshot_id tables ≡ ok (expected_of call)
      → IsFresh fresh tables
      → Activated
  unfolding load_active_snapshot_id
  activate_succeeds b g a l f = elim (Option-cases (lookup "global" tables.control_plane_state)) [
    | inl e ↦ ground (arith, e, l)
    | inr (row, e) ↦
        let is : row.active_snapshot_id ≡ expected_of call = ground (arith, e, l) in
        activate-row row b
          (transaction_succeeds row g (agents_known (ids_of call.agent_version_ids) tables a) e is
            f)
          is
  ]
