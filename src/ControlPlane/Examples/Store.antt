-- ===== src/ControlPlane/Examples/Store.antt =====
-- The control plane store and the handler registry on a small history.
use multi_agent_langgraph.Base.{
  ℕ, ◌≡◌, ◌≢◌, refl, String, true, false, none, some, List, [], ◌∷◌, ok, string_key, contains,
  arith, all, any,
}
use multi_agent_langgraph.Base.Int.{pos}
use multi_agent_langgraph.Base.Dict.{lookup, insert, erase, has_key}
use multi_agent_langgraph.Github.Json.{end}
use multi_agent_langgraph.ControlPlane.Shadow.{ShadowComparisonReport}
use multi_agent_langgraph.ControlPlane.Tables.{
  Tables, VersionRow, SnapshotRow, ConfigSnapshot, insert_row, insert_audit_event,
  nullable_snapshot_id, normalize_expected_snapshot_id,
}
use multi_agent_langgraph.ControlPlane.Postgres.{
  Activation, Fresh, activate, activate_transaction, require_version, require_agent_versions,
  insert_shadow_report, load_active_snapshot_id, insert_snapshot, cas_active_snapshot,
  load_snapshot, snapshot_from_row, activation_row, activation_event, rollback, ids_of, expected_of,
}
use multi_agent_langgraph.ControlPlane.Postgres.Runs.{
  snapshot_for_run, active_snapshot, is_non_terminal, in_use, referenced_snapshot_ids,
  cleanup_retired_snapshots, delete_unused, order_by_created_at, insert_by_created, delete_snapshot,
  delete_terminal_bindings, pin_run_snapshot, without_snapshot, is_referenced,
}
use multi_agent_langgraph.ControlPlane.Postgres.Spec.{IsPointed, Change, cleaning}
use multi_agent_langgraph.ControlPlane.Postgres.Calls.{
  Call, pin_call, cleanup_call, perform, view, after_calls,
}
use multi_agent_langgraph.ControlPlane.Postgres.Success.{
  IsFresh, known_agent, Activated, activate_succeeds,
}
use multi_agent_langgraph.ControlPlane.Postgres.Calls.Refinement.{perform-Change}
use multi_agent_langgraph.ControlPlane.Postgres.Calls.Traces.{
  calls_keep_active, calls_keep_pinned, second_activation_conflicts, rollback_needs_expectation,
  leaves,
}

abbrev version : VersionRow
version = record {
  version_number = 1;
  created_by = "admin";
  rationale = "first";
  payload = end;
  created_at = 0;
}

abbrev pub row_at : ℕ → SnapshotRow
row_at time = record {
  graph_version_id = "g1";
  agent_version_ids = [];
  shadow_report_id = none;
  supersedes_snapshot_id = none;
  created_by = "admin";
  evidence_summary = "shadow-evidence-passed";
  created_at = time;
}

abbrev pub row3 : SnapshotRow
row3 = record {
  graph_version_id = "g1";
  agent_version_ids = [];
  shadow_report_id = none;
  supersedes_snapshot_id = some "s2";
  created_by = "admin";
  evidence_summary = "shadow-evidence-passed";
  created_at = 3;
}

-- Three snapshots: one active, one that a paused run is bound to, and one that nothing uses.
abbrev pub tables : Tables
tables = record {
  runs = "run" ∷ "other" ∷ [];
  graph_versions = ("g1", version) ∷ [];
  agent_versions = [];
  shadow_reports = [];
  snapshots = ("s1", row_at 1) ∷ ("s2", row_at 2) ∷ ("s3", row3) ∷ [];
  control_plane_state = ("global", record { active_snapshot_id = some "s3"; revision = 3 }) ∷ [];
  run_snapshot_bindings = ("run", record { snapshot_id = "s2"; status = "paused" }) ∷ [];
  audit_events = [];
}

abbrev cleaned_tables : Tables
cleaned_tables = record tables { snapshots = ("s2", row_at 2) ∷ ("s3", row3) ∷ [] }

abbrev deleted : List String
deleted = "s1" ∷ []

cleanup_run : cleanup_retired_snapshots tables ≡ ok (deleted, cleaned_tables)
unfolding cleanup_retired_snapshots load_active_snapshot_id lookup order_by_created_at
    insert_by_created delete_unused in_use referenced_snapshot_ids contains delete_snapshot
    without_snapshot is_referenced any delete_terminal_bindings erase
cleanup_run = refl

tables_active : load_active_snapshot_id tables ≡ ok (some "s3")
unfolding load_active_snapshot_id lookup
tables_active = refl

perform_run : perform cleanup_call tables ≡ ok cleaned_tables
unfolding perform cleanup_retired_snapshots load_active_snapshot_id lookup order_by_created_at
    insert_by_created delete_unused in_use referenced_snapshot_ids contains delete_snapshot
    without_snapshot is_referenced any delete_terminal_bindings erase
perform_run = refl

perform-Change_example : Change cleaning (view tables) (view cleaned_tables)
perform-Change_example = perform-Change cleanup_call tables cleaned_tables perform_run

tables-IsPointed : IsPointed (view tables)
unfolding view lookup
tables-IsPointed = record { pointed = λ id h. ground (arith, h, string_key.beq_iff "s3" id) }

abbrev calls : List Call
calls = cleanup_call ∷ pin_call "other" "s3" "active" ∷ []

calls_active : load_active_snapshot_id (after_calls calls tables) ≡ ok (some "s3")
unfolding after_calls perform cleanup_retired_snapshots load_active_snapshot_id lookup
    order_by_created_at insert_by_created delete_unused in_use referenced_snapshot_ids contains
    delete_snapshot without_snapshot is_referenced any delete_terminal_bindings erase
    pin_run_snapshot insert
calls_active = refl

calls_keep_active_example :
    (s : ConfigSnapshot) × (active_snapshot (after_calls calls tables) ≡ ok s)
    × (s.snapshot_id ≡ "s3")
calls_keep_active_example = calls_keep_active calls tables "s3" tables-IsPointed calls_active

run_pinned : snapshot_for_run "run" tables ≡ ok (snapshot_from_row "s2" (row_at 2))
unfolding snapshot_for_run lookup
run_pinned = refl

others : all (leaves "run") calls ≡ true
unfolding all
others = refl

waiting : is_non_terminal (record { snapshot_id = "s2"; status = "paused" }) ≡ true
unfolding contains
waiting = refl

run_bound :
    lookup "run" tables.run_snapshot_bindings
    ≡ some (record { snapshot_id = "s2"; status = "paused" })
unfolding lookup
run_bound = refl

calls_keep_pinned_example :
    snapshot_for_run "run" (after_calls calls tables) ≡ ok (snapshot_from_row "s2" (row_at 2))
calls_keep_pinned_example =
    calls_keep_pinned calls tables "run" (record { snapshot_id = "s2"; status = "paused" })
      (snapshot_from_row "s2" (row_at 2)) others run_bound waiting run_pinned

abbrev report : ShadowComparisonReport
report = record {
  candidate_version_id = "g1";
  active_version_id = "s3";
  success_rate_delta = pos 0;
  cost_delta_usd = pos 0;
  safety_regressions = [];
  blocked = false;
  blocking_reasons = [];
}

abbrev activation : Activation
activation = record {
  graph_version_id = "g1";
  agent_version_ids = [];
  actor = "admin";
  rationale = "activate";
  comparison_report = report;
  override_rationale = none;
  expected_active_snapshot_id = none;
}

abbrev fresh : String → Fresh
fresh id = record { snapshot_id = id; report_id = id; event_id = id; now = 9 }

abbrev activated_tables : Tables
activated_tables = record tables {
  shadow_reports = ("s4", record { active_version_id = some "s3"; report_payload = report }) ∷ [];
  snapshots =
      ("s1", row_at 1)
      ∷ ("s2", row_at 2)
      ∷ ("s3", row3)
      ∷ ("s4", activation_row activation (fresh "s4") (some "s3"))
      ∷ [];
  control_plane_state = ("global", record { active_snapshot_id = some "s4"; revision = 4 }) ∷ [];
  audit_events = ("s4", activation_event activation (fresh "s4")) ∷ [];
}

abbrev new_snapshot : ConfigSnapshot
new_snapshot = snapshot_from_row "s4" (activation_row activation (fresh "s4") (some "s3"))

activate_run : activate activation (fresh "s4") tables ≡ ok (new_snapshot, activated_tables)
unfolding activate activate_transaction require_version require_agent_versions insert_shadow_report
    load_active_snapshot_id insert_snapshot cas_active_snapshot load_snapshot insert_row
    insert_audit_event nullable_snapshot_id normalize_expected_snapshot_id lookup insert
    activation_event
activate_run = refl

s4-IsFresh : IsFresh (fresh "s4") tables
unfolding lookup
s4-IsFresh = record { new_report = refl; new_snapshot = refl; new_event = refl }

g1_known : has_key activation.graph_version_id tables.graph_versions ≡ true
unfolding lookup
g1_known = refl

no_agents : all (known_agent tables) (ids_of activation.agent_version_ids) ≡ true
unfolding all
no_agents = refl

as_expected : load_active_snapshot_id tables ≡ ok (expected_of activation)
unfolding load_active_snapshot_id lookup normalize_expected_snapshot_id nullable_snapshot_id
as_expected = refl

activate_succeeds_example : Activated activation (fresh "s4") tables
activate_succeeds_example =
    activate_succeeds activation (fresh "s4") tables refl g1_known no_agents as_expected s4-IsFresh

-- The second administrator has seen the same report.
second_activation_conflicts_example :
    activate activation (fresh "s5") activated_tables ≢ ok (new_snapshot, activated_tables)
second_activation_conflicts_example =
    second_activation_conflicts activation activation (fresh "s4") (fresh "s5") tables
      activated_tables new_snapshot tables-IsPointed refl activate_run new_snapshot activated_tables

rollback_needs_expectation_example :
    rollback "s2" "admin" "go back" none "e" 9 tables ≢ ok (new_snapshot, tables)
rollback_needs_expectation_example =
    rollback_needs_expectation tables "s3" "s2" "admin" "go back" "e" 9 new_snapshot tables
      tables_active
