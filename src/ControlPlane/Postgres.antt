-- ===== src/ControlPlane/Postgres.antt =====
-- persistence/control_plane.py: `PostgresControlPlaneStore`, its operations on snapshots and runs.
-- The foreign keys of the rows that `activate` and `rollback` write are not tested again: what they
-- refer to is read or inserted in the same transaction.
pub mod Calls
pub mod Cleanup
pub mod Deletion
pub mod Effects
pub mod Runs
pub mod Retirement
pub mod Spec
pub mod Success
pub mod Usage
use multi_agent_langgraph.Base.{
  ℕ, ◌+◌, String, Bool, true, false, not, ◌&&◌, ◌||◌, Option, none, some, List, [], ◌∷◌, ◌++◌, ◌<>◌,
  ◌==◌, string_key, leb, if◌then◌else◌, contains, select, any, join, Result, ok, raise, ◌>>=◌, ◌>>◌,
  value_error, key_error, conflict_error, no_result_found,
}
use multi_agent_langgraph.Base.Dict.{Dict, lookup, insert, has_key, erase, values}
use multi_agent_langgraph.ControlPlane.Shadow.{ShadowComparisonReport}
use multi_agent_langgraph.ControlPlane.Tables.{
  Tables, SnapshotRow, StateRow, BindingRow, VersionRow, ReportRow, ConfigSnapshot, AuditEvent,
  activated, rolled_back, ConfigKind, graph, agent, versions_of, insert_row, insert_audit_event,
  nullable_snapshot_id, normalize_expected_snapshot_id, non_terminal_run_states,
}

-- What `uuid4` and `now()` give to one call.
pub record Fresh : Type 0 where
  pub snapshot_id : String
  pub report_id : String
  pub event_id : String
  pub now : ℕ

-- The arguments of `activate`.
pub record Activation : Type 0 where
  pub graph_version_id : String
  pub agent_version_ids : Dict String String
  pub actor : String
  pub rationale : String
  pub comparison_report : ShadowComparisonReport
  pub override_rationale : Option String
  pub expected_active_snapshot_id : Option String

abbrev kind_value : ConfigKind → String
kind_value graph = "graph"
kind_value agent = "agent"

unfoldable pub require_version : ConfigKind → String → Tables → Result (Unit {0})
require_version kind record_id tables =
    if has_key record_id (versions_of kind tables)
    then ok tt
    else raise (key_error ("Unknown " <> kind_value kind <> " version `" <> record_id <> "`."))

unfoldable pub require_agent_versions : List String → Tables → Result (Unit {0})
require_agent_versions [] tables = ok tt
require_agent_versions (id ∷ ids) tables = do
  require_version agent id tables
  require_agent_versions ids tables

unfoldable pub insert_shadow_report : String → ShadowComparisonReport → Tables → Result Tables
insert_shadow_report report_id report tables = do
  rows ←
      insert_row "shadow_reports" report_id
        (record {
          active_version_id = nullable_snapshot_id (some report.active_version_id);
          report_payload = report;
        })
        tables.shadow_reports
  ok (record tables { shadow_reports = rows })

abbrev the_row : Option StateRow → Result StateRow
the_row none = raise no_result_found
the_row (some row) = ok row

unfoldable pub load_active_snapshot_id : Tables → Result (Option String)
load_active_snapshot_id tables = do
  row ← the_row (lookup "global" tables.control_plane_state)
  ok row.active_snapshot_id

unfoldable pub insert_snapshot : String → SnapshotRow → Tables → Result Tables
insert_snapshot snapshot_id row tables = do
  rows ← insert_row "snapshots" snapshot_id row tables.snapshots
  ok (record tables { snapshots = rows })

-- `IS NOT DISTINCT FROM`
abbrev pub same : Option String → Option String → Bool
same none none = true
same (some a) (some b) = a == b
same _ _ = false

abbrev pub advance : String → StateRow → StateRow
advance id row = record { active_snapshot_id = some id; revision = row.revision + 1 }

abbrev pub swap_row : Option String → String → Option StateRow → Tables → Result Tables
swap_row expected new none tables = raise (conflict_error "active snapshot changed")
swap_row expected new (some row) tables =
    if same row.active_snapshot_id expected
    then ok (record tables {
      control_plane_state = insert "global" (advance new row) tables.control_plane_state;
    })
    else raise (conflict_error "active snapshot changed")

unfoldable pub cas_active_snapshot : Option String → String → Tables → Result Tables
cas_active_snapshot expected new tables =
    swap_row expected new (lookup "global" tables.control_plane_state) tables

unfoldable pub snapshot_from_row : String → SnapshotRow → ConfigSnapshot
snapshot_from_row snapshot_id row = record {
  snapshot_id = snapshot_id;
  graph_version_id = row.graph_version_id;
  agent_version_ids = row.agent_version_ids;
  created_at = row.created_at;
  created_by = row.created_by;
  evidence_summary = row.evidence_summary;
}

abbrev found_snapshot : String → Option SnapshotRow → Result ConfigSnapshot
found_snapshot id none = raise (key_error ("Unknown snapshot `" <> id <> "`."))
found_snapshot id (some row) = ok (snapshot_from_row id row)

unfoldable pub load_snapshot : String → Tables → Result ConfigSnapshot
load_snapshot snapshot_id tables = found_snapshot snapshot_id (lookup snapshot_id tables.snapshots)

-- `override_rationale or rationale`
abbrev or_else : Option String → String → String
or_else none rationale = rationale
or_else (some override) rationale = if override == "" then rationale else override

unfoldable pub evidence_summary_of : ShadowComparisonReport → String
evidence_summary_of report =
    if report.blocked then join "; " report.blocking_reasons else "shadow-evidence-passed"

abbrev pub is_none : Option String → Bool
is_none none = true
is_none (some text) = false

unfoldable pub activation_row : Activation → Fresh → Option String → SnapshotRow
activation_row call fresh previous = record {
  graph_version_id = call.graph_version_id;
  agent_version_ids = call.agent_version_ids;
  shadow_report_id = some fresh.report_id;
  supersedes_snapshot_id = previous;
  created_by = call.actor;
  evidence_summary = evidence_summary_of call.comparison_report;
  created_at = fresh.now;
}

unfoldable pub activation_event : Activation → Fresh → AuditEvent
activation_event call fresh = record {
  event_id = fresh.event_id;
  action = activated;
  actor = call.actor;
  rationale = or_else call.override_rationale call.rationale;
  created_at = fresh.now;
  target_id = fresh.snapshot_id;
  evidence_summary = some (evidence_summary_of call.comparison_report);
}

abbrev pub ids_of : Dict String String → List String
ids_of = values

abbrev pub expected_of : Activation → Option String
expected_of call =
    normalize_expected_snapshot_id call.expected_active_snapshot_id
      (some call.comparison_report.active_version_id)

-- The block `with self._engine.begin()` of `activate`.
unfoldable pub activate_transaction : Activation → Fresh → Tables → Result Tables
activate_transaction call fresh tables = do
  require_version graph call.graph_version_id tables
  require_agent_versions (ids_of call.agent_version_ids) tables
  reported ← insert_shadow_report fresh.report_id call.comparison_report tables
  previous ← load_active_snapshot_id reported
  stored ← insert_snapshot fresh.snapshot_id (activation_row call fresh previous) reported
  swapped ← cas_active_snapshot (expected_of call) fresh.snapshot_id stored
  insert_audit_event (activation_event call fresh) swapped

unfoldable pub activate : Activation → Fresh → Tables → Result (ConfigSnapshot × Tables)
activate call fresh tables =
    if call.comparison_report.blocked && is_none call.override_rationale
    then raise
        (value_error "Activation is blocked until the shadow comparison report is overridden.")
    else do
      committed ← activate_transaction call fresh tables
      snapshot ← load_snapshot fresh.snapshot_id committed
      ok (snapshot, committed)

unfoldable pub rollback_event : String → String → String → String → ℕ → AuditEvent
rollback_event snapshot_id actor rationale event_id now = record {
  event_id = event_id;
  action = rolled_back;
  actor = actor;
  rationale = rationale;
  created_at = now;
  target_id = snapshot_id;
  evidence_summary = some "rollback-reactivated-snapshot";
}

unfoldable pub rollback :
    String
    → String
    → String
    → Option String
    → String
    → ℕ
    → Tables
    → Result (ConfigSnapshot × Tables)
rollback snapshot_id actor rationale expected event_id now tables = do
  known ← load_snapshot snapshot_id tables
  swapped ← cas_active_snapshot expected snapshot_id tables
  committed ← insert_audit_event (rollback_event snapshot_id actor rationale event_id now) swapped
  snapshot ← load_snapshot snapshot_id committed
  ok (snapshot, committed)
