-- ===== src/ControlPlane/Tables.antt =====
-- control_plane/store.py: the records; persistence/schema.py: the tables of the control plane;
-- persistence/control_plane.py: what `PostgresControlPlaneStore` does to versions. A transaction is
-- a function of the tables that raises or returns the tables it commits: what raises commits
-- nothing. Identifiers from `uuid4` and the time of `now()` are arguments.
use multi_agent_langgraph.Base.{
  ℕ, ◌+◌, max, String, Bool, ◌||◌, Option, none, some, List, [], ◌∷◌, ◌==◌, string_key, nat_eq,
  if◌then◌else◌, any, Result, ok, raise, ◌>>=◌, integrity_error,
}
use multi_agent_langgraph.Base.Dict.{Dict, insert, has_key, values}
use multi_agent_langgraph.Github.Json.{Fields}
use multi_agent_langgraph.ControlPlane.Shadow.{ShadowComparisonReport}

abbrev pub non_terminal_run_states : List String
non_terminal_run_states = "active" ∷ "paused" ∷ "shadow" ∷ "dlq" ∷ []

pub data ConfigKind : Type 0 where
  graph agent : ConfigKind

pub record ConfigVersionRecord : Type 0 where
  pub record_id : String
  pub config_kind : ConfigKind
  pub version_number : ℕ
  pub created_by : String
  pub rationale : String
  pub created_at : ℕ
  pub payload : Fields

pub record ConfigSnapshot : Type 0 where
  pub snapshot_id : String
  pub graph_version_id : String
  pub agent_version_ids : Dict String String
  pub created_at : ℕ
  pub created_by : String
  pub evidence_summary : String

pub data AuditAction : Type 0 where
  create_graph create_agent activated rolled_back : AuditAction

pub record AuditEvent : Type 0 where
  pub event_id : String
  pub action : AuditAction
  pub actor : String
  pub rationale : String
  pub created_at : ℕ
  pub target_id : String
  pub evidence_summary : Option String

pub record VersionRow : Type 0 where
  pub version_number : ℕ
  pub created_by : String
  pub rationale : String
  pub payload : Fields
  pub created_at : ℕ

pub record ReportRow : Type 0 where
  pub active_version_id : Option String
  pub report_payload : ShadowComparisonReport

pub record SnapshotRow : Type 0 where
  pub graph_version_id : String
  pub agent_version_ids : Dict String String
  pub shadow_report_id : Option String
  pub supersedes_snapshot_id : Option String
  pub created_by : String
  pub evidence_summary : String
  pub created_at : ℕ

pub record StateRow : Type 0 where
  pub active_snapshot_id : Option String
  pub revision : ℕ

pub record BindingRow : Type 0 where
  pub snapshot_id : String
  pub status : String

-- Each table under its primary key; of the table of runs, only the keys.
pub record Tables : Type 0 where
  pub runs : List String
  pub graph_versions : Dict String VersionRow
  pub agent_versions : Dict String VersionRow
  pub shadow_reports : Dict String ReportRow
  pub snapshots : Dict String SnapshotRow
  pub control_plane_state : Dict String StateRow
  pub run_snapshot_bindings : Dict String BindingRow
  pub audit_events : Dict String AuditEvent

-- `INSERT`, where the primary key must be new.
unfoldable pub insert_row {ℓ} :
    {A : Type ℓ} → String → String → A → Dict String A → Result (Dict String A)
insert_row table key row rows =
    if has_key key rows then raise (integrity_error table) else ok (insert key row rows)

unfoldable pub nullable_snapshot_id : Option String → Option String
nullable_snapshot_id none = none
nullable_snapshot_id (some id) = if id == "" || id == "none" then none else some id

unfoldable pub normalize_expected_snapshot_id : Option String → Option String → Option String
normalize_expected_snapshot_id (some explicit) observed = some explicit
normalize_expected_snapshot_id none observed = nullable_snapshot_id observed

unfoldable pub insert_audit_event : AuditEvent → Tables → Result Tables
insert_audit_event event tables = do
  events ← insert_row "audit_events" event.event_id event tables.audit_events
  ok (record tables { audit_events = events })

abbrev pub versions_of : ConfigKind → Tables → Dict String VersionRow
versions_of graph tables = tables.graph_versions
versions_of agent tables = tables.agent_versions

abbrev pub with_versions : ConfigKind → Dict String VersionRow → Tables → Tables
with_versions graph rows tables = record tables { graph_versions = rows }
with_versions agent rows tables = record tables { agent_versions = rows }

-- `COALESCE(MAX(version_number), 0)`
unfoldable pub max_version_number : List VersionRow → ℕ
max_version_number [] = 0
max_version_number (row ∷ rows) = max row.version_number (max_version_number rows)

unfoldable pub next_version_number : Dict String VersionRow → ℕ
next_version_number rows = max_version_number (values rows) + 1

abbrev numbered : ℕ → VersionRow → Bool
numbered number row = nat_eq row.version_number number

-- The primary key and the unique constraint on `version_number`.
abbrev pub insert_version :
    String → VersionRow → Dict String VersionRow → Result (Dict String VersionRow)
insert_version record_id row rows =
    if any (numbered row.version_number) (values rows)
    then raise (integrity_error "version_number")
    else insert_row "versions" record_id row rows

abbrev creation : ConfigKind → AuditAction
creation graph = create_graph
creation agent = create_agent

abbrev pub new_version : ConfigKind → Fields → String → String → ℕ → Tables → VersionRow
new_version kind payload actor rationale now tables = record {
  version_number = next_version_number (versions_of kind tables);
  created_by = actor;
  rationale = rationale;
  payload = payload;
  created_at = now;
}

abbrev created_event : ConfigKind → String → String → String → String → ℕ → AuditEvent
created_event kind record_id event_id actor rationale now = record {
  event_id = event_id;
  action = creation kind;
  actor = actor;
  rationale = rationale;
  created_at = now;
  target_id = record_id;
  evidence_summary = none;
}

abbrev version_record : ConfigKind → String → VersionRow → ConfigVersionRecord
version_record kind record_id row = record {
  record_id = record_id;
  config_kind = kind;
  version_number = row.version_number;
  created_by = row.created_by;
  rationale = row.rationale;
  created_at = row.created_at;
  payload = row.payload;
}

unfoldable pub create_version :
    ConfigKind
    → Fields
    → String
    → String
    → String
    → String
    → ℕ
    → Tables
    → Result (ConfigVersionRecord × Tables)
create_version kind payload actor rationale record_id event_id now tables = do
  let row = new_version kind payload actor rationale now tables
  rows ← insert_version record_id row (versions_of kind tables)
  committed ←
      insert_audit_event (created_event kind record_id event_id actor rationale now)
        (with_versions kind rows tables)
  ok (version_record kind record_id row, committed)

unfoldable pub create_graph_version :
    Fields → String → String → String → String → ℕ → Tables → Result (ConfigVersionRecord × Tables)
create_graph_version = create_version graph

unfoldable pub create_agent_version :
    Fields → String → String → String → String → ℕ → Tables → Result (ConfigVersionRecord × Tables)
create_agent_version = create_version agent
