-- ===== src/ControlPlane/Postgres/Calls.antt =====
-- The calls that change the tables of the Postgres control plane store, and what any sequence of
-- them does. A call that raises commits nothing.
pub mod Refinement
pub mod Traces
use multi_agent_langgraph.Base.{
  ℕ, ◌≡◌, ◌≢◌, refl, ap, sym, ◌∙◌, arith, String, Bool, true, false, Option, none, some, List, [],
  ◌∷◌, Result, ok, raise, ◌>>=◌, >>=-eq-ok, string_key, ◌==◌, if◌then◌else◌,
}
use multi_agent_langgraph.Base.Dict.{Dict, lookup, insert, is_some, lookup-insert, has_key}
use multi_agent_langgraph.Github.Json.{Fields}
use multi_agent_langgraph.ControlPlane.Tables.{
  Tables, SnapshotRow, StateRow, BindingRow, ConfigSnapshot, ConfigKind, create_version,
  insert_version, insert_audit_event,
}
use multi_agent_langgraph.ControlPlane.Postgres.{
  Activation, Fresh, activate, rollback, load_active_snapshot_id, snapshot_from_row, load_snapshot,
  activate_transaction, cas_active_snapshot, expected_of,
}
use multi_agent_langgraph.ControlPlane.Postgres.Runs.{
  pin_run_snapshot, update_run_status, cleanup_retired_snapshots, snapshot_for_run, active_snapshot,
  is_non_terminal,
}
use multi_agent_langgraph.ControlPlane.Postgres.Effects.{
  activate_transaction-eq-ok, cas-eq-ok, insert_audit_event-kept, load_active-ap,
}
use multi_agent_langgraph.ControlPlane.Postgres.Cleanup.{
  cleanup_binding, cleanup_active, cleanup_exact, referenced-lookup,
}
use multi_agent_langgraph.ControlPlane.Postgres.Spec.{
  View, Change, Request, activating, rolling_back, binding, cleaning, versioning, activated,
  rolled_back, bound, cleaned, unchanged, InUse, is_active, is_bound, IsPointed, IsPointed-Change,
  InUse-Change, run-Change,
}

pub data Call : Type 0 where
  create_version_call : ConfigKind → Fields → String → String → String → String → ℕ → Call
  activate_call : Activation → Fresh → Call
  rollback_call : String → String → String → Option String → String → ℕ → Call
  pin_call : String → String → String → Call
  update_call : String → String → Call
  cleanup_call : Call

-- The tables that a call commits.
abbrev pub committed {ℓ} : {A : Type ℓ} → Result (A × Tables) → Result Tables
committed result = result >>= λ r. ok r.1

unfoldable pub perform : Call → Tables → Result Tables
perform (create_version_call kind payload actor rationale record_id event_id now) tables =
    committed (create_version kind payload actor rationale record_id event_id now tables)
perform (activate_call call fresh) tables = committed (activate call fresh tables)
perform (rollback_call id actor rationale expected event_id now) tables =
    committed (rollback id actor rationale expected event_id now tables)
perform (pin_call run_id snapshot_id status) tables =
    pin_run_snapshot run_id snapshot_id status tables
perform (update_call run_id status) tables = update_run_status run_id status tables
perform cleanup_call tables = committed (cleanup_retired_snapshots tables)

abbrev pub after_result : Result Tables → Tables → Tables
after_result (raise error) tables = tables
after_result (ok new) tables = new

unfoldable pub after_calls : List Call → Tables → Tables
after_calls [] tables = tables
after_calls (call ∷ calls) tables = after_calls calls (after_result (perform call tables) tables)

abbrev pub active_of : Option StateRow → Option String
active_of none = none
active_of (some row) = row.active_snapshot_id

abbrev pub read : String → Option SnapshotRow → Option ConfigSnapshot
read id none = none
read id (some row) = some (snapshot_from_row id row)

unfoldable pub view : Tables → View
view tables = record {
  active = active_of (lookup "global" tables.control_plane_state);
  snapshot = λ id. read id (lookup id tables.snapshots);
  run = λ run_id. lookup run_id tables.run_snapshot_bindings;
}

-- The request that a call makes of the store.
abbrev pub request_of : Call → Request
request_of (create_version_call kind payload actor rationale record_id event_id now) = versioning
request_of (activate_call call fresh) = activating (expected_of call) fresh.snapshot_id
request_of (rollback_call id actor rationale expected event_id now) = rolling_back expected id
request_of (pin_call run_id snapshot_id status) = binding run_id
request_of (update_call run_id status) = binding run_id
request_of cleanup_call = cleaning

-- The run whose binding a call writes.
abbrev pub binds : Call → Option String
binds (pin_call run_id snapshot_id status) = some run_id
binds (update_call run_id status) = some run_id
binds _ = none
