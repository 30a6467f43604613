-- ===== src/ControlPlane/Postgres/Runs.antt =====
-- persistence/control_plane.py: the operations of `PostgresControlPlaneStore` on run bindings, and
-- the cleanup of snapshots that nothing uses.
use multi_agent_langgraph.Base.{
  String, Bool, not, ◌&&◌, ◌||◌, Option, none, some, List, [], ◌∷◌, ◌<>◌, ◌==◌, string_key, leb,
  if◌then◌else◌, contains, any, integrity_error, Result, ok, raise, ◌>>=◌, key_error,
  no_result_found,
}
use multi_agent_langgraph.Base.Dict.{Dict, lookup, insert, erase, has_key, values}
use multi_agent_langgraph.ControlPlane.Tables.{
  Tables, SnapshotRow, StateRow, BindingRow, ConfigSnapshot, non_terminal_run_states,
}
use multi_agent_langgraph.ControlPlane.Postgres.{load_active_snapshot_id, snapshot_from_row, same}

abbrev the_snapshot : String → Option SnapshotRow → Result ConfigSnapshot
the_snapshot id none = raise no_result_found
the_snapshot id (some row) = ok (snapshot_from_row id row)

abbrev active_row : Option String → Tables → Result ConfigSnapshot
active_row none tables = raise (key_error "No active snapshot is available.")
active_row (some id) tables = the_snapshot id (lookup id tables.snapshots)

unfoldable pub active_snapshot : Tables → Result ConfigSnapshot
active_snapshot tables = do id ← load_active_snapshot_id tables; active_row id tables

-- `INSERT ... ON CONFLICT (run_id) DO UPDATE`, with the foreign keys to `runs` and `snapshots`.
unfoldable pub pin_run_snapshot : String → String → String → Tables → Result Tables
pin_run_snapshot run_id snapshot_id status tables =
    if contains run_id tables.runs && has_key snapshot_id tables.snapshots
    then ok (record tables {
      run_snapshot_bindings =
          insert run_id (record { snapshot_id = snapshot_id; status = status })
            tables.run_snapshot_bindings;
    })
    else raise (integrity_error "run_snapshot_bindings")

unfoldable pub unknown_binding : String → String
unknown_binding run_id = "Unknown run binding `" <> run_id <> "`."

abbrev joined : String → String → Option SnapshotRow → Result ConfigSnapshot
joined run_id id none = raise (key_error (unknown_binding run_id))
joined run_id id (some row) = ok (snapshot_from_row id row)

abbrev bound_row : String → Option BindingRow → Tables → Result ConfigSnapshot
bound_row run_id none tables = raise (key_error (unknown_binding run_id))
bound_row run_id (some binding) tables =
    joined run_id binding.snapshot_id (lookup binding.snapshot_id tables.snapshots)

unfoldable pub snapshot_for_run : String → Tables → Result ConfigSnapshot
snapshot_for_run run_id tables =
    bound_row run_id (lookup run_id tables.run_snapshot_bindings) tables

abbrev with_status : String → String → Option BindingRow → Tables → Result Tables
with_status run_id status none tables = raise (key_error (unknown_binding run_id))
with_status run_id status (some binding) tables = ok (record tables {
  run_snapshot_bindings =
      insert run_id (record binding { status = status }) tables.run_snapshot_bindings;
})

unfoldable pub update_run_status : String → String → Tables → Result Tables
update_run_status run_id status tables =
    with_status run_id status (lookup run_id tables.run_snapshot_bindings) tables

abbrev pub is_non_terminal : BindingRow → Bool
is_non_terminal binding = contains binding.status non_terminal_run_states

-- `SELECT snapshot_id FROM run_snapshot_bindings WHERE status IN (...)`
unfoldable pub referenced_snapshot_ids : Dict String BindingRow → List String
referenced_snapshot_ids [] = []
referenced_snapshot_ids ((run_id, binding) ∷ bindings) =
    let rest = referenced_snapshot_ids bindings in
    if is_non_terminal binding then binding.snapshot_id ∷ rest else rest

unfoldable pub insert_by_created :
    String → SnapshotRow → Dict String SnapshotRow → Dict String SnapshotRow
insert_by_created id row [] = (id, row) ∷ []
insert_by_created id row ((j, other) ∷ rows) =
    let rest = insert_by_created id row rows in
    if leb row.created_at other.created_at then (id, row) ∷ (j, other) ∷ rows else (j, other) ∷ rest

-- `ORDER BY created_at ASC`
unfoldable pub order_by_created_at : Dict String SnapshotRow → Dict String SnapshotRow
unfolding insert_by_created
order_by_created_at [] = []
order_by_created_at ((id, row) ∷ rows) = insert_by_created id row (order_by_created_at rows)

-- `DELETE ... WHERE snapshot_id = id AND status NOT IN (...)`
unfoldable pub delete_terminal_bindings : String → Dict String BindingRow → Dict String BindingRow
delete_terminal_bindings id [] = []
delete_terminal_bindings id ((run_id, binding) ∷ bindings) =
    let rest = delete_terminal_bindings id bindings in
    if binding.snapshot_id == id && not (is_non_terminal binding)
    then rest
    else (run_id, binding) ∷ rest

abbrev pub supersedes : String → SnapshotRow → Bool
supersedes id row = same row.supersedes_snapshot_id (some id)

abbrev pub points_at : String → StateRow → Bool
points_at id row = same row.active_snapshot_id (some id)

abbrev pub is_bound_to : String → BindingRow → Bool
is_bound_to id binding = binding.snapshot_id == id

-- The foreign keys to `snapshots`: of a later snapshot, of the active one and of the bindings.
unfoldable pub is_referenced : String → Tables → Bool
is_referenced id tables =
    any (supersedes id) (values tables.snapshots)
    || (any (points_at id) (values tables.control_plane_state)
        || any (is_bound_to id) (values tables.run_snapshot_bindings))

unfoldable pub without_snapshot : String → Tables → Tables
without_snapshot id tables = record tables {
  run_snapshot_bindings = delete_terminal_bindings id tables.run_snapshot_bindings;
  snapshots = erase id tables.snapshots;
}

-- The two `DELETE`. A foreign key to a row that the second removes is checked when it has run.
unfoldable pub delete_snapshot : String → Tables → Result Tables
delete_snapshot id tables =
    if is_referenced id (without_snapshot id tables)
    then raise (integrity_error "snapshots")
    else ok (without_snapshot id tables)

unfoldable pub in_use : Option String → List String → String → Bool
in_use active referenced id = same (some id) active || contains id referenced

abbrev pub delete_unless : Bool → String → Tables → Result Tables
delete_unless keep id tables = if keep then ok tables else delete_snapshot id tables

-- The loop over the rows, with what it appends to `deleted`.
unfoldable pub delete_unused :
    Option String → List String → Dict String SnapshotRow → Tables → Result (List String × Tables)
delete_unused active referenced [] tables = ok ([], tables)
delete_unused active referenced ((id, row) ∷ rows) tables = do
  left ← delete_unless (in_use active referenced id) id tables
  rest ← delete_unused active referenced rows left
  ok (if in_use active referenced id then rest.0 else id ∷ rest.0, rest.1)

unfoldable pub cleanup_retired_snapshots : Tables → Result (List String × Tables)
cleanup_retired_snapshots tables = do
  active ← load_active_snapshot_id tables
  delete_unused active (referenced_snapshot_ids tables.run_snapshot_bindings)
      (order_by_created_at tables.snapshots) tables
