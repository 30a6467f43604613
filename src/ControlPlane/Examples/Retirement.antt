-- ===== src/ControlPlane/Examples/Retirement.antt =====
-- Cleanups of the control plane store: one that succeeds and one that a foreign key stops.
use multi_agent_langgraph.Base.{
  ◌≡◌, refl, String, true, false, none, some, List, [], ◌∷◌, ok, string_key, contains, arith, In,
  first, later, subst, raise, integrity_error,
}
use multi_agent_langgraph.Base.Dict.{lookup, has_key, values}
use multi_agent_langgraph.ControlPlane.Tables.{Tables, SnapshotRow}
use multi_agent_langgraph.ControlPlane.Postgres.{load_active_snapshot_id}
use multi_agent_langgraph.ControlPlane.Postgres.Runs.{cleanup_retired_snapshots}
use multi_agent_langgraph.ControlPlane.Postgres.Usage.{IsUsed, by_all, by_run}
use multi_agent_langgraph.ControlPlane.Postgres.Retirement.{
  cleanup_retires_unused, superseded_blocks_cleanup,
}
use multi_agent_langgraph.ControlPlane.Examples.Store.{tables, row_at, row3}

s2-IsUsed : IsUsed tables "s2"
unfolding contains
s2-IsUsed = by_run (record { snapshot_id = "s2"; status = "paused" }) first refl refl

only_s2 :
    (row : SnapshotRow) (id : String)
    → In row (values tables.snapshots)
    → row.supersedes_snapshot_id ≡ some id
    → IsUsed tables id
only_s2 row id first h = cc h
only_s2 row id (later first) h = cc h
only_s2 row id (later (later first)) h =
    let is : "s2" ≡ id = cc h in subst (IsUsed tables) is s2-IsUsed
only_s2 row id (later (later (later m))) h = elim m [ ]

cleanup_retires_unused_example :
    (r : List String × Tables) × (cleanup_retired_snapshots tables ≡ ok r)
    × ((id : String)
        → (IsUsed tables id
            → (lookup id r.1.snapshots ≡ lookup id tables.snapshots) × (contains id r.0 ≡ false))
          × (¬ IsUsed tables id
              → (lookup id r.1.snapshots ≡ none) × (contains id r.0 ≡ has_key id tables.snapshots)))
cleanup_retires_unused_example =
    cleanup_retires_unused tables (record { active_snapshot_id = some "s3"; revision = 3 }) refl
      only_s2

abbrev superseded_tables : Tables
superseded_tables = record tables {
  snapshots = ("s2", row_at 2) ∷ ("s3", row3) ∷ [];
  run_snapshot_bindings = [];
}

superseded_active : load_active_snapshot_id superseded_tables ≡ ok (some "s3")
unfolding load_active_snapshot_id lookup
superseded_active = refl

s2_stored :
    (has_key "s2" superseded_tables.snapshots ≡ true)
    × (lookup "s3" superseded_tables.snapshots ≡ some row3)
unfolding lookup
s2_stored = (refl, refl)

s2_unused : ¬ IsUsed superseded_tables "s2"
s2_unused (by_all h) = ground (arith, h, superseded_active, string_key.beq_iff "s3" "s2")
s2_unused (by_run b m n e) = elim m [ ]

superseded_blocks_cleanup_example :
    cleanup_retired_snapshots superseded_tables ≡ raise (integrity_error "snapshots")
superseded_blocks_cleanup_example =
    superseded_blocks_cleanup superseded_tables (some "s3") "s2" "s3" row3 superseded_active
      (by_all superseded_active) (s2_stored.1) refl (s2_stored.0) s2_unused
