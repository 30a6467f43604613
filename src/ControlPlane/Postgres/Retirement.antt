-- ===== src/ControlPlane/Postgres/Retirement.antt =====
-- Which snapshots a cleanup of the control plane store retires, and what stops it.
use multi_agent_langgraph.Base.{
  ◌≡◌, refl, ap, ◌∙◌, inl, inr, arith, String, Bool, true, false, Option, some, none, List, [], ◌∷◌,
  ok, raise, integrity_error, string_key, Bool-cases, contains, any, In,
}
use multi_agent_langgraph.Base.Dict.{lookup, has_key, values}
use multi_agent_langgraph.ControlPlane.Tables.{Tables, SnapshotRow, StateRow}
use multi_agent_langgraph.ControlPlane.Postgres.{load_active_snapshot_id}
use multi_agent_langgraph.ControlPlane.Postgres.Runs.{
  order_by_created_at, cleanup_retired_snapshots, supersedes, points_at,
}
use multi_agent_langgraph.ControlPlane.Postgres.Effects.{same_iff}
use multi_agent_langgraph.ControlPlane.Postgres.Cleanup.{cleanup_exact, has_key-order_by_created_at}
use multi_agent_langgraph.ControlPlane.Postgres.Usage.{
  IsUsed, by_all, by_run, any-In, holds, used, used-IsUsed, IsUsed-used,
}
use multi_agent_langgraph.ControlPlane.Postgres.Deletion.{IsClear, clear_deletes, blocked}

unused-used :
    (tables : Tables) (active : Option String) (a : load_active_snapshot_id tables ≡ ok active)
    (id : String)
    → ¬ IsUsed tables id
    → used tables active a id ≡ false
unused-used tables active a id n = elim (Bool-cases (used tables active a id)) [
  | inr e ↦ e
  | inl e ↦ absurd (n (used-IsUsed tables active a id e))
]

module _ (tables : Tables) (state : StateRow)
    (only : tables.control_plane_state ≡ ("global", state) ∷ []) where
  only_active : load_active_snapshot_id tables ≡ ok state.active_snapshot_id
  unfolding load_active_snapshot_id lookup
  only_active = rw only refl

  abbrev in_use_now : String → Bool
  in_use_now = used tables state.active_snapshot_id only_active

  start-IsClear :
      ((row : SnapshotRow) (id : String)
        → In row (values tables.snapshots)
        → row.supersedes_snapshot_id ≡ some id
        → IsUsed tables id)
      → IsClear tables state.active_snapshot_id only_active tables
  unfolding any
  start-IsClear h = record {
    superseding = λ id u. elim (Bool-cases (any (supersedes id) (values tables.snapshots))) [
      | inr e ↦ e
      | inl e ↦
          let (row, m, k) = any-In (supersedes id) (values tables.snapshots) e in
          let is : IsUsed tables id =
            h row id m (same_iff row.supersedes_snapshot_id (some id) k) in
          cc (u, IsUsed-used tables state.active_snapshot_id only_active id is)
    ];
    pointing = λ id u. elim (Bool-cases (points_at id state)) [
      | inr e ↦ rw only (ground (arith, e))
      | inl e ↦
          let is : state.active_snapshot_id ≡ some id =
            same_iff state.active_snapshot_id (some id) e in
          cc (
            u,
            IsUsed-used tables state.active_snapshot_id only_active id
                (by_all (only_active ∙ ap ok is)),
          )
    ];
    binding = λ id u. elim (Bool-cases (any (holds id) (values tables.run_snapshot_bindings))) [
      | inr e ↦ e
      | inl e ↦
          let (b, m, k) = any-In (holds id) (values tables.run_snapshot_bindings) e in
          let is =
            by_run b m (ground (arith, k))
              (ground (arith, k, string_key.beq_iff b.snapshot_id id)) in
          cc (u, IsUsed-used tables state.active_snapshot_id only_active id is)
    ];
  }

  -- Where the state table has its one row, and each snapshot that another one supersedes is the active
  -- one or that of a run in a state that is not terminal, a cleanup succeeds: the active snapshot and
  -- those of runs in a state that is not terminal stay, and all others are deleted and reported.
  pub cleanup_retires_unused :
      ((row : SnapshotRow) (id : String)
        → In row (values tables.snapshots)
        → row.supersedes_snapshot_id ≡ some id
        → IsUsed tables id)
      → (r : List String × Tables) × (cleanup_retired_snapshots tables ≡ ok r)
        × ((id : String)
            → (IsUsed tables id
                → (lookup id r.1.snapshots ≡ lookup id tables.snapshots)
                  × (contains id r.0 ≡ false))
              × (¬ IsUsed tables id
                  → (lookup id r.1.snapshots ≡ none)
                    × (contains id r.0 ≡ has_key id tables.snapshots)))
  unfolding cleanup_retired_snapshots
  cleanup_retires_unused h =
      let now = state.active_snapshot_id in
      let (r, e) =
        clear_deletes tables now only_active (order_by_created_at tables.snapshots) tables
          (start-IsClear h) in
      let done : cleanup_retired_snapshots tables ≡ ok r = rw (only_active, e) refl in
      (
        r,
        done,
        λ id.
            let x = cleanup_exact tables r.1 r.0 now done only_active id in
            (
              λ is. let u = IsUsed-used tables now only_active id is in ground (arith, x, u),
              λ n. let u = unused-used tables now only_active id n in ground (arith, x, u),
            ),
      )

-- A cleanup fails, and so deletes nothing, when the active snapshot, or one that a run in a state
-- that is not terminal is bound to, supersedes a stored snapshot that is neither: the foreign key of
-- the later snapshot keeps the earlier one.
pub superseded_blocks_cleanup :
    (tables : Tables) (active : Option String) (id current : String) (row : SnapshotRow)
    → load_active_snapshot_id tables ≡ ok active
    → IsUsed tables current
    → lookup current tables.snapshots ≡ some row
    → row.supersedes_snapshot_id ≡ some id
    → has_key id tables.snapshots ≡ true
    → ¬ IsUsed tables id
    → cleanup_retired_snapshots tables ≡ raise (integrity_error "snapshots")
unfolding cleanup_retired_snapshots
superseded_blocks_cleanup tables active id current row a c l s k n =
    let held =
      blocked tables active a id current row (unused-used tables active a id n)
        (IsUsed-used tables active a current c) (ground (arith, s, string_key.beq_iff id id))
        (order_by_created_at tables.snapshots) tables
        (has_key-order_by_created_at id tables.snapshots ∙ k) l in
    rw (a, held) refl
