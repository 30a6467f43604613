-- ===== src/ControlPlane/Postgres/Cleanup.antt =====
-- What `cleanup_retired_snapshots` deletes and what it keeps.
use multi_agent_langgraph.Base.{
  ◌≡◌, refl, arith, String, Bool, true, not, ◌&&◌, ◌||◌, Option, none, some, List, [], ◌∷◌, ok,
  string_key, ◌==◌, if◌then◌else◌, contains, inl, inr, Bool-cases, ◌⊎◌, Option-cases, >>=-eq-ok, ap,
}
use multi_agent_langgraph.Base.Dict.{Dict, lookup, has_key, lookup-erase}
use multi_agent_langgraph.ControlPlane.Tables.{Tables, SnapshotRow, BindingRow}
use multi_agent_langgraph.ControlPlane.Postgres.{load_active_snapshot_id}
use multi_agent_langgraph.ControlPlane.Postgres.Runs.{
  is_non_terminal, referenced_snapshot_ids, order_by_created_at, insert_by_created, delete_snapshot,
  delete_unless, without_snapshot, delete_terminal_bindings, in_use, delete_unused,
  cleanup_retired_snapshots,
}

has_key-insert_by_created :
    (k id : String) (row : SnapshotRow) (rows : Dict String SnapshotRow)
    → has_key k (insert_by_created id row rows) ≡ (id == k || has_key k rows)
unfolding insert_by_created lookup
has_key-insert_by_created k id row [] = ground arith
has_key-insert_by_created k id row ((j, other) ∷ rows) =
    ground (arith, has_key-insert_by_created k id row rows)

pub has_key-order_by_created_at :
    (k : String) (rows : Dict String SnapshotRow)
    → has_key k (order_by_created_at rows) ≡ has_key k rows
unfolding order_by_created_at lookup
has_key-order_by_created_at k [] = refl
has_key-order_by_created_at k ((id, row) ∷ rows) = ground (
  arith,
  has_key-insert_by_created k id row (order_by_created_at rows),
  has_key-order_by_created_at k rows,
)

pub referenced-lookup :
    (run_id : String) (bindings : Dict String BindingRow) (binding : BindingRow)
    → lookup run_id bindings ≡ some binding
    → is_non_terminal binding ≡ true
    → contains binding.snapshot_id (referenced_snapshot_ids bindings) ≡ true
unfolding lookup referenced_snapshot_ids contains
referenced-lookup run_id [] binding h n = cc
referenced-lookup run_id ((r, b) ∷ bindings) binding h n = elim (Bool-cases (r == run_id)) [
  | inl e ↦ ground (arith, e, string_key.beq_iff binding.snapshot_id binding.snapshot_id)
  | inr e ↦ ground (arith, e, referenced-lookup run_id bindings binding)
]

lookup-delete_terminal :
    (id run_id : String) (bindings : Dict String BindingRow) (binding : BindingRow)
    → lookup run_id bindings ≡ some binding
    → is_non_terminal binding ≡ true
    → lookup run_id (delete_terminal_bindings id bindings) ≡ some binding
unfolding lookup delete_terminal_bindings
lookup-delete_terminal id run_id [] binding h n = cc
lookup-delete_terminal id run_id ((r, b) ∷ bindings) binding h n = elim (Bool-cases (r == run_id)) [
  | inl e ↦ ground (arith, e)
  | inr e ↦ ground (arith, e, lookup-delete_terminal id run_id bindings binding)
]

-- The loop of `cleanup_retired_snapshots` where no foreign key stops it.
unfoldable deletions :
    Option String → List String → Dict String SnapshotRow → Tables → List String × Tables
deletions active referenced [] tables = ([], tables)
deletions active referenced ((id, row) ∷ rows) tables =
    let keep = in_use active referenced id in
    let rest =
      deletions active referenced rows (if keep then tables else without_snapshot id tables) in
    (if keep then rest.0 else id ∷ rest.0, rest.1)

delete_unless-eq-ok :
    (keep : Bool) (id : String) (tables left : Tables)
    → delete_unless keep id tables ≡ ok left
    → left ≡ (if keep then tables else without_snapshot id tables)
unfolding delete_snapshot
delete_unless-eq-ok keep id tables left h = ground arith

delete_unused-eq-ok :
    (active : Option String) (referenced : List String) (rows : Dict String SnapshotRow)
    (tables : Tables) (r : List String × Tables)
    → delete_unused active referenced rows tables ≡ ok r
    → r ≡ deletions active referenced rows tables
unfolding delete_unused deletions
delete_unused-eq-ok active referenced [] tables r h = cc
delete_unused-eq-ok active referenced ((id, row) ∷ rows) tables r h =
    let keep = in_use active referenced id in
    let (left, d, h1) = >>=-eq-ok (delete_unless keep id tables) _ h in
    let (rest, e, h2) = >>=-eq-ok (delete_unused active referenced rows left) _ h1 in
    let now = delete_unless-eq-ok keep id tables left d in
    let next = delete_unused-eq-ok active referenced rows left rest e in
    rw (← now, ← next) (ok_inj h2)
  where
    ok_inj : {a b : List String × Tables} → ok a ≡ ok b → b ≡ a
    ok_inj e = cc

module _ (active : Option String) (referenced : List String) where
  abbrev goes : String → Dict String SnapshotRow → Bool
  goes id rows = not (in_use active referenced id) && has_key id rows

  module _ (id : String) where
    lookup-deletions :
        (rows : Dict String SnapshotRow) (tables : Tables)
        → lookup id (deletions active referenced rows tables).1.snapshots
          ≡ (if goes id rows then none else lookup id tables.snapshots)
    unfolding deletions lookup without_snapshot
    lookup-deletions [] tables = ground arith
    lookup-deletions ((j, row) ∷ rows) tables = elim (Bool-cases (in_use active referenced j)) [
      | inl e ↦ ground (arith, e, string_key.beq_iff j id, lookup-deletions rows tables)
      | inr e ↦ ground (
        arith,
        e,
        string_key.beq_iff j id,
        lookup-erase j id tables.snapshots,
        lookup-deletions rows (without_snapshot j tables),
      )
    ]

    -- The identifiers that the loop reports are those that go.
    contains-deletions :
        (rows : Dict String SnapshotRow) (tables : Tables)
        → contains id (deletions active referenced rows tables).0 ≡ goes id rows
    unfolding deletions lookup contains
    contains-deletions [] tables = ground arith
    contains-deletions ((j, row) ∷ rows) tables = elim (Bool-cases (in_use active referenced j)) [
      | inl e ↦ ground (arith, e, string_key.beq_iff j id, contains-deletions rows tables)
      | inr e ↦
          ground
            (arith, e, string_key.beq_iff j id, contains-deletions rows (without_snapshot j tables))
    ]

  binding-deletions :
      (run_id : String) (binding : BindingRow) (rows : Dict String SnapshotRow) (tables : Tables)
      → lookup run_id tables.run_snapshot_bindings ≡ some binding
      → is_non_terminal binding ≡ true
      → lookup run_id (deletions active referenced rows tables).1.run_snapshot_bindings
        ≡ some binding
  unfolding deletions without_snapshot
  binding-deletions run_id binding [] tables h n = h
  binding-deletions run_id binding ((j, row) ∷ rows) tables h n =
      elim (Bool-cases (in_use active referenced j)) [
        | inl e ↦ rw e (binding-deletions run_id binding rows tables h n)
        | inr e ↦ rw e (
            binding-deletions run_id binding rows (without_snapshot j tables)
              (lookup-delete_terminal j run_id tables.run_snapshot_bindings binding h n) n)
      ]

  state-deletions :
      (rows : Dict String SnapshotRow) (tables : Tables)
      → (deletions active referenced rows tables).1.control_plane_state ≡ tables.control_plane_state
  unfolding deletions without_snapshot
  state-deletions [] tables = refl
  state-deletions ((j, row) ∷ rows) tables = elim (Bool-cases (in_use active referenced j)) [
    | inl e ↦ rw e (state-deletions rows tables)
    | inr e ↦ rw e (state-deletions rows (without_snapshot j tables))
  ]

module _ (before after : Tables) (deleted : List String) (active : Option String)
    (h : cleanup_retired_snapshots before ≡ ok (deleted, after))
    (a : load_active_snapshot_id before ≡ ok active) where
  unfoldable loop : List String × Tables
  loop =
      deletions active (referenced_snapshot_ids before.run_snapshot_bindings)
        (order_by_created_at before.snapshots) before

  cleanup-eq-ok : (deleted ≡ loop.0) × (after ≡ loop.1)
  unfolding cleanup_retired_snapshots loop
  cleanup-eq-ok =
      let h1 : delete_unused active (referenced_snapshot_ids before.run_snapshot_bindings)
            (order_by_created_at before.snapshots) before
          ≡ ok (deleted, after) =
        ground (arith, a, h) in
      let e = delete_unused-eq-ok active _ _ before (deleted, after) h1 in
      (ap (λ r. r.0) e, ap (λ r. r.1) e)

  pub cleanup_binding :
      (run_id : String) (binding : BindingRow)
      → lookup run_id before.run_snapshot_bindings ≡ some binding
      → is_non_terminal binding ≡ true
      → lookup run_id after.run_snapshot_bindings ≡ some binding
  unfolding loop
  cleanup_binding run_id binding b n =
      rw (cleanup-eq-ok.1) (binding-deletions _ _ run_id binding _ before b n)

  pub cleanup_active : load_active_snapshot_id after ≡ load_active_snapshot_id before
  unfolding loop load_active_snapshot_id
  cleanup_active = rw (cleanup-eq-ok.1, state-deletions _ _ _ before)

  exact :
      (id : String)
      → (lookup id before.snapshots ≡ none)
        ⊎ ((row : SnapshotRow) × (lookup id before.snapshots ≡ some row))
      → (lookup id after.snapshots ≡ (
          if in_use active (referenced_snapshot_ids before.run_snapshot_bindings) id
          then lookup id before.snapshots
          else none))
        × (contains id deleted ≡ (
            not (in_use active (referenced_snapshot_ids before.run_snapshot_bindings) id)
            && has_key id before.snapshots))
  unfolding loop
  exact id cases =
      let used = referenced_snapshot_ids before.run_snapshot_bindings in
      let rows = order_by_created_at before.snapshots in
      let found = lookup-deletions active used id rows before in
      let told = contains-deletions active used id rows before in
      let kept = has_key-order_by_created_at id before.snapshots in
      elim cases [
        | inl e ↦ ground (arith, cleanup-eq-ok, found, told, kept, e)
        | inr (row, e) ↦ ground (arith, cleanup-eq-ok, found, told, kept, e)
      ]

  pub cleanup_exact :
      (id : String)
      → (lookup id after.snapshots ≡ (
          if in_use active (referenced_snapshot_ids before.run_snapshot_bindings) id
          then lookup id before.snapshots
          else none))
        × (contains id deleted ≡ (
            not (in_use active (referenced_snapshot_ids before.run_snapshot_bindings) id)
            && has_key id before.snapshots))
  unfolding loop
  cleanup_exact id = exact id (Option-cases (lookup id before.snapshots))
