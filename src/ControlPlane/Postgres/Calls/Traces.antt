-- ===== src/ControlPlane/Postgres/Calls/Traces.antt =====
-- What holds of the Postgres control plane store after any sequence of calls.
use multi_agent_langgraph.Base.{
  ℕ, ◌≡◌, ◌≢◌, inl, inr, refl, arith, String, Bool, true, none, some, List, [], ◌∷◌, ok, string_key,
  Option-cases, Result-cases, >>=-eq-ok, all, not,
}
use multi_agent_langgraph.Base.Dict.{lookup, is_some, has_key}
use multi_agent_langgraph.ControlPlane.Tables.{Tables, BindingRow, ConfigSnapshot}
use multi_agent_langgraph.ControlPlane.Postgres.{
  Activation, Fresh, activate, rollback, load_active_snapshot_id, snapshot_from_row, expected_of,
  cas_active_snapshot, load_snapshot, same,
}
use multi_agent_langgraph.ControlPlane.Postgres.Runs.{
  snapshot_for_run, active_snapshot, is_non_terminal,
}
use multi_agent_langgraph.ControlPlane.Postgres.Effects.{
  activate_transaction-eq-ok, cas-eq-ok, activate-eq-ok,
}
use multi_agent_langgraph.ControlPlane.Postgres.Spec.{
  is_bound, binding, IsPointed, IsPointed-Change, InUse-Change, run-Change,
}
use multi_agent_langgraph.ControlPlane.Postgres.Calls.{
  Call, perform, after_calls, view, binds, request_of, create_version_call, activate_call,
  rollback_call, pin_call, update_call, cleanup_call,
}
use multi_agent_langgraph.ControlPlane.Postgres.Calls.Refinement.{perform-Change}

calls-IsPointed :
    (calls : List Call) (tables : Tables)
    → IsPointed (view tables)
    → IsPointed (view (after_calls calls tables))
unfolding after_calls
calls-IsPointed [] tables p = p
calls-IsPointed (call ∷ calls) tables p = elim (Result-cases (perform call tables)) [
  | inl (new, e) ↦ rw e (
      calls-IsPointed calls new (
        IsPointed-Change (request_of call) (view tables) (view new)
          (perform-Change call tables new e) p))
  | inr (error, e) ↦ rw e (calls-IsPointed calls tables p)
]

active-view :
    (tables : Tables) (id : String)
    → load_active_snapshot_id tables ≡ ok (some id)
    → (view tables).active ≡ some id
unfolding view load_active_snapshot_id
active-view tables id h = elim (Option-cases (lookup "global" tables.control_plane_state)) [
  | inl e ↦ ground (arith, e)
  | inr (row, e) ↦ ground (arith, e)
]

active-stored :
    (tables : Tables) (id : String)
    → load_active_snapshot_id tables ≡ ok (some id)
    → is_some ((view tables).snapshot id) ≡ true
    → (s : ConfigSnapshot) × (active_snapshot tables ≡ ok s) × (s.snapshot_id ≡ id)
unfolding active_snapshot view snapshot_from_row
active-stored tables id h p = elim (Option-cases (lookup id tables.snapshots)) [
  | inl e ↦ ground (arith, e)
  | inr (row, e) ↦ (snapshot_from_row id row, ground (arith, h, e), refl)
]

module _ (run_id : String) (b : BindingRow) (s : ConfigSnapshot) (tables : Tables)
    (k : lookup run_id tables.run_snapshot_bindings ≡ some b) where
  run-snapshot :
      snapshot_for_run run_id tables ≡ ok s → (view tables).snapshot b.snapshot_id ≡ some s
  unfolding snapshot_for_run view
  run-snapshot h = elim (Option-cases (lookup b.snapshot_id tables.snapshots)) [
    | inl e ↦ ground (arith, k, e)
    | inr (row, e) ↦ ground (arith, k, e)
  ]

  snapshot-run :
      (view tables).snapshot b.snapshot_id ≡ some s → snapshot_for_run run_id tables ≡ ok s
  unfolding snapshot_for_run view
  snapshot-run h = elim (Option-cases (lookup b.snapshot_id tables.snapshots)) [
    | inl e ↦ ground (arith, k, e)
    | inr (row, e) ↦ ground (arith, k, e)
  ]

  -- One call that commits.
  keep_pinned :
      (call : Call) (new : Tables)
      → perform call tables ≡ ok new
      → request_of call ≢ binding run_id
      → is_non_terminal b ≡ true
      → (view tables).snapshot b.snapshot_id ≡ some s
      → (lookup run_id new.run_snapshot_bindings ≡ some b)
        × ((view new).snapshot b.snapshot_id ≡ some s)
  unfolding view
  keep_pinned call new e o n h =
      let change = perform-Change call tables new e in
      (
        run-Change (request_of call) (view tables) (view new) run_id b change o k n,
        InUse-Change (request_of call) (view tables) (view new) b.snapshot_id s change
            (is_bound run_id b k n refl) h,
      )

-- Whatever calls are made on the Postgres control plane store, the snapshot that it names as the
-- active one is stored, and `active_snapshot` returns it, if that was so at the start.
pub calls_keep_active :
    (calls : List Call) (tables : Tables) (id : String)
    → IsPointed (view tables)
    → load_active_snapshot_id (after_calls calls tables) ≡ ok (some id)
    → (s : ConfigSnapshot) × (active_snapshot (after_calls calls tables) ≡ ok s)
      × (s.snapshot_id ≡ id)
calls_keep_active calls tables id p h =
    active-stored (after_calls calls tables) id h
      ((calls-IsPointed calls tables p).pointed id (active-view (after_calls calls tables) id h))

binding_inj : (a b : String) → binding a ≡ binding b → a ≡ b
binding_inj a b e = cc e

-- The call writes no binding of the run.
abbrev pub leaves : String → Call → Bool
leaves run_id call = not (same (binds call) (some run_id))

leaves-binding :
    (run_id : String) (call : Call) → leaves run_id call ≡ true → request_of call ≢ binding run_id
leaves-binding run_id (pin_call other snapshot_id status) h e =
    ground (arith, h, string_key.beq_iff run_id run_id, binding_inj other run_id e)
leaves-binding run_id (update_call other status) h e =
    ground (arith, h, string_key.beq_iff run_id run_id, binding_inj other run_id e)
leaves-binding run_id (create_version_call kind payload actor rationale id event_id now) h e = cc e
leaves-binding run_id (activate_call call fresh) h e = cc e
leaves-binding run_id (rollback_call id actor rationale expected event_id now) h e = cc e
leaves-binding run_id cleanup_call h e = cc e

-- Whatever calls are made, cleanups among them, a run in a state that is not terminal keeps its
-- snapshot as long as no call binds that run again or sets its status.
pub calls_keep_pinned :
    (calls : List Call) (tables : Tables) (run_id : String) (b : BindingRow) (s : ConfigSnapshot)
    → all (leaves run_id) calls ≡ true
    → lookup run_id tables.run_snapshot_bindings ≡ some b
    → is_non_terminal b ≡ true
    → snapshot_for_run run_id tables ≡ ok s
    → snapshot_for_run run_id (after_calls calls tables) ≡ ok s
unfolding after_calls all
calls_keep_pinned [] tables run_id b s o k n h = h
calls_keep_pinned (call ∷ calls) tables run_id b s o k n h =
    elim (Result-cases (perform call tables)) [
      | inl (new, e) ↦ rw e (
          let seen = run-snapshot run_id b s tables k h in
          let kept =
            keep_pinned run_id b s tables k call new e
              (leaves-binding run_id call (ground (arith, o))) n seen in
          calls_keep_pinned calls new run_id b s (ground (arith, o)) (kept.0) n
            (snapshot-run run_id b s new (kept.0) (kept.1)))
      | inr (error, e) ↦ rw e (calls_keep_pinned calls tables run_id b s (ground (arith, o)) k n h)
    ]

stored-has_key :
    (tables : Tables) (id : String)
    → is_some ((view tables).snapshot id) ≡ true
    → has_key id tables.snapshots ≡ true
unfolding view
stored-has_key tables id h = elim (Option-cases (lookup id tables.snapshots)) [
  | inl e ↦ ground (arith, e)
  | inr (row, e) ↦ ground (arith, e)
]

-- Of two activations in a row that expect the same active snapshot, the second never succeeds once
-- the first has, if the active snapshot was stored: the first has replaced what both expect.
pub second_activation_conflicts :
    (call other : Activation) (fresh later_fresh : Fresh) (before after : Tables)
    (s : ConfigSnapshot)
    → IsPointed (view before)
    → expected_of other ≡ expected_of call
    → activate call fresh before ≡ ok (s, after)
    → (t : ConfigSnapshot) (last : Tables) → activate other later_fresh after ≢ ok (t, last)
second_activation_conflicts call other fresh later_fresh before after s p same h t last g =
    let done = activate-eq-ok call fresh before after s h in
    let (was, is, new, _, _) = activate_transaction-eq-ok call fresh before after done in
    let next = activate-eq-ok other later_fresh after last t g in
    let now = (activate_transaction-eq-ok other later_fresh after last next).0 in
    let at_start = active-view before fresh.snapshot_id (ground (arith, was, is, now, same)) in
    let stored = stored-has_key before fresh.snapshot_id (p.pointed fresh.snapshot_id at_start) in
    cc (new, stored)

-- A rollback that names no expected snapshot never succeeds while a snapshot is active.
pub rollback_needs_expectation :
    (tables : Tables) (active id actor rationale event_id : String) (now : ℕ) (s : ConfigSnapshot)
    (after : Tables)
    → load_active_snapshot_id tables ≡ ok (some active)
    → rollback id actor rationale none event_id now tables ≢ ok (s, after)
unfolding rollback
rollback_needs_expectation tables active id actor rationale event_id now s after a h =
    let (known, k, h1) = >>=-eq-ok (load_snapshot id tables) _ h in
    let (swap, c, h2) = >>=-eq-ok (cas_active_snapshot none id tables) _ h1 in
    let (was, is, _, _) = cas-eq-ok tables swap none id c in cc (a, was)
