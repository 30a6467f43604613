-- ===== src/ControlPlane/Postgres/Calls/Refinement.antt =====
-- Every call that commits makes a change that the specification allows.
use multi_agent_langgraph.Base.{
  ℕ, ◌≡◌, inl, inr, refl, ap, sym, ◌∙◌, arith, String, true, Option, some, List, Result, ok, raise,
  ◌>>=◌, >>=-eq-ok, string_key, Option-cases, Bool-cases, contains, ◌&&◌,
}
use multi_agent_langgraph.Base.Dict.{Dict, lookup, lookup-insert, has_key}
use multi_agent_langgraph.Github.Json.{Fields}
use multi_agent_langgraph.ControlPlane.Tables.{
  Tables, ConfigSnapshot, ConfigKind, graph, agent, create_version, insert_version,
  insert_audit_event, with_versions, AuditEvent, VersionRow,
}
use multi_agent_langgraph.ControlPlane.Postgres.{
  Activation, Fresh, activate, rollback, load_active_snapshot_id, snapshot_from_row, load_snapshot,
  activate_transaction, cas_active_snapshot, activation_row, expected_of, rollback_event,
}
use multi_agent_langgraph.ControlPlane.Postgres.Runs.{
  pin_run_snapshot, update_run_status, cleanup_retired_snapshots, in_use, referenced_snapshot_ids,
}
use multi_agent_langgraph.ControlPlane.Postgres.Effects.{
  activate_transaction-eq-ok, cas-eq-ok, insert_audit_event-kept, load_active-ap, activate-eq-ok,
}
use multi_agent_langgraph.ControlPlane.Postgres.Cleanup.{
  cleanup_binding, cleanup_active, cleanup_exact, referenced-lookup,
}
use multi_agent_langgraph.ControlPlane.Postgres.Spec.{
  Change, activating, rolling_back, binding, cleaning, versioning, activated, rolled_back, bound,
  cleaned, unchanged, InUse, is_active, is_bound,
}
use multi_agent_langgraph.ControlPlane.Postgres.Calls.{
  Call, create_version_call, activate_call, rollback_call, pin_call, update_call, cleanup_call,
  perform, committed, view, request_of,
}

active-load :
    (tables : Tables) (active : Option String)
    → load_active_snapshot_id tables ≡ ok active
    → (view tables).active ≡ active
unfolding view load_active_snapshot_id
active-load tables active h = elim (Option-cases (lookup "global" tables.control_plane_state)) [
  | inl e ↦ ground (arith, e)
  | inr (row, e) ↦ ground (arith, e)
]

load-active :
    (tables : Tables) (id : String)
    → (view tables).active ≡ some id
    → load_active_snapshot_id tables ≡ ok (some id)
unfolding view load_active_snapshot_id
load-active tables id h = elim (Option-cases (lookup "global" tables.control_plane_state)) [
  | inl e ↦ ground (arith, e)
  | inr (row, e) ↦ ground (arith, e)
]

-- A snapshot that is read after the commit does not change what is committed.
read-committed {ℓ} :
    {A : Type ℓ} (found : Result A) (tables after : Tables)
    → committed (found >>= λ s. ok (s, tables)) ≡ ok after
    → tables ≡ after
read-committed (raise error) tables after h = cc
read-committed (ok s) tables after h = ground arith

returned {ℓ} :
    {A : Type ℓ} (value : A) (tables after : Tables) (r : A × Tables)
    → ok (value, tables) ≡ ok r
    → ok r.1 ≡ ok after
    → tables ≡ after
returned value tables after r h e = ground (arith, h, e)

ok_inj : (a b : Tables) → ok a ≡ ok b → a ≡ b
ok_inj a b h = cc

load_snapshot-read :
    (id : String) (tables : Tables) (s : ConfigSnapshot)
    → load_snapshot id tables ≡ ok s
    → (view tables).snapshot id ≡ some s
unfolding load_snapshot view
load_snapshot-read id tables s h = elim (Option-cases (lookup id tables.snapshots)) [
  | inl e ↦ ground (arith, e)
  | inr (row, e) ↦ ground (arith, e)
]

module _ (before after : Tables) where
  activate_transaction-Change :
      (call : Activation) (fresh : Fresh)
      → activate_transaction call fresh before ≡ ok after
      → Change (activating (expected_of call) fresh.snapshot_id) (view before) (view after)
  unfolding view
  activate_transaction-Change call fresh h =
      let (a, b, n, s, r) = activate_transaction-eq-ok call fresh before after h in
      let row = activation_row call fresh (expected_of call) in
      activated (expected_of call) fresh.snapshot_id (snapshot_from_row fresh.snapshot_id row) refl
        (active-load before (expected_of call) a)
        (elim (Option-cases (lookup fresh.snapshot_id before.snapshots)) [
          | inl e ↦ ground (arith, e)
          | inr (found, e) ↦ ground (arith, n, e)
        ])
        (active-load after (some fresh.snapshot_id) b)
        (λ j. ground (
          arith,
          s,
          lookup-insert fresh.snapshot_id j row before.snapshots,
          string_key.beq_iff fresh.snapshot_id j,
        ))
        (λ j. ap (lookup j) r)

  activate-Change :
      (call : Activation) (fresh : Fresh)
      → committed (activate call fresh before) ≡ ok after
      → Change (activating (expected_of call) fresh.snapshot_id) (view before) (view after)
  activate-Change call fresh h =
      let ((s, new), a, e) = >>=-eq-ok (activate call fresh before) _ h in
      activate_transaction-Change call fresh
        (activate-eq-ok call fresh before new s a ∙ ap ok (ok_inj new after e))

  rollback-steps :
      (id actor rationale : String) (expected : Option String) (event_id : String) (now : ℕ)
      (known : ConfigSnapshot) (swap : Tables)
      → load_snapshot id before ≡ ok known
      → cas_active_snapshot expected id before ≡ ok swap
      → insert_audit_event (rollback_event id actor rationale event_id now) swap ≡ ok after
      → Change (rolling_back expected id) (view before) (view after)
  unfolding view
  rollback-steps id actor rationale expected event_id now known swap k c e =
      let (was, is, s, r) = cas-eq-ok before swap expected id c in
      let kept = insert_audit_event-kept swap after _ e in
      rolled_back expected id known refl (active-load before expected was)
        (load_snapshot-read id before known k)
        (active-load after (some id) (load_active-ap swap after (ground (arith, kept)) ∙ is))
        (λ j. ground (arith, kept, s)) (λ j. ground (arith, kept, r))

  rollback-Change :
      (id actor rationale : String) (expected : Option String) (event_id : String) (now : ℕ)
      → committed (rollback id actor rationale expected event_id now before) ≡ ok after
      → Change (rolling_back expected id) (view before) (view after)
  unfolding rollback view
  rollback-Change id actor rationale expected event_id now h =
      let (r, c, e) = >>=-eq-ok (rollback id actor rationale expected event_id now before) _ h in
      let (known, k, h1) = >>=-eq-ok (load_snapshot id before) _ c in
      let (swap, w, h2) = >>=-eq-ok (cas_active_snapshot expected id before) _ h1 in
      let (new, i, h3) = >>=-eq-ok (insert_audit_event _ swap) _ h2 in
      let same = read-committed (load_snapshot id new) new after (ground (arith, h3, e)) in
      rollback-steps id actor rationale expected event_id now known swap k w (i ∙ ap ok same)

  pin-Change :
      (run_id snapshot_id status : String)
      → pin_run_snapshot run_id snapshot_id status before ≡ ok after
      → Change (binding run_id) (view before) (view after)
  unfolding pin_run_snapshot view
  pin-Change run_id snapshot_id status h =
      elim (Bool-cases (contains run_id before.runs && has_key snapshot_id before.snapshots)) [
        | inr e ↦ ground (arith, e, h)
        | inl e ↦
            bound run_id (record { snapshot_id = snapshot_id; status = status }) refl
              (ground (arith, e, h)) (λ j. ground (arith, e, h))
              (λ r. ground (
                arith,
                e,
                h,
                lookup-insert run_id r (record { snapshot_id = snapshot_id; status = status })
                    before.run_snapshot_bindings,
              ))
      ]

  update-Change :
      (run_id status : String)
      → update_run_status run_id status before ≡ ok after
      → Change (binding run_id) (view before) (view after)
  unfolding update_run_status view
  update-Change run_id status h = elim (Option-cases (lookup run_id before.run_snapshot_bindings)) [
    | inl e ↦ ground (arith, e)
    | inr (b, e) ↦
        bound run_id (record b { status = status }) refl (ground (arith, e, h))
          (λ j. ground (arith, e, h))
          (λ r. ground (
            arith,
            e,
            h,
            lookup-insert run_id r (record b { status = status }) before.run_snapshot_bindings,
          ))
  ]

  pub in_use-InUse :
      (active : Option String) (j : String)
      → load_active_snapshot_id before ≡ ok active
      → InUse (view before) j
      → in_use active (referenced_snapshot_ids before.run_snapshot_bindings) j ≡ true
  unfolding in_use view
  in_use-InUse active j a (is_active e) =
      ground (arith, a, load-active before j e, string_key.beq_iff j j)
  in_use-InUse active j a (is_bound run_id b k n e) =
      ground (arith, e, referenced-lookup run_id before.run_snapshot_bindings b k n)

  cleanup-steps :
      (deleted : List String) (active : Option String)
      → cleanup_retired_snapshots before ≡ ok (deleted, after)
      → load_active_snapshot_id before ≡ ok active
      → Change cleaning (view before) (view after)
  unfolding view
  cleanup-steps deleted active h a =
      cleaned refl
        (active-load after active (cleanup_active before after deleted active h a ∙ a)
          ∙ sym (active-load before active a))
        (λ j used.
          ground
            (arith, in_use-InUse active j a used, cleanup_exact before after deleted active h a j))
        (cleanup_binding before after deleted active h a)

  cleanup-Change :
      committed (cleanup_retired_snapshots before) ≡ ok after
      → Change cleaning (view before) (view after)
  unfolding cleanup_retired_snapshots
  cleanup-Change h =
      let ((deleted, new), c, e) = >>=-eq-ok (cleanup_retired_snapshots before) _ h in
      let (active, a, _) = >>=-eq-ok (load_active_snapshot_id before) _ c in
      cleanup-steps deleted active (c ∙ ap (λ t. ok (deleted, t)) (ok_inj new after e)) a

  create-steps :
      (kind : ConfigKind) (rows : Dict String VersionRow) (event : AuditEvent)
      → insert_audit_event event (with_versions kind rows before) ≡ ok after
      → Change versioning (view before) (view after)
  unfolding view
  create-steps graph rows event h =
      let kept = insert_audit_event-kept _ after event h in
      unchanged refl (ground (arith, kept)) (λ j. ground (arith, kept)) (λ j. ground (arith, kept))
  create-steps agent rows event h =
      let kept = insert_audit_event-kept _ after event h in
      unchanged refl (ground (arith, kept)) (λ j. ground (arith, kept)) (λ j. ground (arith, kept))

  create-Change :
      (kind : ConfigKind) (payload : Fields) (actor rationale record_id event_id : String) (now : ℕ)
      → committed (create_version kind payload actor rationale record_id event_id now before)
        ≡ ok after
      → Change versioning (view before) (view after)
  unfolding create_version
  create-Change kind payload actor rationale record_id event_id now h =
      let (r, c, e) = >>=-eq-ok (create_version _ _ _ _ _ _ _ before) _ h in
      let (rows, i, h1) = >>=-eq-ok (insert_version _ _ _) _ c in
      let (new, w, h2) = >>=-eq-ok (insert_audit_event _ _) _ h1 in
      create-steps kind rows _ (w ∙ ap ok (returned _ new after r h2 e))

-- Refinement: each call on the Postgres control plane store that commits makes the change that the
-- specification of the store allows for its request: an activation moves the active snapshot from
-- the expected one to a new one, a rollback from the expected one to a stored one, a pin or a status
-- changes the binding of its run only, a cleanup keeps the snapshots in use and the bindings of runs
-- that are not terminal, and a new version changes none of these.
pub perform-Change :
    (call : Call) (before after : Tables)
    → perform call before ≡ ok after
    → Change (request_of call) (view before) (view after)
unfolding perform
perform-Change (create_version_call kind payload actor rationale record_id event_id now) b a h =
    create-Change b a kind payload actor rationale record_id event_id now h
perform-Change (activate_call call fresh) b a h = activate-Change b a call fresh h
perform-Change (rollback_call id actor rationale expected event_id now) b a h =
    rollback-Change b a id actor rationale expected event_id now h
perform-Change (pin_call run_id snapshot_id status) b a h =
    pin-Change b a run_id snapshot_id status h
perform-Change (update_call run_id status) b a h = update-Change b a run_id status h
perform-Change cleanup_call b a h = cleanup-Change b a h
