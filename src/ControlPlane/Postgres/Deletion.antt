-- ===== src/ControlPlane/Postgres/Deletion.antt =====
-- The deletions of a cleanup against the foreign keys to snapshots.
use multi_agent_langgraph.Base.{
  ◌≡◌, refl, sym, ◌∙◌, subst, inl, inr, arith, String, Bool, true, false, Option, some, List, [],
  ◌∷◌, ok, raise, integrity_error, string_key, ◌==◌, Bool-cases, any,
}
use multi_agent_langgraph.Base.Dict.{Dict, lookup, has_key, values, lookup-erase}
use multi_agent_langgraph.ControlPlane.Tables.{Tables, SnapshotRow}
use multi_agent_langgraph.ControlPlane.Postgres.{load_active_snapshot_id}
use multi_agent_langgraph.ControlPlane.Postgres.Runs.{
  referenced_snapshot_ids, delete_snapshot, without_snapshot, delete_unused, supersedes, points_at,
  is_referenced,
}
use multi_agent_langgraph.ControlPlane.Postgres.Usage.{
  any-lookup, any-erase, any-delete_terminal, bound-delete_terminal, holds, used,
}

module _ (tables : Tables) (active : Option String)
    (a : load_active_snapshot_id tables ≡ ok active) where
  abbrev pub used_now : String → Bool
  used_now = used tables active a

  -- No foreign key of a row that stays holds an unused snapshot.
  pub record IsClear (t : Tables) : Type 0 where
    pub superseding :
        (id : String) → used_now id ≡ false → any (supersedes id) (values t.snapshots) ≡ false
    pub pointing :
        (id : String)
        → used_now id ≡ false
        → any (points_at id) (values t.control_plane_state) ≡ false
    pub binding :
        (id : String)
        → used_now id ≡ false
        → any (holds id) (values t.run_snapshot_bindings) ≡ false

  without_snapshot-IsClear : (j : String) (t : Tables) → IsClear t → IsClear (without_snapshot j t)
  unfolding without_snapshot
  without_snapshot-IsClear j t c = record {
    superseding = λ id u. any-erase (supersedes id) j t.snapshots (c.superseding id u);
    pointing = c.pointing;
    binding = λ id u. any-delete_terminal id j t.run_snapshot_bindings ∙ c.binding id u;
  }

  delete_clear :
      (j : String) (t : Tables)
      → IsClear t
      → used_now j ≡ false
      → delete_snapshot j t ≡ ok (without_snapshot j t)
  unfolding delete_snapshot is_referenced without_snapshot
  delete_clear j t c u =
      rw
        (
          any-erase (supersedes j) j t.snapshots (c.superseding j u),
          c.pointing j u,
          bound-delete_terminal j t.run_snapshot_bindings,
          c.binding j u,
        )
        refl

  pub clear_deletes :
      (rows : Dict String SnapshotRow) (t : Tables)
      → IsClear t
      → (r : List String × Tables) × (delete_unused active
            (referenced_snapshot_ids tables.run_snapshot_bindings)
            rows
            t
          ≡ ok r)
  unfolding delete_unused
  clear_deletes [] t c = (([], t), refl)
  clear_deletes ((j, row) ∷ rows) t c = elim (Bool-cases (used_now j)) [
    | inl u ↦ let (r, e) = clear_deletes rows t c in (r, rw (u, e) refl)
    | inr u ↦
        let (r, e) = clear_deletes rows (without_snapshot j t) (without_snapshot-IsClear j t c) in
        ((j ∷ r.0, r.1), rw (u, delete_clear j t c u, e) refl)
  ]

  stopped :
      (j : String) (t : Tables)
      → is_referenced j (without_snapshot j t) ≡ true
      → delete_snapshot j t ≡ raise (integrity_error "snapshots")
  unfolding delete_snapshot
  stopped j t q = rw q refl

  passed :
      (j : String) (t : Tables)
      → is_referenced j (without_snapshot j t) ≡ false
      → delete_snapshot j t ≡ ok (without_snapshot j t)
  unfolding delete_snapshot
  passed j t q = rw q refl

  module _ (id current : String) (row : SnapshotRow) (u : used_now id ≡ false)
      (v : used_now current ≡ true) (s : supersedes id row ≡ true) where
    survives :
        (j : String) (t : Tables)
        → used_now j ≡ false
        → lookup current t.snapshots ≡ some row
        → lookup current (without_snapshot j t).snapshots ≡ some row
    unfolding without_snapshot
    survives j t w l =
        let other : (j == current) ≡ false = elim (Bool-cases (j == current)) [
          | inr n ↦ n
          | inl e ↦ cc ((string_key.beq_iff j current).0 e, v, w)
        ] in
        ground (arith, l, other, lookup-erase j current t.snapshots)

    -- Deleting the superseded snapshot itself would be stopped.
    differs :
        (j : String) (t : Tables)
        → is_referenced j (without_snapshot j t) ≡ false
        → lookup current (without_snapshot j t).snapshots ≡ some row
        → (j == id) ≡ false
    unfolding is_referenced
    differs j t q l = elim (Bool-cases (j == id)) [
      | inr n ↦ n
      | inl e ↦
          let same_id = (string_key.beq_iff j id).0 e in
          let held =
            any-lookup (supersedes j) current (without_snapshot j t).snapshots row l
              (subst (λ i. supersedes i row ≡ true) (sym same_id) s) in
          ground (arith, q, held)
    ]

    -- A snapshot that supersedes an unused one stays, so that the unused one cannot be deleted.
    pub blocked :
        (rows : Dict String SnapshotRow) (t : Tables)
        → has_key id rows ≡ true
        → lookup current t.snapshots ≡ some row
        → delete_unused active (referenced_snapshot_ids tables.run_snapshot_bindings) rows t
          ≡ raise (integrity_error "snapshots")
    unfolding delete_unused lookup
    blocked [] t k l = cc
    blocked ((j, r) ∷ rows) t k l = elim (Bool-cases (used_now j)) [
      | inl w ↦
          let other : (j == id) ≡ false = elim (Bool-cases (j == id)) [
            | inr n ↦ n
            | inl e ↦ cc ((string_key.beq_iff j id).0 e, u, w)
          ] in
          let rest = blocked rows t (ground (arith, k, other)) l in rw (w, rest) refl
      | inr w ↦ elim (Bool-cases (is_referenced j (without_snapshot j t))) [
        | inl q ↦ rw (w, stopped j t q) refl
        | inr q ↦
            let kept = survives j t w l in
            let other = differs j t q kept in
            let rest = blocked rows (without_snapshot j t) (ground (arith, k, other)) kept in
            rw (w, passed j t q, rest) refl
      ]
    ]
