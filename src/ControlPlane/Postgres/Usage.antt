-- ===== src/ControlPlane/Postgres/Usage.antt =====
-- Which snapshots the control plane uses, and what the foreign keys to a snapshot come to.
use multi_agent_langgraph.Base.{
  ◌≡◌, refl, ap, sym, ◌∙◌, inl, inr, arith, String, Bool, true, false, ◌&&◌, ◌||◌, Option, some,
  List, [], ◌∷◌, ok, string_key, ◌==◌, Bool-cases, contains, any, In, first, later,
}
use multi_agent_langgraph.Base.Dict.{Dict, lookup, values, erase}
use multi_agent_langgraph.ControlPlane.Tables.{Tables, SnapshotRow, BindingRow}
use multi_agent_langgraph.ControlPlane.Postgres.{load_active_snapshot_id, same}
use multi_agent_langgraph.ControlPlane.Postgres.Runs.{
  is_non_terminal, referenced_snapshot_ids, delete_terminal_bindings, in_use, is_bound_to,
}
use multi_agent_langgraph.ControlPlane.Postgres.Effects.{same_iff}

-- The snapshot is the active one, or that of a run in a state that is not terminal.
pub data IsUsed (tables : Tables) (id : String) : Type 0 where
  by_all : load_active_snapshot_id tables ≡ ok (some id) → IsUsed tables id
  by_run :
      (binding : BindingRow)
      → In binding (values tables.run_snapshot_bindings)
      → is_non_terminal binding ≡ true
      → binding.snapshot_id ≡ id
      → IsUsed tables id

pub any-In {ℓ} :
    {A : Type ℓ} (p : A → Bool) (xs : List A) → any p xs ≡ true → (x : A) × In x xs × (p x ≡ true)
unfolding any
any-In p [] h = cc
any-In p (x ∷ xs) h = elim (Bool-cases (p x)) [
  | inl e ↦ (x, first, e)
  | inr e ↦ let (y, m, k) = any-In p xs (ground (arith, h, e)) in (y, later m, k)
]

pub any-lookup :
    (p : SnapshotRow → Bool) (k : String) (rows : Dict String SnapshotRow) (row : SnapshotRow)
    → lookup k rows ≡ some row
    → p row ≡ true
    → any p (values rows) ≡ true
unfolding any lookup
any-lookup p k [] row h e = cc
any-lookup p k ((j, r) ∷ rows) row h e = elim (Bool-cases (j == k)) [
  | inl i ↦ ground (arith, h, e, i)
  | inr i ↦ ground (arith, h, i, any-lookup p k rows row, e)
]

pub any-erase :
    (p : SnapshotRow → Bool) (k : String) (rows : Dict String SnapshotRow)
    → any p (values rows) ≡ false
    → any p (values (erase k rows)) ≡ false
unfolding any erase
any-erase p k [] h = refl
any-erase p k ((j, r) ∷ rows) h = ground (arith, h, any-erase p k rows)

-- The binding of a run in a state that is not terminal to the snapshot.
abbrev pub holds : String → BindingRow → Bool
holds id binding = binding.snapshot_id == id && is_non_terminal binding

contains-cons :
    (id x : String) (xs : List String) → contains id (x ∷ xs) ≡ (x == id || contains id xs)
unfolding contains
contains-cons id x xs = ground arith

contains-none : (id : String) → contains id [] ≡ false
unfolding contains
contains-none id = refl

contains-referenced :
    (id : String) (bindings : Dict String BindingRow)
    → contains id (referenced_snapshot_ids bindings) ≡ any (holds id) (values bindings)
unfolding referenced_snapshot_ids any
contains-referenced id [] = contains-none id
contains-referenced id ((r, b) ∷ bindings) = elim (Bool-cases (is_non_terminal b)) [
  | inl n ↦ rw n (
      ground (
        arith,
        contains-cons id b.snapshot_id (referenced_snapshot_ids bindings),
        contains-referenced id bindings,
      ))
  | inr n ↦ rw n (ground (arith, contains-referenced id bindings))
]

pub any-delete_terminal :
    (id j : String) (bindings : Dict String BindingRow)
    → any (holds id) (values (delete_terminal_bindings j bindings))
      ≡ any (holds id) (values bindings)
unfolding any delete_terminal_bindings
any-delete_terminal id j [] = refl
any-delete_terminal id j ((r, b) ∷ bindings) = ground (arith, any-delete_terminal id j bindings)

pub bound-delete_terminal :
    (id : String) (bindings : Dict String BindingRow)
    → any (is_bound_to id) (values (delete_terminal_bindings id bindings))
      ≡ any (holds id) (values bindings)
unfolding any delete_terminal_bindings
bound-delete_terminal id [] = refl
bound-delete_terminal id ((r, b) ∷ bindings) = ground (arith, bound-delete_terminal id bindings)

module _ (tables : Tables) (active : Option String)
    (a : load_active_snapshot_id tables ≡ ok active) where
  abbrev pub used : String → Bool
  used = in_use active (referenced_snapshot_ids tables.run_snapshot_bindings)

  pub used-IsUsed : (id : String) → used id ≡ true → IsUsed tables id
  unfolding in_use
  used-IsUsed id h = elim (Bool-cases (same (some id) active)) [
    | inl e ↦ by_all (a ∙ ap ok (sym (same_iff (some id) active e)))
    | inr e ↦
        let (b, m, k) =
          any-In (holds id) (values tables.run_snapshot_bindings)
            (ground (arith, h, e, contains-referenced id tables.run_snapshot_bindings)) in
        by_run b m (ground (arith, k)) (ground (arith, k, string_key.beq_iff b.snapshot_id id))
  ]

  any-holds :
      (id : String) (b : BindingRow) (bindings : List BindingRow)
      → In b bindings
      → holds id b ≡ true
      → any (holds id) bindings ≡ true
  unfolding any
  any-holds id b [] m h = elim m [ ]
  any-holds id b (x ∷ bindings) first h = ground (arith, h)
  any-holds id b (x ∷ bindings) (later m) h = ground (arith, any-holds id b bindings m h)

  pub IsUsed-used : (id : String) → IsUsed tables id → used id ≡ true
  unfolding in_use
  IsUsed-used id (by_all h) = ground (arith, a, h, string_key.beq_iff id id)
  IsUsed-used id (by_run b m n e) = ground (
    arith,
    contains-referenced id tables.run_snapshot_bindings,
    any-holds id b (values tables.run_snapshot_bindings) m
        (ground (arith, n, e, string_key.beq_iff b.snapshot_id id)),
  )
