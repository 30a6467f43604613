-- ===== src/ControlPlane/Postgres/Spec.antt =====
-- What a control plane store promises, apart from its tables: an active snapshot, snapshots under
-- their identifiers, runs bound to snapshots, and the changes that these may undergo.
use multi_agent_langgraph.Base.{
  ◌≡◌, ◌≢◌, String, true, Option, none, some, if◌then◌else◌, ◌==◌, string_key, arith, sym, ◌∙◌,
}
use multi_agent_langgraph.Base.Dict.{is_some}
use multi_agent_langgraph.ControlPlane.Tables.{ConfigSnapshot, BindingRow}
use multi_agent_langgraph.ControlPlane.Postgres.Runs.{is_non_terminal}

pub record View : Type 0 where
  pub active : Option String
  pub snapshot : String → Option ConfigSnapshot
  pub run : String → Option BindingRow

-- The snapshot is the active one, or a run that is not in a terminal state is bound to it.
pub data InUse (v : View) (id : String) : Type 0 where
  is_active : v.active ≡ some id → InUse v id
  is_bound :
      (run_id : String) (b : BindingRow)
      → v.run run_id ≡ some b
      → is_non_terminal b ≡ true
      → b.snapshot_id ≡ id
      → InUse v id

-- What is asked of a store: to move from an expected active snapshot to a new or to a stored one, to
-- bind a run, to clean up, or to create a version.
pub data Request : Type 0 where
  activating rolling_back : Option String → String → Request
  binding : String → Request
  cleaning versioning : Request

-- The change from one view to another that a request may make.
pub data Change (request : Request) (v w : View) : Type 0 where
  activated :
      (expected : Option String) (id : String) (s : ConfigSnapshot)
      → request ≡ activating expected id
      → v.active ≡ expected
      → v.snapshot id ≡ none
      → w.active ≡ some id
      → ((j : String) → w.snapshot j ≡ (if id == j then some s else v.snapshot j))
      → ((r : String) → w.run r ≡ v.run r)
      → Change request v w
  rolled_back :
      (expected : Option String) (id : String) (s : ConfigSnapshot)
      → request ≡ rolling_back expected id
      → v.active ≡ expected
      → v.snapshot id ≡ some s
      → w.active ≡ some id
      → ((j : String) → w.snapshot j ≡ v.snapshot j)
      → ((r : String) → w.run r ≡ v.run r)
      → Change request v w
  bound :
      (run_id : String) (b : BindingRow)
      → request ≡ binding run_id
      → w.active ≡ v.active
      → ((j : String) → w.snapshot j ≡ v.snapshot j)
      → ((r : String) → w.run r ≡ (if run_id == r then some b else v.run r))
      → Change request v w
  cleaned :
      request ≡ cleaning
      → w.active ≡ v.active
      → ((j : String) → InUse v j → w.snapshot j ≡ v.snapshot j)
      → ((r : String) (b : BindingRow)
          → v.run r ≡ some b
          → is_non_terminal b ≡ true
          → w.run r ≡ some b)
      → Change request v w
  unchanged :
      request ≡ versioning
      → w.active ≡ v.active
      → ((j : String) → w.snapshot j ≡ v.snapshot j)
      → ((r : String) → w.run r ≡ v.run r)
      → Change request v w

-- The active snapshot, if there is one, is stored.
pub record IsPointed (v : View) : Type 0 where
  pub pointed : (id : String) → v.active ≡ some id → is_some (v.snapshot id) ≡ true

module _ (request : Request) (v w : View) where
  pub IsPointed-Change : Change request v w → IsPointed v → IsPointed w
  IsPointed-Change (activated x id s q e0 n a t r) p = record {
    pointed = λ j e. ground (arith, a, t j, string_key.beq_iff id j);
  }
  IsPointed-Change (rolled_back x id s q e0 k a t r) p = record {
    pointed = λ j e. ground (arith, a, t j, k);
  }
  IsPointed-Change (bound run_id b o a t r) p = record {
    pointed = λ j e. ground (arith, a, t j, p.pointed j);
  }
  IsPointed-Change (cleaned q a t r) p = record {
    pointed = λ j e. ground (arith, a, t j (is_active (sym a ∙ e)), p.pointed j);
  }
  IsPointed-Change (unchanged q a t r) p = record {
    pointed = λ j e. ground (arith, a, t j, p.pointed j);
  }

  -- A snapshot in use is not touched.
  pub InUse-Change :
      (j : String) (s : ConfigSnapshot)
      → Change request v w
      → InUse v j
      → v.snapshot j ≡ some s
      → w.snapshot j ≡ some s
  InUse-Change j s (activated x id u q e0 n a t r) used k =
      ground (arith, t j, string_key.beq_iff id j)
  InUse-Change j s (rolled_back x id u q e0 n a t r) used k = t j ∙ k
  InUse-Change j s (bound run_id b o a t r) used k = t j ∙ k
  InUse-Change j s (cleaned q a t r) used k = t j used ∙ k
  InUse-Change j s (unchanged q a t r) used k = t j ∙ k

  -- Nor is the binding of a run that is not terminal, unless the change binds that run.
  pub run-Change :
      (run_id : String) (b : BindingRow)
      → Change request v w
      → request ≢ binding run_id
      → v.run run_id ≡ some b
      → is_non_terminal b ≡ true
      → w.run run_id ≡ some b
  run-Change run_id b (activated x id u q e0 n a t r) o k m = r run_id ∙ k
  run-Change run_id b (rolled_back x id u q e0 n a t r) o k m = r run_id ∙ k
  run-Change run_id b (bound other c e a t r) o k m =
      ground (arith, r run_id, string_key.beq_iff other run_id)
  run-Change run_id b (cleaned q a t r) o k m = r run_id b k m
  run-Change run_id b (unchanged q a t r) o k m = r run_id ∙ k
