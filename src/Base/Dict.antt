-- ===== src/Base/Dict.antt =====
-- Python's `dict`, in insertion order: a key that is there keeps its place when it is written.
use Prim.Native.Nat.{ℕ, ◌+◌}
use mathlib.Core.Path.{◌≡◌, refl}
use mathlib.Core.Bool.{Bool, true, false}
use mathlib.Core.Option.{Option, none, some}
use mathlib.Core.List.{List, [], ◌∷◌}
use native.Mathlib.Omega.{arith}
use multi_agent_langgraph.Base.Tests.{Eq, ◌==◌, if◌then◌else◌}

abbrev pub Dict {ℓ κ} : Type ℓ → Type κ → Type (ℓ ⊔ κ)
Dict K V = List (K × V)

module _ {κ} {V : Type κ} where
  -- `sum(f(v) for v in vs)`
  unfoldable pub sum_of : (V → ℕ) → List V → ℕ
  sum_of f [] = 0
  sum_of f (v ∷ vs) = f v + sum_of f vs

  abbrev pub at_found : (V → ℕ) → Option V → ℕ
  at_found f none = 0
  at_found f (some v) = f v

  abbrev pub is_some : Option V → Bool
  is_some none = false
  is_some (some v) = true

  abbrev pub get_else : Option V → V → V
  get_else none v = v
  get_else (some w) v = w

module _ {ℓ κ} {K : Type ℓ} {V : Type κ} ⦃eq : Eq K⦄ where
  -- `d.get(k)`
  unfoldable pub lookup : K → Dict K V → Option V
  lookup k [] = none
  lookup k ((j, v) ∷ d) = if j == k then some v else lookup k d

  -- `d[k] = v`
  unfoldable pub insert : K → V → Dict K V → Dict K V
  insert k v [] = (k, v) ∷ []
  insert k v ((j, w) ∷ d) = if j == k then (j, v) ∷ d else (j, w) ∷ insert k v d

  -- `del d[k]`
  unfoldable pub erase : K → Dict K V → Dict K V
  erase k [] = []
  erase k ((j, v) ∷ d) = let rest = erase k d in if j == k then rest else (j, v) ∷ rest

  -- `k in d`
  abbrev pub has_key : K → Dict K V → Bool
  has_key k d = is_some (lookup k d)

  -- `d.get(k, v)`
  abbrev pub get_or : K → Dict K V → V → V
  get_or k d v = get_else (lookup k d) v

  pub lookup-insert :
      (k j : K) (v : V) (d : Dict K V)
      → lookup j (insert k v d) ≡ (if k == j then some v else lookup j d)
  unfolding lookup insert
  lookup-insert k j v [] = refl
  lookup-insert k j v ((i, w) ∷ d) =
      ground (arith, eq.beq_iff k j, eq.beq_iff i k, eq.beq_iff i j, lookup-insert k j v d)

  pub lookup-insert_same : (k : K) (v : V) (d : Dict K V) → lookup k (insert k v d) ≡ some v
  lookup-insert_same k v d = ground (arith, lookup-insert k k v d, eq.beq_iff k k)

  pub lookup-erase :
      (k j : K) (d : Dict K V) → lookup j (erase k d) ≡ (if k == j then none else lookup j d)
  unfolding lookup erase
  lookup-erase k j [] = ground arith
  lookup-erase k j ((i, w) ∷ d) =
      ground (arith, eq.beq_iff k j, eq.beq_iff i k, eq.beq_iff i j, lookup-erase k j d)

  -- `{key(v): v for v in vs}`, and more so than `d` has already.
  unfoldable pub index : (V → K) → List V → Dict K V → Dict K V
  index key [] d = d
  index key (v ∷ vs) d = index key vs (insert (key v) v d)

  -- Where a dict built by a key has something, it stands under its own key.
  pub index-key :
      (key : V → K) (vs : List V) (d : Dict K V)
      → ((k : K) (v : V) → lookup k d ≡ some v → key v ≡ k)
      → (k : K) (v : V) → lookup k (index key vs d) ≡ some v
      → key v ≡ k
  unfolding index
  index-key key [] d h k v e = h k v e
  index-key key (w ∷ vs) d h k v e =
      index-key key vs (insert (key w) w d)
        (λ j u i. ground (arith, lookup-insert (key w) j w d, eq.beq_iff (key w) j, h j u)) k v e

module _ {ℓ κ} {K : Type ℓ} {V : Type κ} where
  -- `list(d.values())`
  abbrev pub values : Dict K V → List V
  values [] = []
  values ((k, v) ∷ d) = v ∷ values d

  pub sum_of-insert :
      ⦃eq : Eq K⦄ (f : V → ℕ) (k : K) (v : V) (d : Dict K V)
      → sum_of f (values (insert k v d)) + at_found f (lookup k d) ≡ sum_of f (values d) + f v
  unfolding insert lookup sum_of
  sum_of-insert f k v [] = omega arith
  sum_of-insert f k v ((j, w) ∷ d) = ground (arith, sum_of-insert f k v d)
