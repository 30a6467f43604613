-- ===== src/Base/Lists.antt =====
-- List functions and predicates over the native numbers and Boolean tests.
use Prim.Native.Nat.{ℕ, suc, ◌+◌}
use mathlib.Core.Path.{◌≡◌, refl, sym, subst}
use mathlib.Core.Logic.{◌⊎◌, inl, inr}
use mathlib.Core.Bool.{Bool, true, false, ◌&&◌, ◌||◌, not}
use mathlib.Core.List.{List, [], ◌∷◌, ◌++◌}
use native.Mathlib.Omega.{arith}
use multi_agent_langgraph.Base.Tests.{Eq, ◌==◌, if◌then◌else◌, Bool-cases}

module _ {ℓ} {A : Type ℓ} where
  abbrev pub length : List A → ℕ
  length [] = 0
  length (x ∷ xs) = suc (length xs)

  abbrev pub is_empty : List A → Bool
  is_empty [] = true
  is_empty (x ∷ xs) = false

  -- `[x for x in xs if p(x)]`
  unfoldable pub select : (A → Bool) → List A → List A
  select p [] = []
  select p (x ∷ xs) = let rest = select p xs in if p x then x ∷ rest else rest

  -- `any(p(x) for x in xs)` and `all(p(x) for x in xs)`
  unfoldable pub any : (A → Bool) → List A → Bool
  any p [] = false
  any p (x ∷ xs) = p x || any p xs

  unfoldable pub all : (A → Bool) → List A → Bool
  all p [] = true
  all p (x ∷ xs) = p x && all p xs

  -- Membership with its position kept, so that it can be matched.
  pub data In (a : A) : List A → Type ℓ where
    first : {xs : List A} → In a (a ∷ xs)
    later : {x : A} {xs : List A} → In a xs → In a (x ∷ xs)

  pub all-holds : (p : A → Bool) (xs : List A) (a : A) → all p xs ≡ true → In a xs → p a ≡ true
  unfolding all
  all-holds p [] a h m = elim m [ ]
  all-holds p (x ∷ xs) a h first = ground arith
  all-holds p (x ∷ xs) a h (later m) = all-holds p xs a (ground arith) m

In-kept {ℓ} :
    {A : Type ℓ} (p : A → Bool) (a x : A) (xs ys : List A)
    → (In a ys → In a xs × (p a ≡ true))
    → p x ≡ true
    → In a (x ∷ ys)
    → In a (x ∷ xs) × (p a ≡ true)
In-kept p a x xs ys old y first = (first, y)
In-kept p a x xs ys old y (later n) = let o = old n in (later o.0, o.1)

module _ {ℓ} {A : Type ℓ} (p : A → Bool) (a : A) where
  pub In-select : (xs : List A) → In a (select p xs) → In a xs × (p a ≡ true)
  unfolding select
  In-select [] m = elim m [ ]
  In-select (x ∷ xs) m = elim (Bool-cases (p x)) [
    | inl y ↦ In-kept p a x xs (select p xs) (λ n. In-select xs n) y (rw y at m)
    | inr n ↦ let old = In-select xs (rw n at m) in (later old.0, old.1)
  ]

  pub select-In : (xs : List A) → In a xs → p a ≡ true → In a (select p xs)
  unfolding select
  select-In [] m h = elim m [ ]
  select-In (x ∷ xs) first h = rw h first
  select-In (x ∷ xs) (later m) h = elim (Bool-cases (p x)) [
    | inl y ↦ rw y (later (select-In xs m h))
    | inr n ↦ rw n (select-In xs m h)
  ]

-- `a in xs`
unfoldable pub contains {ℓ} : {A : Type ℓ} ⦃e : Eq A⦄ → A → List A → Bool
contains a [] = false
contains a (x ∷ xs) = x == a || contains a xs

module _ {ℓ} {A : Type ℓ} ⦃e : Eq A⦄ where
  pub contains-In : (a : A) (xs : List A) → In a xs → contains a xs ≡ true
  unfolding contains
  contains-In a [] m = elim m [ ]
  contains-In a (x ∷ xs) first = ground (arith, e.beq_iff a a)
  contains-In a (x ∷ xs) (later m) = ground (arith, contains-In a xs m)

  pub In-contains : (a : A) (xs : List A) → contains a xs ≡ true → In a xs
  unfolding contains
  In-contains a [] h = cc
  In-contains a (x ∷ xs) h = elim (Bool-cases (x == a)) [
    | inl p ↦ subst (λ b. In a (b ∷ xs)) (sym ((e.beq_iff x a).0 p)) first
    | inr p ↦ later (In-contains a xs (ground arith))
  ]

module _ {ℓ} {A : Type ℓ} where
  pub In-append : (a : A) (xs ys : List A) → In a (xs ++ ys) → In a xs ⊎ In a ys
  In-append a [] ys m = inr m
  In-append a (x ∷ xs) ys first = inl first
  In-append a (x ∷ xs) ys (later m) = elim (In-append a xs ys m) [
    | inl l ↦ inl (later l)
    | inr r ↦ inr r
  ]

  pub any-append : (p : A → Bool) (xs ys : List A) → any p (xs ++ ys) ≡ (any p xs || any p ys)
  unfolding any
  any-append p [] ys = refl
  any-append p (x ∷ xs) ys = ground (arith, any-append p xs ys)

-- `sum(1 for x in xs if p(x))`
unfoldable pub count_if {ℓ} : {A : Type ℓ} → (A → Bool) → List A → ℕ
count_if p [] = 0
count_if p (x ∷ xs) = (if p x then 1 else 0) + count_if p xs

pub count_if-append {ℓ} :
    {A : Type ℓ} (p : A → Bool) (xs ys : List A)
    → count_if p (xs ++ ys) ≡ count_if p xs + count_if p ys
unfolding count_if
count_if-append p [] ys = omega arith
count_if-append p (x ∷ xs) ys = ground (arith, count_if-append p xs ys)

-- `if condition: xs.append(x)`
unfoldable pub append_if {ℓ} : {A : Type ℓ} → Bool → A → List A → List A
append_if condition x xs = if condition then xs ++ x ∷ [] else xs

is_empty-append {ℓ} : {A : Type ℓ} (x : A) (xs : List A) → is_empty (xs ++ x ∷ []) ≡ false
is_empty-append x [] = refl
is_empty-append x (y ∷ ys) = refl

pub is_empty-append_if {ℓ} :
    {A : Type ℓ} (condition : Bool) (x : A) (xs : List A)
    → is_empty (append_if condition x xs) ≡ (not condition && is_empty xs)
unfolding append_if
is_empty-append_if true x xs = is_empty-append x xs
is_empty-append_if false x xs = refl
