-- ===== src/Base/Exceptions.antt =====
-- Exceptions as values. The constructors are the exceptions that the modelled code raises.
use mathlib.Core.Path.{◌≡◌, refl}
use mathlib.Core.Logic.{◌⊎◌, inl, inr}
use Prim.Native.String.{String}

pub data Error : Type 0 where
  value_error : String → Error
  key_error : String → Error
  budget_exceeded : Error
  provider_routing_error : String → Error
  conflict_error : String → Error
  graph_recursion_error : Error
  invalid_graph : Error
  runtime_error : String → Error
  permission_error : String → Error
  validation_error : String → Error
  integrity_error : String → Error
  no_result_found : Error
  type_error : String → Error

pub data Result {ℓ} (A : Type ℓ) : Type ℓ where
  ok : A → Result A
  raise : Error → Result A

infixl 5 ◌>>=◌
abbrev pub ◌>>=◌ {κ μ} : {V : Type κ} {W : Type μ} → Result V → (V → Result W) → Result W
raise error >>= next = raise error
ok v >>= next = next v

-- A statement whose value nobody uses.
infixl 5 ◌>>◌
abbrev pub ◌>>◌ {μ} : {W : Type μ} → Result (Unit {0}) → Result W → Result W
raise error >> next = raise error
ok done >> next = next

-- What a chain that succeeds says of its first step.
pub >>=-eq-ok {κ μ} :
    {V : Type κ} {W : Type μ} (step : Result V) (next : V → Result W) {w : W}
    → (step >>= next) ≡ ok w
    → (v : V) × (step ≡ ok v) × (next v ≡ ok w)
>>=-eq-ok (raise error) next h = cc
>>=-eq-ok (ok v) next h = (v, refl, h)

pub Result-cases {ℓ} :
    {A : Type ℓ} (r : Result A) → ((a : A) × (r ≡ ok a)) ⊎ ((e : Error) × (r ≡ raise e))
Result-cases (ok a) = inl (a, refl)
Result-cases (raise e) = inr (e, refl)

pub >>-eq-ok {μ} :
    {W : Type μ} (step : Result (Unit {0})) (next : Result W) {w : W}
    → (step >> next) ≡ ok w
    → (step ≡ ok tt) × (next ≡ ok w)
>>-eq-ok (raise error) next h = cc
>>-eq-ok (ok done) next h = (refl, h)
