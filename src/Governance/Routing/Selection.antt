-- ===== src/Governance/Routing/Selection.antt =====
-- Which model the provider router selects.
use multi_agent_langgraph.Base.{
  ℕ, ◌≡◌, refl, arith, String, true, false, not, Option, none, some, ok, subst, Option-cases,
  Result-cases, inl, inr, contains, string_key,
}
use multi_agent_langgraph.Base.Dict.{lookup}
use multi_agent_langgraph.Governance.Catalog.{
  DeploymentProfile, ModelCatalogEntry, RuntimeRole, role_key, resolve_model, validate_fallback,
}
use multi_agent_langgraph.Governance.Health.{HealthStore, allow_request}
use multi_agent_langgraph.Governance.Routing.{
  RoleModelAssignment, ProviderSelection, Router, candidates, select_model, fallback_entry,
}

-- The primary model of an assignment and its fallback, if it has one: both are in the catalog for the
-- profile, and the primary model names the fallback as an allowed target.
pub record IsCandidate (role : RuntimeRole) (profile : DeploymentProfile) (router : Router)
    (primary : ModelCatalogEntry) (fallback : Option ModelCatalogEntry) : Type 0 where
  pub assignment : RoleModelAssignment
  pub is_assigned : lookup role router.role_assignments ≡ some assignment
  pub resolved : resolve_model assignment.primary_model_id profile router.model_catalog ≡ ok primary
  pub allowed :
      (target : ModelCatalogEntry)
      → fallback ≡ some target
      → (target_id : String) × (assignment.fallback_model_id ≡ some target_id)
        × (resolve_model target_id profile router.model_catalog ≡ ok target)
        × (contains target_id primary.allowed_fallback_targets ≡ true)

module _ (role : RuntimeRole) (profile : DeploymentProfile) (router : Router) where
  validate_fallback-contains :
      (primary_id target_id : String) (primary : ModelCatalogEntry)
      → resolve_model primary_id profile router.model_catalog ≡ ok primary
      → validate_fallback primary_id target_id profile router.model_catalog ≡ ok tt
      → contains target_id primary.allowed_fallback_targets ≡ true
  unfolding validate_fallback
  validate_fallback-contains primary_id target_id primary resolved h =
      ground (arith, Result-cases (resolve_model target_id profile router.model_catalog))

  fallback_entry-allowed :
      (fallback_id : Option String) (primary_id : String) (primary target : ModelCatalogEntry)
      → resolve_model primary_id profile router.model_catalog ≡ ok primary
      → fallback_entry fallback_id primary_id profile router.model_catalog ≡ ok (some target)
      → (target_id : String) × (fallback_id ≡ some target_id)
        × (resolve_model target_id profile router.model_catalog ≡ ok target)
        × (contains target_id primary.allowed_fallback_targets ≡ true)
  fallback_entry-allowed none primary_id primary target resolved h = cc
  fallback_entry-allowed (some target_id) primary_id primary target resolved h =
      elim (Result-cases (validate_fallback primary_id target_id profile router.model_catalog)) [
        | inr (e, bad) ↦ absurd (ground arith)
        | inl (done, valid) ↦ (
          target_id,
          refl,
          ground (arith, Result-cases (resolve_model target_id profile router.model_catalog)),
          validate_fallback-contains primary_id target_id primary resolved valid,
        )
      ]

  candidates-IsCandidate :
      (primary : ModelCatalogEntry) (fallback : Option ModelCatalogEntry)
      → candidates role profile router ≡ ok (primary, fallback)
      → IsCandidate role profile router primary fallback
  unfolding candidates
  candidates-IsCandidate primary fallback h =
      elim (Option-cases (lookup role router.role_assignments)) [
        | inl missing ↦ absurd (ground arith)
        | inr (assignment, there) ↦
            let primary_id = assignment.primary_model_id in
            elim (Result-cases (resolve_model primary_id profile router.model_catalog)) [
              | inr (e, unknown) ↦ absurd (ground arith)
              | inl (entry, resolved) ↦ candidates_of assignment there (ground arith) (
                  ground (
                    arith,
                    Result-cases (
                        fallback_entry assignment.fallback_model_id primary_id profile
                          router.model_catalog),
                  ))
            ]
      ]
    where
      candidates_of :
          (assignment : RoleModelAssignment)
          → lookup role router.role_assignments ≡ some assignment
          → resolve_model assignment.primary_model_id profile router.model_catalog ≡ ok primary
          → fallback_entry assignment.fallback_model_id assignment.primary_model_id profile
              router.model_catalog
            ≡ ok fallback
          → IsCandidate role profile router primary fallback
      candidates_of assignment there resolved f = record {
        assignment = assignment;
        is_assigned = there;
        resolved = resolved;
        allowed = λ target e.
            fallback_entry-allowed assignment.fallback_model_id assignment.primary_model_id primary
              target resolved
              (subst
                (λ o.
                  fallback_entry assignment.fallback_model_id assignment.primary_model_id profile
                    router.model_catalog
                  ≡ ok o)
                e f);
      }

  -- When the router selects a model, it is a candidate that the health store let through: the primary
  -- model, whose provider was admitted, or else the fallback, whose provider was admitted after the
  -- primary's was refused.
  pub select_model-IsCandidate :
      (now next_now : ℕ) (health : HealthStore) (s : ProviderSelection)
      → (select_model now next_now role profile router health).0 ≡ ok s
      → (primary : ModelCatalogEntry) × (fallback : Option ModelCatalogEntry) × IsCandidate role
          profile router primary fallback
        × ((allow_request now primary.provider_id health).0 ≡ not s.fallback_used)
        × (s.fallback_used ≡ false
            → (s.provider_id ≡ primary.provider_id) × (s.model_id ≡ primary.model_id))
        × (s.fallback_used ≡ true
            → (target : ModelCatalogEntry) × (fallback ≡ some target)
              × (s.provider_id ≡ target.provider_id)
              × (s.model_id ≡ target.model_id)
              × ((allow_request next_now target.provider_id
                    (allow_request now primary.provider_id health).1).0
                  ≡ true))
  unfolding select_model
  select_model-IsCandidate now next_now health s h =
      elim (Result-cases (candidates role profile router)) [
        | inr (e, bad) ↦ absurd (ground arith)
        | inl ((primary, fallback), c) ↦ (
          primary,
          fallback,
          candidates-IsCandidate primary fallback c,
          ground arith,
          λ first. (ground arith, ground arith),
          λ second. elim (Option-cases fallback) [
            | inl no_fallback ↦ absurd (ground arith)
            | inr (target, e) ↦ (target, e, ground arith, ground arith, ground arith)
          ],
        )
      ]
