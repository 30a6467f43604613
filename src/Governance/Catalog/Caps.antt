-- ===== src/Governance/Catalog/Caps.antt =====
-- What the model catalog promises about its entries and token caps.
use multi_agent_langgraph.Base.{
  ◌≤◌, ◌≡◌, arith, String, Option, none, some, List, [], ok, Option-cases, Result-cases, inl, inr,
  pair_key, string_key,
}
use multi_agent_langgraph.Base.Dict.{lookup, index-key}
use multi_agent_langgraph.Governance.Catalog.{
  Catalog, DeploymentProfile, ModelCatalogEntry, RoleTokenPolicy, RuntimeRole, TokenCap, new,
  resolve_model, effective_token_cap, entry_key, profile_key, role_key,
}

resolve_model-lookup :
    (model_id : String) (profile : DeploymentProfile) (catalog : Catalog)
    (entry : ModelCatalogEntry)
    → resolve_model model_id profile catalog ≡ ok entry
    → lookup (model_id, profile) catalog.entries ≡ some entry
unfolding resolve_model
resolve_model-lookup model_id profile catalog entry h = ground arith

lookup-nil : (k : String × DeploymentProfile) (v : ModelCatalogEntry) → lookup k [] ≡ some v → ⊥
unfolding lookup
lookup-nil k v e = cc

-- What a catalog resolves has the name and the profile that were asked for.
pub resolve_model-new :
    (entries : List ModelCatalogEntry) (policies : List RoleTokenPolicy) (model_id : String)
    (profile : DeploymentProfile) (entry : ModelCatalogEntry)
    → resolve_model model_id profile (new entries policies) ≡ ok entry
    → entry_key entry ≡ (model_id, profile)
unfolding new
resolve_model-new entries policies model_id profile entry h =
    index-key entry_key entries [] (λ k v e. absurd (lookup-nil k v e)) (model_id, profile) entry
      (resolve_model-lookup model_id profile (new entries policies) entry h)

-- The cap that a tenant may lower.
abbrev pub IsWithinCap : Option TokenCap → TokenCap → Type 0
IsWithinCap none cap = Unit {0}
IsWithinCap (some tenant) cap =
    (cap.input_tokens ≤ tenant.input_tokens) × (cap.output_tokens ≤ tenant.output_tokens)

module _ (role : RuntimeRole) (model_id : String) (profile : DeploymentProfile) (catalog : Catalog)
    (cap : TokenCap) where
  effective_token_cap-IsWithinCap :
      (tenant : Option TokenCap) (entry : ModelCatalogEntry) (policy : RoleTokenPolicy)
      → resolve_model model_id profile catalog ≡ ok entry
      → lookup role catalog.role_token_policies ≡ some policy
      → effective_token_cap role model_id profile tenant catalog ≡ ok cap
      → IsWithinCap tenant cap
  unfolding effective_token_cap
  effective_token_cap-IsWithinCap none entry policy r p h = tt
  effective_token_cap-IsWithinCap (some t) entry policy r p h = (ground arith, ground arith)

-- An effective token cap is at most what the model takes, what the policy of the role allows and what
-- the tenant overrides, for input and for output tokens.
pub effective_token_cap-le :
    (role : RuntimeRole) (model_id : String) (profile : DeploymentProfile)
    (tenant : Option TokenCap) (catalog : Catalog) (cap : TokenCap)
    → effective_token_cap role model_id profile tenant catalog ≡ ok cap
    → (entry : ModelCatalogEntry) × (policy : RoleTokenPolicy) × (resolve_model model_id profile
          catalog
        ≡ ok entry)
      × (lookup role catalog.role_token_policies ≡ some policy)
      × (cap.input_tokens ≤ entry.max_input_tokens)
      × (cap.output_tokens ≤ entry.max_output_tokens)
      × (cap.input_tokens ≤ policy.max_input_tokens)
      × (cap.output_tokens ≤ policy.max_output_tokens)
      × IsWithinCap tenant cap
unfolding effective_token_cap
effective_token_cap-le role model_id profile tenant catalog cap h =
    elim (Result-cases (resolve_model model_id profile catalog)) [
      | inr (e, unknown) ↦ absurd (ground arith)
      | inl (entry, resolved) ↦ elim (Option-cases (lookup role catalog.role_token_policies)) [
        | inl missing ↦ absurd (ground arith)
        | inr (policy, there) ↦ (
          entry,
          policy,
          resolved,
          there,
          ground arith,
          ground arith,
          ground arith,
          ground arith,
          effective_token_cap-IsWithinCap role model_id profile catalog cap tenant entry policy
              resolved there h,
        )
      ]
    ]
