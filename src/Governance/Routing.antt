-- ===== src/Governance/Routing.antt =====
-- governance/routing.py: `RuleBasedProviderRouter` over the model catalog and the health store.
pub mod Selection
use multi_agent_langgraph.Base.{
  ℕ, String, Bool, true, false, Option, none, some, List, [], Result, ok, raise, ◌>>=◌, ◌>>◌,
  key_error, provider_routing_error, if◌then◌else◌,
}
use multi_agent_langgraph.Base.Dict.{Dict, lookup, index}
use multi_agent_langgraph.Governance.Catalog.{
  Catalog, DeploymentProfile, ModelCatalogEntry, RuntimeRole, role_key, role_value, resolve_model,
  validate_fallback,
}
use multi_agent_langgraph.Governance.Health.{HealthStore, allow_request}

pub record RoleModelAssignment : Type 0 where
  pub role : RuntimeRole
  pub primary_model_id : String
  pub fallback_model_id : Option String

pub record ProviderSelection : Type 0 where
  pub provider_id : String
  pub model_id : String
  pub fallback_used : Bool

pub record Router : Type 0 where
  pub model_catalog : Catalog
  pub role_assignments : Dict RuntimeRole RoleModelAssignment

abbrev assignment_role : RoleModelAssignment → RuntimeRole
assignment_role assignment = assignment.role

unfoldable pub new : Catalog → List RoleModelAssignment → Router
new model_catalog assignments = record {
  model_catalog = model_catalog;
  role_assignments = index assignment_role assignments [];
}

abbrev assigned : Option RoleModelAssignment → RuntimeRole → Result RoleModelAssignment
assigned none role = raise (key_error (role_value role))
assigned (some assignment) role = ok assignment

abbrev fallback_entry :
    Option String → String → DeploymentProfile → Catalog → Result (Option ModelCatalogEntry)
fallback_entry none primary_model_id profile catalog = ok none
fallback_entry (some fallback_model_id) primary_model_id profile catalog = do
  validate_fallback primary_model_id fallback_model_id profile catalog
  fallback ← resolve_model fallback_model_id profile catalog
  ok (some fallback)

-- The primary model and the fallback, before any provider is asked.
unfoldable pub candidates :
    RuntimeRole → DeploymentProfile → Router → Result (ModelCatalogEntry × Option ModelCatalogEntry)
candidates role profile router = do
  assignment ← assigned (lookup role router.role_assignments) role
  primary ← resolve_model assignment.primary_model_id profile router.model_catalog
  fallback ←
      fallback_entry assignment.fallback_model_id assignment.primary_model_id profile
        router.model_catalog
  ok (primary, fallback)

abbrev selection : ModelCatalogEntry → Bool → ProviderSelection
selection entry fallback_used = record {
  provider_id = entry.provider_id;
  model_id = entry.model_id;
  fallback_used = fallback_used;
}

abbrev fall_back :
    ℕ → Option ModelCatalogEntry → HealthStore → Result ProviderSelection × HealthStore
fall_back now none health = (raise (provider_routing_error "provider_failover_exhausted"), health)
fall_back now (some fallback) health =
    let (admitted, asked) = allow_request now fallback.provider_id health in
    if admitted
    then (ok (selection fallback true), asked)
    else (raise (provider_routing_error "all_providers_unavailable"), asked)

abbrev choose :
    ℕ
    → ℕ
    → Result (ModelCatalogEntry × Option ModelCatalogEntry)
    → HealthStore
    → Result ProviderSelection × HealthStore
choose now next_now (raise e) health = (raise e, health)
choose now next_now (ok (primary, fallback)) health =
    let (admitted, asked) = allow_request now primary.provider_id health in
    if admitted then (ok (selection primary false), asked) else fall_back next_now fallback asked

-- `now` and `next_now` are what the clock gives to the first and the second `allow_request`.
unfoldable pub select_model :
    ℕ
    → ℕ
    → RuntimeRole
    → DeploymentProfile
    → Router
    → HealthStore
    → Result ProviderSelection × HealthStore
select_model now next_now role profile router health =
    choose now next_now (candidates role profile router) health
