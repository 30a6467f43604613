-- ===== src/Governance/Catalog.antt =====
-- governance/catalog.py and `InMemoryModelCatalog` of persistence/testing/governance.py.
pub mod Caps
use multi_agent_langgraph.Base.{
  ℕ, ◌≤◌, ◌≡◌, refl, arith, String, Bool, true, Option, none, some, List, [], ◌∷◌, ltb, ◌==◌, Eq,
  coded, nat_key, string_key, pair_key, if◌then◌else◌, contains, Result, ok, raise, ◌>>=◌, ◌>>◌,
  value_error, key_error, ◌<>◌,
}
use multi_agent_langgraph.Base.Dict.{Dict, lookup, index}

pub data DeploymentProfile : Type 0 where
  connected air_gapped : DeploymentProfile

pub data RuntimeRole : Type 0 where
  planner coder tester reviewer pr_creator : RuntimeRole

abbrev profile_value : DeploymentProfile → String
profile_value connected = "connected"
profile_value air_gapped = "air_gapped"

abbrev pub role_value : RuntimeRole → String
role_value planner = "planner"
role_value coder = "coder"
role_value tester = "tester"
role_value reviewer = "reviewer"
role_value pr_creator = "pr_creator"

abbrev profile_code : DeploymentProfile → ℕ
profile_code connected = 0
profile_code air_gapped = 1

abbrev profile_of : ℕ → DeploymentProfile
profile_of n = if ltb n 1 then connected else air_gapped

pub profile_of-profile_code : (p : DeploymentProfile) → profile_of (profile_code p) ≡ p
profile_of-profile_code connected = refl
profile_of-profile_code air_gapped = refl

instance abbrev pub profile_key : Eq DeploymentProfile
profile_key = coded profile_code profile_of profile_of-profile_code

abbrev role_code : RuntimeRole → ℕ
role_code planner = 0
role_code coder = 1
role_code tester = 2
role_code reviewer = 3
role_code pr_creator = 4

abbrev role_of : ℕ → RuntimeRole
role_of n =
    if ltb n 1
    then planner
    else if ltb n 2
    then coder
    else if ltb n 3
    then tester
    else if ltb n 4
    then reviewer
    else pr_creator

pub role_of-role_code : (r : RuntimeRole) → role_of (role_code r) ≡ r
role_of-role_code planner = refl
role_of-role_code coder = refl
role_of-role_code tester = refl
role_of-role_code reviewer = refl
role_of-role_code pr_creator = refl

instance abbrev pub role_key : Eq RuntimeRole
role_key = coded role_code role_of role_of-role_code

pub record TokenCap : Type 0 where
  pub input_tokens : ℕ
  pub output_tokens : ℕ

pub record ModelCatalogEntry : Type 0 where
  pub model_id : String
  pub provider_id : String
  pub deployment_profile : DeploymentProfile
  pub max_input_tokens : ℕ
  pub max_output_tokens : ℕ
  pub default_price_card_id : String
  pub supports_tools : Bool
  pub supports_json_mode : Bool
  pub supports_streaming : Bool
  pub allowed_fallback_targets : List String

pub record RoleTokenPolicy : Type 0 where
  pub role : RuntimeRole
  pub max_input_tokens : ℕ
  pub max_output_tokens : ℕ

pub record Catalog : Type 0 where
  pub entries : Dict (String × DeploymentProfile) ModelCatalogEntry
  pub role_token_policies : Dict RuntimeRole RoleTokenPolicy

abbrev pub entry_key : ModelCatalogEntry → String × DeploymentProfile
entry_key entry = (entry.model_id, entry.deployment_profile)

abbrev policy_role : RoleTokenPolicy → RuntimeRole
policy_role policy = policy.role

unfoldable pub new : List ModelCatalogEntry → List RoleTokenPolicy → Catalog
new entries role_token_policies = record {
  entries = index entry_key entries [];
  role_token_policies = index policy_role role_token_policies [];
}

abbrev known : Option ModelCatalogEntry → String → DeploymentProfile → Result ModelCatalogEntry
known (some entry) model_id profile = ok entry
known none model_id profile = raise (
    value_error (
      "Unknown model `"
      <> model_id
      <> "` for deployment profile `"
      <> profile_value profile
      <> "`."))

unfoldable pub resolve_model : String → DeploymentProfile → Catalog → Result ModelCatalogEntry
resolve_model model_id profile catalog =
    known (lookup (model_id, profile) catalog.entries) model_id profile

unfoldable pub validate_fallback : String → String → DeploymentProfile → Catalog → Result (Unit {0})
validate_fallback primary_model_id fallback_model_id profile catalog = do
  primary ← resolve_model primary_model_id profile catalog
  fallback ← resolve_model fallback_model_id profile catalog
  if contains fallback_model_id primary.allowed_fallback_targets
      then ok tt
      else raise (
          value_error (
            "Model `" <> fallback_model_id <> "` is not an allowed fallback for `"
            <> primary_model_id <> "`."))

abbrev least : ℕ → ℕ → ℕ
least a b = if ltb b a then b else a

abbrev overridden : Option TokenCap → TokenCap → TokenCap
overridden none cap = cap
overridden (some tenant) cap = record {
  input_tokens = least cap.input_tokens tenant.input_tokens;
  output_tokens = least cap.output_tokens tenant.output_tokens;
}

abbrev policy_for : Option RoleTokenPolicy → RuntimeRole → Result RoleTokenPolicy
policy_for none role = raise (key_error (role_value role))
policy_for (some policy) role = ok policy

unfoldable pub effective_token_cap :
    RuntimeRole → String → DeploymentProfile → Option TokenCap → Catalog → Result TokenCap
effective_token_cap role model_id profile tenant_override catalog = do
  entry ← resolve_model model_id profile catalog
  policy ← policy_for (lookup role catalog.role_token_policies) role
  ok (
      overridden tenant_override (record {
        input_tokens = least entry.max_input_tokens policy.max_input_tokens;
        output_tokens = least entry.max_output_tokens policy.max_output_tokens;
      }))
