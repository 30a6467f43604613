-- ===== src/ControlPlane/Agents.antt =====
-- control_plane/agents.py: the configuration of the agents of the five roles.
pub mod Allowlist
use multi_agent_langgraph.Base.{
  ℕ, String, Bool, true, false, not, Option, none, some, List, [], ◌∷◌, ◌++◌, ◌<>◌, ◌==◌,
  string_key, if◌then◌else◌, contains, select, is_empty, append_if, sorted, join, map, Result, ok,
  raise, any, Error, value_error, key_error,
}
use multi_agent_langgraph.Base.Int.{ℤ, pos, less}
use multi_agent_langgraph.Base.Dict.{Dict, values, lookup, get_else}
use multi_agent_langgraph.Governance.Catalog.{
  RuntimeRole, planner, coder, tester, reviewer, pr_creator, role_value, role_key, Catalog,
  DeploymentProfile, ModelCatalogEntry, resolve_model, validate_fallback,
}

unfoldable pub runtime_role_tool_allowlist : RuntimeRole → List String
runtime_role_tool_allowlist planner =
    "jira_read" ∷ "repo_read" ∷ "checkpoint_read" ∷ "memory_read" ∷ "first_party_lookup"
    ∷ "bounded_research" ∷ []
runtime_role_tool_allowlist coder = "repo_write" ∷ "local_test" ∷ "build_tool" ∷ []
runtime_role_tool_allowlist tester =
    "test_run" ∷ "static_analysis" ∷ "artifact_read" ∷ "sandbox_control" ∷ []
runtime_role_tool_allowlist reviewer =
    "repo_read" ∷ "diff_analysis" ∷ "policy_check" ∷ "first_party_lookup" ∷ []
runtime_role_tool_allowlist pr_creator =
    "git_metadata" ∷ "pr_create" ∷ "jira_write" ∷ "final_policy_check" ∷ []

pub record AgentConfigVersion : Type 0 where
  pub agent_role : RuntimeRole
  pub model_id : String
  pub fallback_model_id : Option String
  pub system_prompt_ref : String
  pub allowed_tools : List String
  pub retry_limits : Dict String ℤ
  pub token_policy_ref : String

pub record AgentValidationResult : Type 0 where
  pub valid : Bool
  pub errors : List String

pub record AgentDryRunResult : Type 0 where
  pub allowed : Bool
  pub blocked_tools : List String
  pub errors : List String

-- `set(xs)`: each element once.
unfoldable pub unique : List String → List String
unique [] = []
unique (x ∷ xs) = let rest = unique xs in if contains x rest then rest else x ∷ rest

abbrev pub lacks : List String → String → Bool
lacks tools tool = not (contains tool tools)

-- `sorted(set(xs) - set(ys))`
unfoldable pub difference : List String → List String → List String
difference xs ys = sorted (select (lacks ys) (unique xs))

-- `errors.append(str(exc))` for a ValueError; another error goes on.
abbrev caught {ℓ} : {A : Type ℓ} → Result A → List String → Result (List String)
caught (ok a) errors = ok errors
caught (raise (value_error text)) errors = ok (errors ++ text ∷ [])
caught (raise error) errors = raise error

abbrev fallback_checked :
    Option String → String → DeploymentProfile → Catalog → List String → Result (List String)
fallback_checked none model_id profile catalog errors = ok errors
fallback_checked (some fallback) model_id profile catalog errors =
    caught (validate_fallback model_id fallback profile catalog) errors

abbrev negative : ℤ → Bool
negative limit = less limit (pos 0)

abbrev pub invalid_tools : AgentConfigVersion → List String
invalid_tools config =
    difference config.allowed_tools (runtime_role_tool_allowlist config.agent_role)

-- The checks that need no catalog.
unfoldable pub config_errors : AgentConfigVersion → List String → List String
config_errors config errors =
    append_if (config.token_policy_ref == "") "Token policy reference is required." (
      append_if (any negative (values config.retry_limits)) "Retry limits must be non-negative." (
        append_if (is_empty config.retry_limits) "Retry limits are required." (
          append_if (config.system_prompt_ref == "") "System prompt reference is required." (
            append_if (not (is_empty (invalid_tools config)))
              ("Role `"
                <> role_value config.agent_role
                <> "` cannot grant tools: "
                <> join ", " (invalid_tools config)
                <> ".")
              errors))))

abbrev result_of : List String → AgentValidationResult
result_of errors = record { valid = is_empty errors; errors = errors }

abbrev pub checked : AgentConfigVersion → Result (List String) → Result AgentValidationResult
checked config (raise error) = raise error
checked config (ok errors) = ok (result_of (config_errors config errors))

abbrev then_fallback :
    AgentConfigVersion → DeploymentProfile → Catalog → Result (List String) → Result (List String)
then_fallback config profile catalog (raise error) = raise error
then_fallback config profile catalog (ok errors) =
    fallback_checked config.fallback_model_id config.model_id profile catalog errors

unfoldable pub validate :
    AgentConfigVersion → DeploymentProfile → Catalog → Result AgentValidationResult
validate config profile catalog = checked config (
    then_fallback config profile catalog
      (caught (resolve_model config.model_id profile catalog) []))

abbrev pub dry_run_of :
    AgentConfigVersion → List String → Result AgentValidationResult → Result AgentDryRunResult
dry_run_of config requested (raise error) = raise error
dry_run_of config requested (ok validation) =
    if not validation.valid
    then ok (record { allowed = false; blocked_tools = []; errors = validation.errors })
    else ok (record {
      allowed = is_empty (difference requested config.allowed_tools);
      blocked_tools = difference requested config.allowed_tools;
      errors = [];
    })

unfoldable pub dry_run :
    AgentConfigVersion → List String → DeploymentProfile → Catalog → Result AgentDryRunResult
dry_run config requested_tools profile catalog =
    dry_run_of config requested_tools (validate config profile catalog)

abbrev default_models : Dict RuntimeRole String
default_models =
    (planner, "gpt-4.1")
    ∷ (coder, "gpt-4.1")
    ∷ (tester, "llama3.1")
    ∷ (reviewer, "gpt-4.1")
    ∷ (pr_creator, "gpt-4.1")
    ∷ []

abbrev default_retry_limits : RuntimeRole → Dict String ℤ
default_retry_limits planner = ("clarification", pos 2) ∷ []
default_retry_limits coder = ("implementation", pos 2) ∷ []
default_retry_limits tester = ("tests", pos 2) ∷ []
default_retry_limits reviewer = ("review", pos 1) ∷ []
default_retry_limits pr_creator = ("pre_pr", pos 1) ∷ []

abbrev default_config : RuntimeRole × String → AgentConfigVersion
default_config (role, model_id) = record {
  agent_role = role;
  model_id = model_id;
  fallback_model_id = none;
  system_prompt_ref = "prompts/" <> role_value role <> ".txt";
  allowed_tools = sorted (runtime_role_tool_allowlist role);
  retry_limits = default_retry_limits role;
  token_policy_ref = "token-policy/" <> role_value role;
}

-- `model_mapping or {...}`
abbrev mapping_of : Option (Dict RuntimeRole String) → Dict RuntimeRole String
mapping_of none = default_models
mapping_of (some []) = default_models
mapping_of (some mapping) = mapping

unfoldable pub default_agent_configs : Option (Dict RuntimeRole String) → List AgentConfigVersion
default_agent_configs model_mapping = map default_config (mapping_of model_mapping)
