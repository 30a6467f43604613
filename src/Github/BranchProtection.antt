-- ===== src/Github/BranchProtection.antt =====
-- integrations/github/branch_protection.py: what GitHub reports of a branch against what is required.
-- `is_enforce_mode` reads an environment variable; its answer is the verifier's `shadow_mode`.
pub mod Meaning
use multi_agent_langgraph.Base.{
  String, Bool, false, not, ◌&&◌, Option, none, some, List, [], ◌∷◌, ◌++◌, ◌<>◌, is_empty, join,
  if◌then◌else◌,
}
use multi_agent_langgraph.Github.Json.{
  Json, array, object, Items, nil, Fields, end, truthy, get, has_text,
}

pub record BranchProtectionConfig : Type 0 where
  pub required_status_checks : List String
  pub require_review : Bool
  pub require_signed_commits : Bool
  pub require_linear_history : Bool

pub record BranchProtectionResult : Type 0 where
  pub passed : Bool
  pub missing : List String
  pub shadow_mode : Bool
  pub repo_full_name : String
  pub branch : String
  pub evidence : String

-- `get_branch_protection(repo, branch, token, base_url)`; `none` is an exception.
abbrev pub BranchProtectionApi : Type 0
BranchProtectionApi = String → String → String → String → Option Fields

abbrev is_set : Option Json → Bool
is_set none = false
is_set (some value) = truthy value

-- `isinstance(value, dict) and value.get("enabled")`, with `{}` for a missing value.
abbrev is_enabled : Option Json → Bool
is_enabled (some (object fields)) = is_set (get "enabled" fields)
is_enabled _ = false

abbrev items_of : Option Json → Items
items_of (some (array items)) = items
items_of _ = nil

abbrev contexts_of : Option Json → Items
contexts_of (some (object fields)) = items_of (get "contexts" fields)
contexts_of _ = nil

abbrev when : Bool → String → List String
when b name = if b then name ∷ [] else []

missing_checks : Items → List String → List String
missing_checks configured [] = []
missing_checks configured (check ∷ checks) =
    let rest = missing_checks configured checks in
    if has_text check configured then rest else ("required_status_check:" <> check) ∷ rest

unfoldable pub find_missing_protections : Fields → BranchProtectionConfig → List String
unfolding missing_checks
find_missing_protections raw config =
    when (config.require_review && not (is_set (get "required_pull_request_reviews" raw)))
      "required_pull_request_reviews"
    ++ (when (config.require_signed_commits && not (is_enabled (get "required_signatures" raw)))
          "required_signatures"
        ++ (when
              (config.require_linear_history
                && not (is_enabled (get "required_linear_history" raw)))
              "required_linear_history"
            ++ missing_checks (contexts_of (get "required_status_checks" raw))
                config.required_status_checks))

unfoldable pub build_evidence : List String → Bool → String
build_evidence missing shadow_mode =
    if is_empty missing
    then "all_required_protections_present"
    else "missing_protections="
      <> join "," missing
      <> "; mode="
      <> (if shadow_mode then "shadow_logged" else "blocked")

abbrev missing_in : Option Fields → BranchProtectionConfig → List String
missing_in none config = "protection_fetch_failed" ∷ []
missing_in (some raw) config = find_missing_protections raw config

-- `BranchProtectionVerifier`
pub record Verifier : Type 0 where
  pub api : BranchProtectionApi
  pub shadow_mode : Bool

unfoldable pub verify :
    Verifier
    → (repo_full_name branch token base_url : String) → BranchProtectionConfig
    → BranchProtectionResult
verify verifier repo_full_name branch token base_url config =
    let missing = missing_in (verifier.api repo_full_name branch token base_url) config in
    record {
      passed = is_empty missing;
      missing = missing;
      shadow_mode = verifier.shadow_mode;
      repo_full_name = repo_full_name;
      branch = branch;
      evidence = build_evidence missing verifier.shadow_mode;
    }

-- `_NullBranchProtectionAPI`
abbrev pub null_api : BranchProtectionApi
null_api _ _ _ _ = some end
