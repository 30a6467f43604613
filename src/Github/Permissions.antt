-- ===== src/Github/Permissions.antt =====
-- integrations/github/permissions.py. `hashlib.sha256` of the canonical JSON is a parameter where a
-- hash is compared.
use multi_agent_langgraph.Base.{
  String, Bool, true, false, not, Option, none, some, List, [], ◌∷◌, ◌<>◌, ◌==◌, string_key,
  if◌then◌else◌, contains, select, is_empty, sorted,
}
use multi_agent_langgraph.Base.Dict.{Dict, lookup}

-- `GitHubPermission`, each member by its value.
abbrev pub github_permissions : List String
github_permissions =
    "contents:read" ∷ "contents:write" ∷ "pull_requests:write" ∷ "checks:write" ∷ "metadata:read"
    ∷ "statuses:read" ∷ "administration:read" ∷ []

unfoldable pub operation_permissions : Dict String (List String)
operation_permissions =
    ("create_pull_request", "contents:read" ∷ "pull_requests:write" ∷ "metadata:read" ∷ [])
    ∷ ("push_branch", "contents:write" ∷ "metadata:read" ∷ [])
    ∷ ("get_branch_protection", "administration:read" ∷ "metadata:read" ∷ [])
    ∷ ("create_check_run", "checks:write" ∷ "metadata:read" ∷ [])
    ∷ ("get_commit_status", "statuses:read" ∷ "metadata:read" ∷ [])
    ∷ []

abbrev pub minimum_required_permissions : List String
minimum_required_permissions =
    "contents:read" ∷ "pull_requests:write" ∷ "metadata:read" ∷ "administration:read"
    ∷ "contents:write" ∷ []

pub record PermissionCheckResult : Type 0 where
  pub allowed : Bool
  pub operation : String
  pub missing : List String
  pub reason : Option String

-- The permissions granted, those that `GitHubPermission` knows.
unfoldable pub granted_set : Dict String String → List String
granted_set [] = []
granted_set ((k, v) ∷ granted) =
    let rest = granted_set granted in
    let value = k <> ":" <> v in if contains value github_permissions then value ∷ rest else rest

abbrev ungranted : List String → String → Bool
ungranted granted permission = not (contains permission granted)

abbrev checked : String → List String → PermissionCheckResult
checked operation missing =
    if not (is_empty missing)
    then record {
      allowed = false;
      operation = operation;
      missing = missing;
      reason = some "missing_permissions";
    }
    else record { allowed = true; operation = operation; missing = []; reason = none }

abbrev check_required : String → Option (List String) → List String → PermissionCheckResult
check_required operation none granted = record {
  allowed = false;
  operation = operation;
  missing = [];
  reason = some "unknown_operation";
}
check_required operation (some required) granted =
    checked operation (sorted (select (ungranted granted) required))

unfoldable pub check_operation_permission : String → Dict String String → PermissionCheckResult
check_operation_permission operation granted_permissions =
    check_required operation (lookup operation operation_permissions)
      (granted_set granted_permissions)

unfoldable pub parse_github_permissions : Dict String String → Dict String String
parse_github_permissions [] = []
parse_github_permissions ((k, v) ∷ raw) =
    let rest = parse_github_permissions raw in if v == "none" then rest else (k, v) ∷ rest
