-- ===== src/Security/Auth.antt =====
-- security/auth.py: roles, claims and the authorization of actions. Times are counted in seconds.
pub mod Laws
use multi_agent_langgraph.Base.{
  ℕ, ltb, leb, String, Bool, true, false, not, ◌&&◌, ◌||◌, Option, none, some, List, [], ◌∷◌, ◌<>◌,
  ◌==◌, string_key, if◌then◌else◌, contains, Result, ok, raise, ◌>>=◌, key_error, value_error,
  permission_error,
}
use multi_agent_langgraph.Base.Dict.{Dict, lookup, get_else}

pub data AuthRole : Type 0 where
  viewer operator admin super_admin : AuthRole

pub record AuthContext : Type 0 where
  pub subject_id : String
  pub tenant_id : String
  pub team_ids : List String
  pub role : AuthRole
  pub session_id : String
  pub expires_at : ℕ
  pub break_glass_grants : List String

pub record AuthorizationDecision : Type 0 where
  pub allowed : Bool
  pub reason : Option String

abbrev pub role_rank : AuthRole → ℕ
role_rank viewer = 0
role_rank operator = 1
role_rank admin = 2
role_rank super_admin = 3

abbrev pub is_super_admin : AuthRole → Bool
is_super_admin super_admin = true
is_super_admin viewer = false
is_super_admin operator = false
is_super_admin admin = false

abbrev pub auth_role_value : AuthRole → String
auth_role_value viewer = "viewer"
auth_role_value operator = "operator"
auth_role_value admin = "admin"
auth_role_value super_admin = "super-admin"

-- `AuthRole(value)`
unfoldable pub role_from : String → Result AuthRole
role_from value =
    if value == "viewer"
    then ok viewer
    else if value == "operator"
    then ok operator
    else if value == "admin"
    then ok admin
    else if value == "super-admin"
    then ok super_admin
    else raise (value_error ("'" <> value <> "' is not a valid AuthRole"))

-- The claims that are read, each as text, and the absent ones as `none`.
pub record RawClaims : Type 0 where
  pub sub : Option String
  pub tenant_id : Option String
  pub team_ids : Option (List String)
  pub role : Option String
  pub break_glass_grants : Option (List String)
  pub exp : Option ℕ
  pub sid : Option String

abbrev claim {ℓ} : {A : Type ℓ} → String → Option A → Result A
claim name none = raise (key_error name)
claim name (some a) = ok a

unfoldable pub map_claims : RawClaims → Result AuthContext
map_claims raw = do
  subject_id ← claim "sub" raw.sub
  tenant_id ← claim "tenant_id" raw.tenant_id
  expires_at ← claim "exp" raw.exp
  role ← role_from (get_else raw.role "viewer")
  ok (record {
    subject_id = subject_id;
    tenant_id = tenant_id;
    team_ids = get_else raw.team_ids [];
    role = role;
    session_id = get_else raw.sid ("session-" <> subject_id);
    expires_at = expires_at;
    break_glass_grants = get_else raw.break_glass_grants [];
  })

abbrev pub action_requirements : Dict String AuthRole
action_requirements =
    ("view_runs", viewer)
    ∷ ("operate_runs", operator)
    ∷ ("manage_config", admin)
    ∷ ("manage_credentials", admin)
    ∷ ("cross_tenant_admin", super_admin)
    ∷ []

abbrev pub refused : String → AuthorizationDecision
refused reason = record { allowed = false; reason = some reason }

abbrev pub granted : AuthorizationDecision
granted = record { allowed = true; reason = none }

-- A team was asked for that the subject is not in.
abbrev pub outside_team : AuthContext → Option String → Bool
outside_team context none = false
outside_team context (some team_id) =
    not (is_super_admin context.role) && not (contains team_id context.team_ids)

-- The checks after the session's, against the role that the action requires.
unfoldable pub decide :
    AuthContext → AuthRole → String → Option String → Bool → AuthorizationDecision
decide context required tenant_id team_id cross_tenant =
    if ltb (role_rank context.role) (role_rank required)
    then refused "insufficient_role"
    else if cross_tenant && not (is_super_admin context.role)
    then refused "cross_tenant_requires_super_admin"
    else if not cross_tenant && not (context.tenant_id == tenant_id)
    then refused "tenant_scope_violation"
    else if outside_team context team_id
    then refused "team_scope_violation"
    else granted

unfoldable pub authorize :
    AuthContext → String → String → Option String → Bool → ℕ → Result AuthorizationDecision
authorize context action tenant_id team_id cross_tenant now =
    if leb context.expires_at now then ok (refused "session_expired") else do
      required ← claim action (lookup action action_requirements)
      ok (decide context required tenant_id team_id cross_tenant)

-- The headers that `require_role` reads; `x_expires` only where it is a number.
pub record Headers : Type 0 where
  pub x_tenant_id : String
  pub x_team_id : String
  pub x_role : String
  pub x_subject : String
  pub x_session : String
  pub x_expires : Option ℕ

abbrev role_or_viewer : Result AuthRole → AuthRole
role_or_viewer (ok role) = role
role_or_viewer (raise error) = viewer

unfoldable pub get_auth_context : Headers → ℕ → Result AuthContext
get_auth_context headers now =
    if headers.x_subject == ""
    then raise (permission_error "401 missing_subject")
    else if headers.x_tenant_id == ""
    then raise (permission_error "401 missing_tenant")
    else ok (record {
      subject_id = headers.x_subject;
      tenant_id = headers.x_tenant_id;
      team_ids = if headers.x_team_id == "" then [] else headers.x_team_id ∷ [];
      role = role_or_viewer (role_from headers.x_role);
      session_id = headers.x_session;
      expires_at = get_else headers.x_expires now;
      break_glass_grants = [];
    })

unfoldable pub check_role : AuthRole → AuthContext → Result AuthContext
check_role minimum_role context =
    if ltb (role_rank context.role) (role_rank minimum_role)
    then raise (
        permission_error (
          "403 insufficient_role: requires "
          <> auth_role_value minimum_role
          <> ", got "
          <> auth_role_value context.role))
    else ok context

unfoldable pub require_role : AuthRole → Headers → ℕ → Result AuthContext
require_role minimum_role headers now = do
  context ← get_auth_context headers now
  check_role minimum_role context
