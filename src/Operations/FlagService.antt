-- ===== src/Operations/FlagService.antt =====
-- operations/feature_flag_service.py: `FeatureFlagService` over the client of Flags.
use multi_agent_langgraph.Base.{
  ℕ, ◌-◌, ◌/◌, leb, String, Bool, Option, none, some, List, [], ◌∷◌, ◌++◌, ◌==◌, string_key,
  if◌then◌else◌, Result, ok, ◌>>=◌, select,
}
use multi_agent_langgraph.Base.Dict.{Dict, insert, get_else}
use multi_agent_langgraph.Operations.Flags.{
  Client, KillSwitch, KillSwitchState, mandatory_kill_switches, is_enabled, get_kill_switch_state,
}
use multi_agent_langgraph.Operations.Flags

pub record FlagToggleRecord : Type 0 where
  pub flag_key : String
  pub previous_enabled : Bool
  pub new_enabled : Bool
  pub changed_by : String
  pub reason : Option String
  pub changed_at : ℕ

pub record StaleFlagAlert : Type 0 where
  pub flag_key : String
  pub owner : String
  pub days_since_modified : ℕ
  pub stale_threshold_days : ℕ

pub record Service : Type 0 where
  pub client : Client
  pub stale_threshold_days : ℕ
  pub audit_log : List FlagToggleRecord

unfoldable pub initialize : Service → Service
initialize service = record service { client = Flags.initialize service.client }

unfoldable pub close : Service → Service
close service = record service { client = Flags.close service.client }

unfoldable pub is_kill_switch_enabled : String → ℕ → Service → Result (KillSwitchState × Service)
is_kill_switch_enabled flag_key now service = do
  answer ← get_kill_switch_state flag_key now service.client
  ok (answer.0, record service { client = answer.1 })

-- The loop of `are_all_kill_switches_healthy`, with the states so far.
unfoldable pub states_of :
    Dict String KillSwitch
    → ℕ
    → Dict String KillSwitchState
    → Service
    → Result (Dict String KillSwitchState × Service)
states_of [] now states service = ok (states, service)
states_of ((flag_key, meta) ∷ switches) now states service = do
  answer ← is_kill_switch_enabled flag_key now service
  states_of switches now (insert flag_key answer.0 states) answer.1

unfoldable pub are_all_kill_switches_healthy :
    ℕ → Service → Result (Dict String KillSwitchState × Service)
are_all_kill_switches_healthy now service = states_of mandatory_kill_switches now [] service

unfoldable pub get_mandatory_kill_switches : Dict String KillSwitch
get_mandatory_kill_switches = mandatory_kill_switches

unfoldable pub toggle_flag :
    String → Bool → String → Option String → ℕ → Service → FlagToggleRecord × Service
toggle_flag flag_key enabled changed_by reason now service =
    let (previous, client) = is_enabled flag_key service.client in
    let toggle : FlagToggleRecord = record {
      flag_key = flag_key;
      previous_enabled = previous;
      new_enabled = enabled;
      changed_by = changed_by;
      reason = reason;
      changed_at = now;
    } in
    (toggle, record service { client = client; audit_log = service.audit_log ++ toggle ∷ [] })

abbrev of_flag : String → FlagToggleRecord → Bool
of_flag flag_key toggle = toggle.flag_key == flag_key

unfoldable pub get_audit_log : Option String → Service → List FlagToggleRecord
get_audit_log none service = service.audit_log
get_audit_log (some flag_key) service =
    if flag_key == "" then service.audit_log else select (of_flag flag_key) service.audit_log

-- A state dict of `detect_stale_flags`, its `last_modified_at` only where it is a `datetime`.
pub record FlagState : Type 0 where
  pub flag_key : String
  pub owner : Option String
  pub last_modified_at : Option ℕ

abbrev alert_if : ℕ → ℕ → FlagState → List StaleFlagAlert → List StaleFlagAlert
alert_if threshold days flag alerts =
    if leb threshold days
    then record {
      flag_key = flag.flag_key;
      owner = get_else flag.owner "unknown";
      days_since_modified = days;
      stale_threshold_days = threshold;
    }
      ∷ alerts
    else alerts

abbrev alerts_for : ℕ → ℕ → FlagState → Option ℕ → List StaleFlagAlert → List StaleFlagAlert
alerts_for threshold now flag none alerts = alerts
alerts_for threshold now flag (some modified) alerts =
    alert_if threshold ((now - modified) / 86400) flag alerts

unfoldable pub detect_stale_flags : List FlagState → ℕ → Service → List StaleFlagAlert
detect_stale_flags [] now service = []
detect_stale_flags (flag ∷ flags) now service =
    alerts_for service.stale_threshold_days now flag flag.last_modified_at
      (detect_stale_flags flags now service)
