-- ===== src/Operations/Observability.antt =====
-- operations/observability.py: `ObservabilityCatalog`.
use multi_agent_langgraph.Base.{
  ℕ, String, Bool, true, false, ◌&&◌, Option, none, some, List, [], ◌∷◌, ◌++◌, if◌then◌else◌,
  string_key, Result, ok, raise, ◌>>=◌, value_error, key_error,
}
use multi_agent_langgraph.Base.Dict.{Dict, lookup, insert}

pub data IncidentSeverity : Type 0 where
  sev1 sev2 sev3 sev4 : IncidentSeverity

pub record LogEvent : Type 0 where
  pub timestamp : ℕ
  pub level : String
  pub service : String
  pub component : String
  pub tenant_id : Option String
  pub team_id : Option String
  pub run_id : Option String
  pub trace_id : Option String
  pub event_type : String
  pub message : String

pub record DashboardDefinition : Type 0 where
  pub dashboard_id : String
  pub title : String
  pub panels : List String

pub record RunbookReference : Type 0 where
  pub alert_name : String
  pub runbook_id : String
  pub pager_worthy : Bool

pub record StatusUpdate : Type 0 where
  pub component : String
  pub status : String
  pub message : String
  pub is_public : Bool

pub record IncidentRecord : Type 0 where
  pub incident_id : String
  pub severity : IncidentSeverity
  pub component : String
  pub summary : String
  pub runbook_id : Option String
  pub public_updates : List StatusUpdate

pub record Catalog : Type 0 where
  pub logs : List LogEvent
  pub dashboards : Dict String DashboardDefinition
  pub runbooks : Dict String RunbookReference
  pub incidents : Dict String IncidentRecord

unfoldable pub new : Catalog
new = record { logs = []; dashboards = []; runbooks = []; incidents = [] }

unfoldable pub emit_log : LogEvent → Catalog → Catalog
emit_log event catalog = record catalog { logs = catalog.logs ++ event ∷ [] }

unfoldable pub register_dashboard : DashboardDefinition → Catalog → Catalog
register_dashboard dashboard catalog = record catalog {
  dashboards = insert dashboard.dashboard_id dashboard catalog.dashboards;
}

unfoldable pub register_runbook : RunbookReference → Catalog → Catalog
register_runbook runbook catalog = record catalog {
  runbooks = insert runbook.alert_name runbook catalog.runbooks;
}

abbrev pub pages : IncidentSeverity → Bool
pages sev1 = true
pages sev2 = true
pages sev3 = false
pages sev4 = false

abbrev pub is_missing : Option String → Bool
is_missing none = true
is_missing (some id) = false

unfoldable pub record_incident : IncidentRecord → Catalog → Result Catalog
record_incident incident catalog =
    if pages incident.severity && is_missing incident.runbook_id
    then raise (value_error "Pager-worthy incidents must reference a runbook.")
    else ok (record catalog { incidents = insert incident.incident_id incident catalog.incidents })

abbrev known : String → Option IncidentRecord → Result IncidentRecord
known incident_id none = raise (key_error incident_id)
known incident_id (some incident) = ok incident

-- The incident in the dict is the object that the update is appended to.
unfoldable pub publish_status_update : String → StatusUpdate → Catalog → Result Catalog
publish_status_update incident_id update catalog = do
  incident ← known incident_id (lookup incident_id catalog.incidents)
  ok (record catalog {
    incidents =
        insert incident_id
          (record incident { public_updates = incident.public_updates ++ update ∷ [] })
          catalog.incidents;
  })
