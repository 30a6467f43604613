-- ===== src/Operations/StatusPage.antt =====
-- operations/status_page.py. The metrics are those that `_parse_prometheus_metrics` reads, counted
-- in thousandths.
pub mod Worst
use multi_agent_langgraph.Base.{
  ℕ, ltb, leb, String, Bool, true, false, List, [], ◌∷◌, ◌<>◌, ◌==◌, string_key, if◌then◌else◌,
}
use multi_agent_langgraph.Base.Dict.{Dict, get_or}
use multi_agent_langgraph.Operations.Health.{
  Health, AdapterReadiness, ProbeResult, PersistenceHealthSnapshot, snapshot as health_snapshot,
  readiness, liveness,
}

pub data PublicComponentStatus : Type 0 where
  operational degraded partial_outage major_outage : PublicComponentStatus

pub record PublicStatusComponent : Type 0 where
  pub component : String
  pub status : PublicComponentStatus
  pub message : String

pub record PublicStatusPage : Type 0 where
  pub generated_at : ℕ
  pub status : PublicComponentStatus
  pub components : List PublicStatusComponent

abbrev component_of : String → PublicComponentStatus → String → PublicStatusComponent
component_of component status message = record {
  component = component;
  status = status;
  message = message;
}

unfoldable pub adapter_component : String → Bool → Bool → PublicStatusComponent
adapter_component component configured healthy =
    if healthy
    then component_of component operational (component <> " adapter is healthy.")
    else if configured
    then component_of component major_outage (component <> " adapter is configured but unhealthy.")
    else component_of component degraded
        (component <> " adapter is not configured in this profile.")

unfoldable pub worker_component : Dict String ℕ → PublicStatusComponent
worker_component metrics =
    let dlq_depth = get_or "devsquad_dlq_depth" metrics 0 in
    if leb 100000 dlq_depth
    then component_of "workers" partial_outage
        "Worker dead-letter queue growth indicates failed processing."
    else if ltb 0 dlq_depth
    then component_of "workers" degraded "Worker dead-letter queue has pending failures."
    else component_of "workers" operational
        "Worker queue signals are within public status thresholds."

unfoldable pub provider_routing_component : Dict String ℕ → PublicStatusComponent
provider_routing_component metrics =
    let circuit_state = get_or "devsquad_provider_circuit_breaker_state" metrics 0 in
    if leb 2000 circuit_state
    then component_of "provider_routing" partial_outage "Provider routing circuit breaker is open."
    else if ltb 0 circuit_state
    then component_of "provider_routing" degraded
        "Provider routing circuit breaker is probing recovery."
    else component_of "provider_routing" operational
        "Provider routing is within public status thresholds."

abbrev pub order : PublicComponentStatus → ℕ
order operational = 0
order degraded = 1
order partial_outage = 2
order major_outage = 3

-- `max(statuses, key=...)` keeps the first of the greatest.
unfoldable pub worst_from :
    PublicComponentStatus → List PublicStatusComponent → PublicComponentStatus
worst_from status [] = status
worst_from status (c ∷ cs) =
    worst_from (if ltb (order status) (order c.status) then c.status else status) cs

abbrev is_ok : ProbeResult → Bool
is_ok probe = probe.status == "ok"

unfoldable pub api_status : Health → PublicComponentStatus
api_status health =
    if is_ok (liveness health)
    then (if is_ok (readiness health) then operational else degraded)
    else major_outage

-- `snapshot`, the components but the first.
unfoldable pub other_components : Health → Dict String ℕ → List PublicStatusComponent
other_components health metrics =
    let page = health_snapshot health in
    worker_component metrics
    ∷ adapter_component "database" page.database.configured page.database.healthy
    ∷ adapter_component "redis" page.redis.configured page.redis.healthy
    ∷ provider_routing_component metrics
    ∷ component_of "sandbox_runtime" operational
        "Sandbox runtime has no active public incident signal."
    ∷ component_of "persistence_backbone"
        (if is_ok (readiness health) then operational else degraded)
        "Persistence readiness is reported through health probes."
    ∷ []

unfoldable pub snapshot : Health → Dict String ℕ → ℕ → PublicStatusPage
snapshot health metrics now = record {
  generated_at = now;
  status = worst_from (api_status health) (other_components health metrics);
  components =
      component_of "api" (api_status health) "API health and readiness probes are available."
      ∷ other_components health metrics;
}
