-- ===== src/Operations/Health.antt =====
-- persistence/health.py: `PersistenceHealthService`, with `MigrationStatus` of
-- persistence/migrations.py.
use multi_agent_langgraph.Base.{
  String, Bool, true, false, not, ◌&&◌, ◌||◌, Option, none, some, List, [], ◌++◌, ◌<>◌, ◌==◌,
  string_key, if◌then◌else◌, is_empty, append_if, sorted,
}
use multi_agent_langgraph.Base.Dict.{Dict, insert, erase, values}

pub record MigrationStatus : Type 0 where
  pub state : String
  pub current_revision : Option String
  pub expected_revision : Option String
  pub reason : Option String

pub record AdapterReadiness : Type 0 where
  pub name : String
  pub configured : Bool
  pub healthy : Bool

pub record ProbeResult : Type 0 where
  pub status : String
  pub reasons : List String

pub record PersistenceHealthSnapshot : Type 0 where
  pub database : AdapterReadiness
  pub redis : AdapterReadiness
  pub encryption : AdapterReadiness
  pub migration : Option MigrationStatus
  pub active_snapshot_id : Option String
  pub migration_revision : Option String
  pub capability_reasons : List String

pub record Health : Type 0 where
  pub database_ready : Bool
  pub redis_ready : Bool
  pub encryption_ready : Bool
  pub migration_status : Option MigrationStatus
  pub active_snapshot_id : Option String
  pub capability_reasons : Dict String String

abbrev adapter : String → Bool → AdapterReadiness
adapter name ready = record { name = name; configured = ready; healthy = ready }

abbrev revision_of : Option MigrationStatus → Option String
revision_of none = none
revision_of (some status) = status.current_revision

unfoldable pub snapshot : Health → PersistenceHealthSnapshot
snapshot health = record {
  database = adapter "database" health.database_ready;
  redis = adapter "redis" health.redis_ready;
  encryption = adapter "encryption" health.encryption_ready;
  migration = health.migration_status;
  active_snapshot_id = health.active_snapshot_id;
  migration_revision = revision_of health.migration_status;
  capability_reasons = sorted (values health.capability_reasons);
}

abbrev given : Option String → Bool
given none = false
given (some text) = true

unfoldable pub update_migration_status : MigrationStatus → Health → Health
update_migration_status status health = record health {
  migration_status = some status;
  database_ready = given status.current_revision || health.database_ready;
}

unfoldable pub update_active_snapshot_id : Option String → Health → Health
update_active_snapshot_id snapshot_id health = record health { active_snapshot_id = snapshot_id }

abbrev reason_or : Option String → String → String
reason_or none name = name <> "_not_ready"
reason_or (some reason) name = if reason == "" then name <> "_not_ready" else reason

unfoldable pub update_capability_probe : String → Bool → Option String → Health → Health
update_capability_probe name ready reason health =
    if ready
    then record health { capability_reasons = erase name health.capability_reasons }
    else record health {
      capability_reasons = insert name (reason_or reason name) health.capability_reasons;
    }

abbrev is_configured : Option MigrationStatus → Bool
is_configured none = false
is_configured (some status) = not (status.state == "not_configured")

abbrev probe : String → List String → ProbeResult
probe otherwise reasons = record {
  status = if is_empty reasons then "ok" else otherwise;
  reasons = reasons;
}

unfoldable pub liveness : Health → ProbeResult
liveness health = probe "degraded" (
    append_if (is_configured health.migration_status && not health.redis_ready) "redis_unhealthy" (
      append_if (is_configured health.migration_status && not health.database_ready)
        "database_unhealthy" []))

abbrev same_revision : Option String → Option String → Bool
same_revision none none = true
same_revision (some a) (some b) = a == b
same_revision _ _ = false

abbrev drifted : Option MigrationStatus → Bool
drifted none = false
drifted (some status) =
    not (status.state == "not_configured")
    && not (same_revision status.current_revision status.expected_revision)

abbrev no_snapshot : Option String → Bool
no_snapshot none = true
no_snapshot (some id) = id == ""

unfoldable pub readiness : Health → ProbeResult
readiness health = probe "not_ready" (
    append_if (health.database_ready && no_snapshot health.active_snapshot_id)
      "active_snapshot_missing"
      (append_if (drifted health.migration_status) "migration_drift" (
        append_if (is_configured health.migration_status && not health.database_ready)
          "database_unhealthy" []))
    ++ sorted (values health.capability_reasons))
