-- ===== src/Operations/Examples.antt =====
-- Runs of the operation policies on small inputs.
use multi_agent_langgraph.Base.{
  ◌≡◌, refl, String, Bool, true, false, none, some, List, [], ◌∷◌, ok, map, select, string_key, In,
  first, append_if, all,
}
use multi_agent_langgraph.Base.Dict.{Dict, lookup, insert}
use multi_agent_langgraph.Operations.Retention.{
  DataCategory, audit, memory, category_key, RetentionPolicy, StoredRecord, ComplianceEvidence,
  should_delete, cleanup_record, cleanup_records, execute_cleanup,
}
use multi_agent_langgraph.Operations.Retention.Cleanup.{goes, id_of, covered, execute_cleanup-goes}
use multi_agent_langgraph.Operations.Health.{Health, liveness}
use multi_agent_langgraph.Operations.StatusPage.{
  PublicStatusComponent, major_outage, snapshot, api_status,
}
use multi_agent_langgraph.Operations.StatusPage.Worst.{major_outage_only_api}

abbrev policy : DataCategory → RetentionPolicy
policy category = record {
  category = category;
  retention_days = 1;
  protect_while_snapshot_pinned = true;
  protect_while_incident_open = false;
}

abbrev policies : Dict DataCategory RetentionPolicy
policies = (audit, policy audit) ∷ (memory, policy memory) ∷ []

abbrev stored : String → DataCategory → Bool → StoredRecord
stored id category pinned = record {
  record_id = id;
  category = category;
  tenant_id = "t";
  created_at = 0;
  snapshot_pinned = pinned;
  incident_open = true;
}

abbrev records : List StoredRecord
records = stored "a" audit false ∷ stored "b" memory true ∷ []

abbrev evidence : ComplianceEvidence
evidence = record {
  action_id = "cleanup";
  tenant_id = "t";
  deleted_record_ids = "a" ∷ [];
  retained_reasons = ("b", "snapshot_pinned") ∷ [];
}

execute_cleanup_run : execute_cleanup "t" policies 100000 records ≡ ok evidence
unfolding execute_cleanup cleanup_records cleanup_record should_delete lookup insert
execute_cleanup_run = refl

all_covered : all (covered "t" policies 100000) records ≡ true
unfolding lookup all
all_covered = refl

execute_cleanup-goes_example :
    (found : ComplianceEvidence) × (execute_cleanup "t" policies 100000 records ≡ ok found)
    × (found.deleted_record_ids
        ≡ map (id_of "t" policies 100000) (select (goes "t" policies 100000) records))
execute_cleanup-goes_example = execute_cleanup-goes "t" policies 100000 records all_covered

-- Migrated, and then without its database and Redis.
abbrev broken : Health
broken = record {
  database_ready = false;
  redis_ready = false;
  encryption_ready = true;
  migration_status = some (record {
    state = "up_to_date";
    current_revision = none;
    expected_revision = none;
    reason = none;
  });
  active_snapshot_id = none;
  capability_reasons = [];
}

abbrev api : PublicStatusComponent
api = record {
  component = "api";
  status = major_outage;
  message = "API health and readiness probes are available.";
}

api_down : api_status broken ≡ major_outage
unfolding api_status liveness append_if
api_down = refl

api_listed : In api (snapshot broken [] 0).components
unfolding snapshot
api_listed = rw api_down first

major_outage_only_api_example : api.component ≡ "api"
major_outage_only_api_example = major_outage_only_api broken [] 0 api api_listed refl
