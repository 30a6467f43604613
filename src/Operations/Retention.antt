-- ===== src/Operations/Retention.antt =====
-- operations/retention.py. Times are counted in seconds.
pub mod Cleanup
use multi_agent_langgraph.Base.{
  ℕ, ◌+◌, ◌*◌, ltb, leb, String, Bool, true, false, not, ◌&&◌, Option, none, some, List, [], ◌∷◌,
  ◌++◌, Eq, ◌==◌, coded, string_key, nat_key, if◌then◌else◌, Result, ok, raise, ◌>>=◌, key_error,
  ◌≡◌, refl, map, select, arith,
}
use multi_agent_langgraph.Base.Dict.{Dict, lookup, insert}

pub data DataCategory : Type 0 where
  checkpoints memory metering audit dlq : DataCategory

abbrev category_code : DataCategory → ℕ
category_code checkpoints = 0
category_code memory = 1
category_code metering = 2
category_code audit = 3
category_code dlq = 4

abbrev category_of : ℕ → DataCategory
category_of n =
    if ltb n 1
    then checkpoints
    else if ltb n 2
    then memory
    else if ltb n 3
    then metering
    else if ltb n 4
    then audit
    else dlq

pub category_of-category_code : (c : DataCategory) → category_of (category_code c) ≡ c
category_of-category_code checkpoints = refl
category_of-category_code memory = refl
category_of-category_code metering = refl
category_of-category_code audit = refl
category_of-category_code dlq = refl

instance abbrev pub category_key : Eq DataCategory
category_key = coded category_code category_of category_of-category_code

abbrev pub category_value : DataCategory → String
category_value checkpoints = "checkpoints"
category_value memory = "memory"
category_value metering = "metering"
category_value audit = "audit"
category_value dlq = "dlq"

pub record RetentionPolicy : Type 0 where
  pub category : DataCategory
  pub retention_days : ℕ
  pub protect_while_snapshot_pinned : Bool
  pub protect_while_incident_open : Bool

pub record StoredRecord : Type 0 where
  pub record_id : String
  pub category : DataCategory
  pub tenant_id : String
  pub created_at : ℕ
  pub snapshot_pinned : Bool
  pub incident_open : Bool

pub record DeletionActionPlan : Type 0 where
  pub tenant_id : String
  pub cascade_order : List DataCategory

pub record ComplianceEvidence : Type 0 where
  pub action_id : String
  pub tenant_id : String
  pub deleted_record_ids : List String
  pub retained_reasons : Dict String String

-- `timedelta(days=n)`
abbrev pub days : ℕ → ℕ
days n = n * 86400

unfoldable pub should_delete : StoredRecord → RetentionPolicy → ℕ → Bool × Option String
should_delete stored policy now =
    if policy.protect_while_snapshot_pinned && stored.snapshot_pinned
    then (false, some "snapshot_pinned")
    else if policy.protect_while_incident_open && stored.incident_open
    then (false, some "incident_open")
    else if leb (stored.created_at + days policy.retention_days) now
    then (true, none)
    else (false, some "within_retention")

-- What the loop does with the decision on one record.
abbrev note : String → Bool × Option String → ComplianceEvidence → ComplianceEvidence
note id (true, reason) evidence = record evidence {
  deleted_record_ids = evidence.deleted_record_ids ++ id ∷ [];
}
note id (false, some reason) evidence = record evidence {
  retained_reasons = insert id reason evidence.retained_reasons;
}
note id (false, none) evidence = evidence

abbrev policy_for : DataCategory → Option RetentionPolicy → Result RetentionPolicy
policy_for category none = raise (key_error (category_value category))
policy_for category (some policy) = ok policy

module _ (tenant_id : String) (policies : Dict DataCategory RetentionPolicy) (now : ℕ) where
  unfoldable pub cleanup_record : StoredRecord → ComplianceEvidence → Result ComplianceEvidence
  cleanup_record stored evidence = if not (stored.tenant_id == tenant_id) then ok evidence else do
    policy ← policy_for stored.category (lookup stored.category policies)
    ok (note stored.record_id (should_delete stored policy now) evidence)

  unfoldable pub cleanup_records :
      List StoredRecord → ComplianceEvidence → Result ComplianceEvidence
  cleanup_records [] evidence = ok evidence
  cleanup_records (stored ∷ records) evidence = do
    noted ← cleanup_record stored evidence
    cleanup_records records noted

  unfoldable pub execute_cleanup : List StoredRecord → Result ComplianceEvidence
  execute_cleanup records = cleanup_records records (record {
    action_id = "cleanup";
    tenant_id = tenant_id;
    deleted_record_ids = [];
    retained_reasons = [];
  })

unfoldable pub plan_tenant_deletion : String → DeletionActionPlan
plan_tenant_deletion tenant_id = record {
  tenant_id = tenant_id;
  cascade_order = dlq ∷ checkpoints ∷ memory ∷ metering ∷ audit ∷ [];
}
