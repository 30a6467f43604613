-- ===== src/Operations/Resilience.antt =====
-- operations/resilience.py. Times are counted in seconds, and `(now - created_at) // 60` is a
-- natural number: a backup is not younger than now.
use multi_agent_langgraph.Base.{
  ℕ, ◌-◌, ◌/◌, ltb, leb, String, Bool, true, not, ◌&&◌, List, [], ◌<>◌, is_empty, append_if,
  contains, select, join, sorted, string_key,
}

pub record RecoveryObjective : Type 0 where
  pub rpo_minutes : ℕ
  pub rto_minutes : ℕ

pub record BackupRecord : Type 0 where
  pub backup_id : String
  pub created_at : ℕ
  pub verified : Bool
  pub table_names : List String
  pub wal_archived : Bool

pub record RestoreDrillResult : Type 0 where
  pub drill_id : String
  pub restored : Bool
  pub recovery_point_minutes : ℕ
  pub recovery_time_minutes : ℕ

pub record RollbackDrillResult : Type 0 where
  pub drill_id : String
  pub success : Bool
  pub rollback_time_minutes : ℕ

pub record ReplicaStrategy : Type 0 where
  pub primary_count : ℕ
  pub replica_count : ℕ
  pub anti_affinity : Bool
  pub pod_disruption_budget : Bool
  pub pooled_connections : Bool
  pub safe_read_paths_defined : Bool

pub record ResilienceAssessment : Type 0 where
  pub meets_rpo : Bool
  pub meets_rto : Bool
  pub continuity_controls_ready : Bool
  pub reasons : List String

abbrev lacks : List String → String → Bool
lacks table_names table = not (contains table table_names)

unfoldable pub missing_tables_of : List String → List String → List String
missing_tables_of required_tables table_names = sorted (select (lacks table_names) required_tables)

abbrev pub age_minutes_of : BackupRecord → ℕ → ℕ
age_minutes_of backup now = (now - backup.created_at) / 60

unfoldable pub backup_reasons : BackupRecord → List String → ℕ → ℕ → List String
backup_reasons backup required_tables max_backup_age_minutes now =
    let missing = missing_tables_of required_tables backup.table_names in
    append_if (ltb max_backup_age_minutes (age_minutes_of backup now)) "backup_stale" (
      append_if (not backup.wal_archived) "wal_archiving_disabled" (
        append_if (not backup.verified) "backup_unverified"
          (append_if (not (is_empty missing)) ("missing_tables:" <> join "," missing) [])))

unfoldable pub validate_backup_coverage : BackupRecord → List String → ℕ → ℕ → ResilienceAssessment
validate_backup_coverage backup required_tables max_backup_age_minutes now =
    let reasons = backup_reasons backup required_tables max_backup_age_minutes now in
    record {
      meets_rpo = leb (age_minutes_of backup now) max_backup_age_minutes && backup.wal_archived;
      meets_rto = backup.verified;
      continuity_controls_ready = is_empty reasons;
      reasons = reasons;
    }

unfoldable pub assess_dr :
    RecoveryObjective → RestoreDrillResult → RollbackDrillResult → ResilienceAssessment
assess_dr objective restore_drill rollback_drill =
    let meets_rpo =
      restore_drill.restored && leb restore_drill.recovery_point_minutes objective.rpo_minutes in
    let meets_rto =
      restore_drill.restored && leb restore_drill.recovery_time_minutes objective.rto_minutes in
    let reasons =
      append_if (not rollback_drill.success) "rollback_drill_failed"
        (append_if (not meets_rto) "rto_missed" (append_if (not meets_rpo) "rpo_missed" [])) in
    record {
      meets_rpo = meets_rpo;
      meets_rto = meets_rto;
      continuity_controls_ready = is_empty reasons;
      reasons = reasons;
    }

unfoldable pub strategy_reasons : ReplicaStrategy → List String
strategy_reasons strategy =
    append_if (not strategy.safe_read_paths_defined) "read_strategy_missing" (
      append_if (not strategy.pooled_connections) "connection_pooling_missing" (
        append_if (not strategy.pod_disruption_budget) "pod_disruption_budget_missing" (
          append_if (not strategy.anti_affinity) "anti_affinity_missing" (
            append_if (ltb strategy.replica_count 1) "missing_replica"
              (append_if (ltb strategy.primary_count 1) "missing_primary" [])))))

unfoldable pub validate_replica_strategy : ReplicaStrategy → ResilienceAssessment
validate_replica_strategy strategy = record {
  meets_rpo = true;
  meets_rto = true;
  continuity_controls_ready = is_empty (strategy_reasons strategy);
  reasons = strategy_reasons strategy;
}
