-- ===== src/Operations/Retention/Cleanup.antt =====
-- Which records a retention cleanup deletes.
use mathlib.Core.List.{append_assoc, append-nil}
use multi_agent_langgraph.Base.{
  ℕ, ◌≡◌, inl, inr, refl, arith, String, Bool, true, false, ◌&&◌, Option, none, some, List, [], ◌∷◌,
  ◌++◌, map, ok, raise, Result, ◌==◌, string_key, select, if◌then◌else◌, >>=-eq-ok, Option-cases,
  not, ◌||◌, all, Result-cases, leb, ◌+◌, ◌*◌,
}
use multi_agent_langgraph.Base.Dict.{Dict, lookup}
use multi_agent_langgraph.Operations.Retention.{
  DataCategory, category_key, RetentionPolicy, StoredRecord, ComplianceEvidence, should_delete,
  cleanup_record, cleanup_records, execute_cleanup,
}

module _ (tenant_id : String) (policies : Dict DataCategory RetentionPolicy) (now : ℕ) where
  -- The retention time of the policy is over, no pin keeps the record where the policy lets a pin
  -- keep it, and no incident where the policy lets an incident keep it.
  abbrev is_due : StoredRecord → Option RetentionPolicy → Bool
  is_due stored none = false
  is_due stored (some policy) =
      leb (stored.created_at + policy.retention_days * 86400) now
      && (not (stored.snapshot_pinned && policy.protect_while_snapshot_pinned)
          && not (stored.incident_open && policy.protect_while_incident_open))

  -- The record is the tenant's, and due under the policy of its category.
  abbrev pub goes : StoredRecord → Bool
  goes stored = stored.tenant_id == tenant_id && is_due stored (lookup stored.category policies)

  abbrev pub id_of : StoredRecord → String
  id_of stored = stored.record_id

  cleanup_record-deleted :
      (stored : StoredRecord) (before after : ComplianceEvidence)
      → cleanup_record tenant_id policies now stored before ≡ ok after
      → after.deleted_record_ids ≡ (
          if goes stored
          then before.deleted_record_ids ++ id_of stored ∷ []
          else before.deleted_record_ids)
  unfolding cleanup_record should_delete
  cleanup_record-deleted stored before after h =
      elim (Option-cases (lookup stored.category policies)) [
        | inl e ↦ ground (arith, e)
        | inr (policy, e) ↦ ground (arith, e)
      ]

  cleanup_records-deleted :
      (records : List StoredRecord) (before after : ComplianceEvidence)
      → cleanup_records tenant_id policies now records before ≡ ok after
      → after.deleted_record_ids ≡ before.deleted_record_ids ++ map id_of (select goes records)
  unfolding cleanup_records select
  cleanup_records-deleted [] before after h =
      ground (arith, append-nil before.deleted_record_ids, h)
  cleanup_records-deleted (stored ∷ records) before after h =
      let (noted, c, g) = >>=-eq-ok (cleanup_record tenant_id policies now stored before) _ h in
      let here = cleanup_record-deleted stored before noted c in
      let there = cleanup_records-deleted records noted after g in
      ground (
        arith,
        here,
        there,
        append_assoc before.deleted_record_ids (id_of stored ∷ [])
            (map id_of (select goes records)),
      )

  execute_cleanup-deleted :
      (records : List StoredRecord) (evidence : ComplianceEvidence)
      → execute_cleanup tenant_id policies now records ≡ ok evidence
      → evidence.deleted_record_ids ≡ map id_of (select goes records)
  unfolding execute_cleanup
  execute_cleanup-deleted records evidence h = cleanup_records-deleted records _ evidence h

  abbrev has_policy : Option RetentionPolicy → Bool
  has_policy none = false
  has_policy (some policy) = true

  -- A record of another tenant, or one whose category has a policy.
  abbrev pub covered : StoredRecord → Bool
  covered stored =
      not (stored.tenant_id == tenant_id) || has_policy (lookup stored.category policies)

  abbrev succeeds {ℓ} : {A : Type ℓ} → Result A → Bool
  succeeds (ok a) = true
  succeeds (raise error) = false

  cleanup_record-succeeds :
      (stored : StoredRecord) (before : ComplianceEvidence)
      → succeeds (cleanup_record tenant_id policies now stored before) ≡ covered stored
  unfolding cleanup_record
  cleanup_record-succeeds stored before = elim (Option-cases (lookup stored.category policies)) [
    | inl e ↦ ground (arith, e)
    | inr (policy, e) ↦ ground (arith, e)
  ]

  cleanup_records-succeeds :
      (records : List StoredRecord) (before : ComplianceEvidence)
      → succeeds (cleanup_records tenant_id policies now records before) ≡ all covered records
  unfolding cleanup_records all
  cleanup_records-succeeds [] before = refl
  cleanup_records-succeeds (stored ∷ records) before =
      elim (Result-cases (cleanup_record tenant_id policies now stored before)) [
        | inl (noted, e) ↦ ground (
          arith,
          e,
          cleanup_record-succeeds stored before,
          cleanup_records-succeeds records noted,
        )
        | inr (error, e) ↦ ground (arith, e, cleanup_record-succeeds stored before)
      ]

  execute_cleanup-succeeds :
      (records : List StoredRecord)
      → succeeds (execute_cleanup tenant_id policies now records) ≡ all covered records
  unfolding execute_cleanup
  execute_cleanup-succeeds records = cleanup_records-succeeds records _

  -- When each record of the tenant has a policy, a retention cleanup succeeds and deletes exactly the
  -- records of the tenant whose retention time under the policy of their category is over and that
  -- no pin or incident keeps where that policy lets it, in their order.
  pub execute_cleanup-goes :
      (records : List StoredRecord)
      → all covered records ≡ true
      → (evidence : ComplianceEvidence) × (execute_cleanup tenant_id policies now records
          ≡ ok evidence)
        × (evidence.deleted_record_ids ≡ map id_of (select goes records))
  execute_cleanup-goes records h =
      elim (Result-cases (execute_cleanup tenant_id policies now records)) [
        | inl (evidence, e) ↦ (evidence, e, execute_cleanup-deleted records evidence e)
        | inr (error, e) ↦ ground (arith, e, h, execute_cleanup-succeeds records)
      ]
