-- ===== src/Governance/Metering/Reports.antt =====
-- `run_reconciliation` of `InMemoryMeteringLedger`: the usage of one provider in a period against
-- what the provider reports. `percentage` is the quotient of two `Decimal`s, times 100.
use multi_agent_langgraph.Base.{
  ℕ, ◌+◌, ◌-◌, ◌≡◌, refl, arith, String, Bool, not, List, [], ◌∷◌, ◌++◌, map, ltb, ◌==◌, string_key,
  if◌then◌else◌, select, count_if, length,
}
use multi_agent_langgraph.Base.Dict.{is_some}
use multi_agent_langgraph.Base.Int.{ℤ, pos, sub_ℕ}
use multi_agent_langgraph.Governance.Metering.{UsageRecord, filtered_records, cost_of, usage_id_of}

pub record ReconciliationReport : Type 0 where
  pub report_id : String
  pub tenant_id : String
  pub period_start : ℕ
  pub period_end : ℕ
  pub provider : String
  pub metered_total_usd : ℕ
  pub provider_reported_total_usd : ℕ
  pub drift_amount_usd : ℤ
  pub drift_percentage : ℤ
  pub missing_provider_request_ids : ℕ
  pub matched_usage_count : ℕ
  pub unmatched_usage_count : ℕ
  pub mode : String
  pub usage_ids : List String

abbrev is_from : String → UsageRecord → Bool
is_from provider r = r.provider_id == provider

abbrev has_request_id : UsageRecord → Bool
has_request_id r = is_some r.provider_request_id

abbrev lacks_request_id : UsageRecord → Bool
lacks_request_id r = not (is_some r.provider_request_id)

-- The report, and the reports with it appended.
unfoldable pub run_reconciliation :
    (ℤ → ℕ → ℤ)
    → String
    → String
    → ℕ
    → ℕ
    → String
    → ℕ
    → String
    → List UsageRecord
    → List ReconciliationReport
    → ReconciliationReport × List ReconciliationReport
run_reconciliation percentage uuid tenant_id period_start period_end provider reported mode records
      reports =
    let facts = filtered_records tenant_id period_start period_end records in
    let provider_facts = select (is_from provider) facts in
    let metered_total = cost_of provider_facts in
    let drift_amount = sub_ℕ reported metered_total in
    let matched = length (select has_request_id provider_facts) in
    let report : ReconciliationReport = record {
      report_id = uuid;
      tenant_id = tenant_id;
      period_start = period_start;
      period_end = period_end;
      provider = provider;
      metered_total_usd = metered_total;
      provider_reported_total_usd = reported;
      drift_amount_usd = drift_amount;
      drift_percentage =
          if ltb 0 metered_total then percentage drift_amount metered_total else pos 0;
      missing_provider_request_ids = count_if lacks_request_id provider_facts;
      matched_usage_count = matched;
      unmatched_usage_count = length provider_facts - matched;
      mode = mode;
      usage_ids = map usage_id_of provider_facts;
    } in
    (report, reports ++ report ∷ [])

length-has_request_id :
    (facts : List UsageRecord)
    → length (select has_request_id facts) + count_if lacks_request_id facts ≡ length facts
unfolding select count_if
length-has_request_id [] = refl
length-has_request_id (r ∷ facts) = ground (arith, length-has_request_id facts)

length-map {ℓ κ} :
    {A : Type ℓ} {B : Type κ} (f : A → B) (xs : List A) → length (map f xs) ≡ length xs
length-map f [] = refl
length-map f (x ∷ xs) = let e = length-map f xs in omega (arith, e)

-- In a report each usage is matched or unmatched, and the unmatched ones are those that lack a
-- request id of the provider; the report is appended to the reports.
pub report_counts :
    (percentage : ℤ → ℕ → ℤ) (uuid tenant_id : String) (period_start period_end : ℕ)
    (provider : String) (reported : ℕ) (mode : String) (records : List UsageRecord)
    (reports : List ReconciliationReport)
    → let (report, kept) =
        run_reconciliation percentage uuid tenant_id period_start period_end provider reported mode
          records reports in
      (report.matched_usage_count + report.unmatched_usage_count ≡ length report.usage_ids)
      × (report.unmatched_usage_count ≡ report.missing_provider_request_ids)
      × (kept ≡ reports ++ report ∷ [])
unfolding run_reconciliation
report_counts percentage uuid tenant_id period_start period_end provider reported mode records
      reports =
    let facts =
      select (is_from provider) (filtered_records tenant_id period_start period_end records) in
    let split = length-has_request_id facts in
    let ids = length-map usage_id_of facts in
    (omega (arith, split, ids), omega (arith, split), refl)
