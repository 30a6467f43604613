-- ===== src/Governance/Metering.antt =====
-- governance/metering.py and the usage records of `InMemoryMeteringLedger` of
-- persistence/testing/governance.py. A `datetime` is the microseconds since an epoch that is a whole
-- hour, in UTC, and `isoformat` its text. An amount is a whole number of the smallest unit.
pub mod Rollups
pub mod RateCards
pub mod Reports
use multi_agent_langgraph.Base.{
  ℕ, refl, coded, ◌+◌, ◌-◌, ◌%◌, String, Bool, ◌&&◌, Option, none, some, List, [], ◌∷◌, ◌++◌, map,
  ltb, leb, ◌==◌, Eq, nat_key, string_key, pair_key, if◌then◌else◌, select, count_if, length, ◌<>◌,
}
use multi_agent_langgraph.Base.Dict.{Dict, lookup, insert, get_or, values, sum_of}
use multi_agent_langgraph.Base.Int.{ℤ, sub_ℕ}
use multi_agent_langgraph.Governance.Catalog.{DeploymentProfile, RuntimeRole, role_value, role_key}

pub data UsageStatus : Type 0 where
  succeeded provider_failure budget_rejected settlement_recovered : UsageStatus

pub record UsageRecord : Type 0 where
  pub usage_id : String
  pub tenant_id : String
  pub team_id : String
  pub run_id : String
  pub ticket_key : String
  pub role : RuntimeRole
  pub provider_id : String
  pub model_id : String
  pub deployment_profile : DeploymentProfile
  pub fallback_used : Bool
  pub input_tokens : ℕ
  pub output_tokens : ℕ
  pub cached_tokens : ℕ
  pub latency_ms : ℕ
  pub request_count : ℕ
  pub reservation_id : Option String
  pub estimated_cost_usd : ℕ
  pub actual_cost_usd : ℕ
  pub rate_card_id : String
  pub provider_request_id : Option String
  pub trace_id : String
  pub span_id : String
  pub started_at : ℕ
  pub completed_at : ℕ
  pub status : UsageStatus

pub record HourlyUsageRollup : Type 0 where
  pub rollup_id : String
  pub bucket_start : ℕ
  pub tenant_id : String
  pub team_id : String
  pub role : RuntimeRole
  pub provider_id : String
  pub model_id : String
  pub rate_card_id : String
  pub request_count : ℕ
  pub total_input_tokens : ℕ
  pub total_output_tokens : ℕ
  pub total_actual_cost_usd : ℕ
  pub usage_ids : List String

pub record ReconciliationResult : Type 0 where
  pub period_start : ℕ
  pub period_end : ℕ
  pub metered_total_usd : ℕ
  pub provider_reported_total_usd : ℕ
  pub drift_amount_usd : ℤ
  pub usage_ids : List String
  pub rollup_ids : List String

unfoldable pub record_usage : UsageRecord → List UsageRecord → List UsageRecord
record_usage record_ records = records ++ record_ ∷ []

abbrev in_period : String → ℕ → ℕ → UsageRecord → Bool
in_period tenant_id period_start period_end r =
    r.tenant_id == tenant_id && (leb period_start r.completed_at && leb r.completed_at period_end)

unfoldable pub filtered_records : String → ℕ → ℕ → List UsageRecord → List UsageRecord
filtered_records tenant_id period_start period_end records =
    select (in_period tenant_id period_start period_end) records

abbrev hour : ℕ
hour = 3600000000

-- `completed_at.replace(minute=0, second=0, microsecond=0)`
abbrev pub bucket_start_of : UsageRecord → ℕ
bucket_start_of r = r.completed_at - r.completed_at % hour

pub record GroupKey : Type 0 where
  pub bucket_start : ℕ
  pub tenant_id : String
  pub team_id : String
  pub role : RuntimeRole
  pub provider_id : String
  pub model_id : String
  pub rate_card_id : String

abbrev Parts : Type 0
Parts = (ℕ × (String × String)) × (RuntimeRole × (String × (String × String)))

abbrev parts_of : GroupKey → Parts
parts_of k = (
  (k.bucket_start, (k.tenant_id, k.team_id)),
  (k.role, (k.provider_id, (k.model_id, k.rate_card_id))),
)

abbrev key_of : Parts → GroupKey
key_of ((bucket_start, (tenant_id, team_id)), (role, (provider_id, (model_id, rate_card_id)))) =
    record {
      bucket_start = bucket_start;
      tenant_id = tenant_id;
      team_id = team_id;
      role = role;
      provider_id = provider_id;
      model_id = model_id;
      rate_card_id = rate_card_id;
    }

instance unfoldable pub group_key_eq : Eq GroupKey
group_key_eq = coded parts_of key_of (λ k. refl)

abbrev pub group_key : UsageRecord → GroupKey
group_key r = record {
  bucket_start = bucket_start_of r;
  tenant_id = r.tenant_id;
  team_id = r.team_id;
  role = r.role;
  provider_id = r.provider_id;
  model_id = r.model_id;
  rate_card_id = r.rate_card_id;
}

-- `sum((record.actual_cost_usd for record in records), start=Decimal("0"))`
abbrev cost : UsageRecord → ℕ
cost r = r.actual_cost_usd

abbrev pub cost_of : List UsageRecord → ℕ
cost_of records = sum_of cost records

abbrev rollup_id_of : HourlyUsageRollup → String
rollup_id_of rollup = rollup.rollup_id

abbrev usage_id_of : UsageRecord → String
usage_id_of r = r.usage_id

module _ (isoformat : ℕ → String) where
  abbrev pub empty_rollup : UsageRecord → HourlyUsageRollup
  empty_rollup r = record {
    rollup_id =
        isoformat (bucket_start_of r)
        <> ":"
        <> r.team_id
        <> ":"
        <> role_value r.role
        <> ":"
        <> r.provider_id
        <> ":"
        <> r.model_id
        <> ":"
        <> r.rate_card_id;
    bucket_start = bucket_start_of r;
    tenant_id = r.tenant_id;
    team_id = r.team_id;
    role = r.role;
    provider_id = r.provider_id;
    model_id = r.model_id;
    rate_card_id = r.rate_card_id;
    request_count = 0;
    total_input_tokens = 0;
    total_output_tokens = 0;
    total_actual_cost_usd = 0;
    usage_ids = [];
  }

  abbrev pub add_usage : UsageRecord → HourlyUsageRollup → HourlyUsageRollup
  add_usage r rollup = record rollup {
    request_count = rollup.request_count + r.request_count;
    total_input_tokens = rollup.total_input_tokens + r.input_tokens;
    total_output_tokens = rollup.total_output_tokens + r.output_tokens;
    total_actual_cost_usd = rollup.total_actual_cost_usd + r.actual_cost_usd;
    usage_ids = rollup.usage_ids ++ r.usage_id ∷ [];
  }

  -- The loop over the records, each added to its group, which is there or new.
  unfoldable pub group :
      List UsageRecord → Dict GroupKey HourlyUsageRollup → Dict GroupKey HourlyUsageRollup
  group [] groups = groups
  group (r ∷ records) groups =
      let key = group_key r in
      group records (insert key (add_usage r (get_or key groups (empty_rollup r))) groups)

  unfoldable pub build_hourly_rollups : String → ℕ → ℕ → List UsageRecord → List HourlyUsageRollup
  build_hourly_rollups tenant_id period_start period_end records =
      values (group (filtered_records tenant_id period_start period_end records) [])

  unfoldable pub reconcile : String → ℕ → ℕ → ℕ → List UsageRecord → ReconciliationResult
  reconcile tenant_id period_start period_end reported records =
      let metered = filtered_records tenant_id period_start period_end records in
      let rollups = build_hourly_rollups tenant_id period_start period_end records in
      record {
        period_start = period_start;
        period_end = period_end;
        metered_total_usd = cost_of metered;
        provider_reported_total_usd = reported;
        drift_amount_usd = sub_ℕ reported (cost_of metered);
        usage_ids = map usage_id_of metered;
        rollup_ids = map rollup_id_of rollups;
      }
