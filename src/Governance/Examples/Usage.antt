-- ===== src/Governance/Examples/Usage.antt =====
-- The metering of three usage records, and two rate cards.
use multi_agent_langgraph.Base.{
  ℕ, ◌≡◌, refl, String, false, none, some, List, [], ◌∷◌, length, select, string_key, nat_key,
}
use multi_agent_langgraph.Base.Dict.{lookup, insert, sum_of}
use multi_agent_langgraph.Base.Int.{ℤ}
use multi_agent_langgraph.Governance.Catalog.{connected, coder}
use multi_agent_langgraph.Governance.Metering.{
  UsageRecord, succeeded, group_key_eq, group, filtered_records, build_hourly_rollups,
}
use multi_agent_langgraph.Governance.Metering.Rollups.{
  of_record, of_rollup, actual_cost, rollups_total-build_hourly_rollups,
}
use multi_agent_langgraph.Governance.Metering.RateCards.{
  RateCard, RateCardCreate, RateCards, new_card,
}

abbrev usage : UsageRecord
usage = record {
  usage_id = "u1";
  tenant_id = "tenant-alpha";
  team_id = "team-core";
  run_id = "run-1";
  ticket_key = "ENG-1";
  role = coder;
  provider_id = "p";
  model_id = "large";
  deployment_profile = connected;
  fallback_used = false;
  input_tokens = 10;
  output_tokens = 5;
  cached_tokens = 0;
  latency_ms = 7;
  request_count = 1;
  reservation_id = none;
  estimated_cost_usd = 6;
  actual_cost_usd = 4;
  rate_card_id = "card";
  provider_request_id = some "req";
  trace_id = "t";
  span_id = "s";
  started_at = 3600000001;
  completed_at = 3600000009;
  status = succeeded;
}

abbrev records : List UsageRecord
records =
    usage
    ∷ record usage { usage_id = "u2"; completed_at = 3600000010; provider_request_id = none }
    ∷ record usage { usage_id = "u3"; completed_at = 7200000000; actual_cost_usd = 3 }
    ∷ []

abbrev isoformat : ℕ → String
isoformat time = "t"

abbrev hour_end : ℕ
hour_end = 9000000000

two_rollups : length (build_hourly_rollups isoformat "tenant-alpha" 0 hour_end records) ≡ 2
unfolding build_hourly_rollups filtered_records group select insert lookup group_key_eq
two_rollups = refl

rollups_total-build_hourly_rollups_example :
    sum_of
      (of_rollup actual_cost)
      (build_hourly_rollups isoformat "tenant-alpha" 0 hour_end records)
    ≡ sum_of (of_record actual_cost) (filtered_records "tenant-alpha" 0 hour_end records)
rollups_total-build_hourly_rollups_example =
    rollups_total-build_hourly_rollups isoformat actual_cost "tenant-alpha" 0 hour_end records

abbrev percentage : ℤ → ℕ → ℤ
percentage drift total = drift

abbrev draft : RateCardCreate
draft = record {
  provider = "p";
  model = "large";
  unit = "per_1k_tokens";
  rate_usd = 3;
  effective_from = 5;
  effective_to = none;
  created_by = "ada";
  metadata = [];
}

abbrev card : RateCard
card = new_card "c1" draft

abbrev cards : RateCards
cards = ("c1", card) ∷ ("c2", record card { rate_card_id = "c2"; effective_from = 9 }) ∷ []
