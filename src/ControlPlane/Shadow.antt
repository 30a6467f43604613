-- ===== src/ControlPlane/Shadow.antt =====
-- control_plane/shadow.py: the isolation of shadow runs and the report that compares a candidate
-- with the active version. Rates and costs are counted in a fixed smallest unit.
use multi_agent_langgraph.Base.{
  ℕ, ◌+◌, String, Bool, true, List, [], if◌then◌else◌, is_empty, not, leb, ltb, append_if,
}
use multi_agent_langgraph.Base.Int.{ℤ, sub_ℕ, less}

pub record ShadowIsolationProfile : Type 0 where
  pub candidate_version_id : String
  pub queue_isolated : Bool
  pub read_only_credentials : Bool
  pub isolated_worker_identity : Bool
  pub restricted_network_policy : Bool
  pub runtime_shadow_flag : Bool

-- `int(b)`
abbrev pub int_of : Bool → ℕ
int_of b = if b then 1 else 0

unfoldable pub enabled_layers : ShadowIsolationProfile → ℕ
enabled_layers profile =
    int_of profile.queue_isolated
    + int_of profile.read_only_credentials
    + int_of profile.isolated_worker_identity
    + int_of profile.restricted_network_policy
    + int_of profile.runtime_shadow_flag

unfoldable pub blocks_write_side_effects : ShadowIsolationProfile → Bool
unfolding enabled_layers
blocks_write_side_effects profile = leb 4 (enabled_layers profile)

pub record ComparisonMetrics : Type 0 where
  pub baseline_success_rate : ℕ
  pub candidate_success_rate : ℕ
  pub baseline_cost_usd : ℕ
  pub candidate_cost_usd : ℕ
  pub safety_regressions : List String

pub record ActivationThresholds : Type 0 where
  pub minimum_candidate_success_rate : ℕ
  pub max_cost_delta_usd : ℤ

pub record ShadowComparisonReport : Type 0 where
  pub candidate_version_id : String
  pub active_version_id : String
  pub success_rate_delta : ℤ
  pub cost_delta_usd : ℤ
  pub safety_regressions : List String
  pub blocked : Bool
  pub blocking_reasons : List String

unfoldable pub build_isolation_profile : String → ShadowIsolationProfile
build_isolation_profile candidate_version_id = record {
  candidate_version_id = candidate_version_id;
  queue_isolated = true;
  read_only_credentials = true;
  isolated_worker_identity = true;
  restricted_network_policy = true;
  runtime_shadow_flag = true;
}

unfoldable pub blocking_reasons_of : ComparisonMetrics → ActivationThresholds → List String
blocking_reasons_of metrics thresholds =
    append_if (not (is_empty metrics.safety_regressions)) "candidate_introduced_safety_regressions"
      (append_if
        (less thresholds.max_cost_delta_usd
          (sub_ℕ metrics.candidate_cost_usd metrics.baseline_cost_usd))
        "candidate_cost_exceeds_threshold"
        (append_if (ltb metrics.candidate_success_rate thresholds.minimum_candidate_success_rate)
          "candidate_success_rate_below_threshold" []))

unfoldable pub compare :
    String → String → ComparisonMetrics → ActivationThresholds → ShadowComparisonReport
compare candidate_version_id active_version_id metrics thresholds = record {
  candidate_version_id = candidate_version_id;
  active_version_id = active_version_id;
  success_rate_delta = sub_ℕ metrics.candidate_success_rate metrics.baseline_success_rate;
  cost_delta_usd = sub_ℕ metrics.candidate_cost_usd metrics.baseline_cost_usd;
  safety_regressions = metrics.safety_regressions;
  blocked = not (is_empty (blocking_reasons_of metrics thresholds));
  blocking_reasons = blocking_reasons_of metrics thresholds;
}
