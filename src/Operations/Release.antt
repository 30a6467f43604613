-- ===== src/Operations/Release.antt =====
-- operations/release.py. A burn rate is counted in tenths.
use multi_agent_langgraph.Base.{
  ℕ, ltb, String, Bool, true, false, not, Option, none, some, List, [], ◌∷◌, string_key,
  if◌then◌else◌, Result, ok, raise, ◌>>=◌, key_error, is_empty, append_if,
}
use multi_agent_langgraph.Base.Dict.{Dict, lookup, index, get_or}

pub record PipelineStage : Type 0 where
  pub stage_name : String
  pub required_gates : List String

pub record StageEvaluationResult : Type 0 where
  pub passed : Bool
  pub missing_gates : List String

pub record RolloutAnalysis : Type 0 where
  pub error_budget_burn_rate : ℕ
  pub health_regressed : Bool
  pub kill_switch_engaged : Bool

pub record RolloutDecision : Type 0 where
  pub proceed : Bool
  pub rollback : Bool
  pub reasons : List String

pub record MigrationPlan : Type 0 where
  pub change_id : String
  pub expand_first : Bool
  pub rollback_tested : Bool

pub data FlagType : Type 0 where
  release experiment kill_switch : FlagType

pub record FeatureFlagDefinition : Type 0 where
  pub flag_id : String
  pub flag_type : FlagType
  pub default_enabled : Bool
  pub auditable : Bool

pub record EnvironmentProfile : Type 0 where
  pub environment_name : String
  pub purpose : String
  pub production_mirror : Bool

pub record ReleasePolicy : Type 0 where
  pub stages : Dict String PipelineStage
  pub environments : Dict String EnvironmentProfile
  pub feature_flags : Dict String FeatureFlagDefinition

abbrev stage_key : PipelineStage → String
stage_key stage = stage.stage_name

abbrev environment_key : EnvironmentProfile → String
environment_key environment = environment.environment_name

abbrev flag_key : FeatureFlagDefinition → String
flag_key flag = flag.flag_id

unfoldable pub new :
    List PipelineStage → List EnvironmentProfile → List FeatureFlagDefinition → ReleasePolicy
new stages environments feature_flags = record {
  stages = index stage_key stages [];
  environments = index environment_key environments [];
  feature_flags = index flag_key feature_flags [];
}

-- `d[key]`
abbrev at_key {ℓ} : {A : Type ℓ} → String → Option A → Result A
at_key key none = raise (key_error key)
at_key key (some a) = ok a

unfoldable pub missing_gates_of : Dict String Bool → List String → List String
missing_gates_of gate_results [] = []
missing_gates_of gate_results (gate ∷ gates) =
    let rest = missing_gates_of gate_results gates in
    if not (get_or gate gate_results false) then gate ∷ rest else rest

abbrev result_of : List String → StageEvaluationResult
result_of missing = record { passed = is_empty missing; missing_gates = missing }

unfoldable pub evaluate_stage :
    String → Dict String Bool → ReleasePolicy → Result StageEvaluationResult
evaluate_stage stage_name gate_results policy = do
  stage ← at_key stage_name (lookup stage_name policy.stages)
  ok (result_of (missing_gates_of gate_results stage.required_gates))

unfoldable pub rollout_reasons : RolloutAnalysis → List String
rollout_reasons analysis = append_if analysis.kill_switch_engaged "kill_switch_engaged" (
    append_if (ltb 20 analysis.error_budget_burn_rate) "burn_rate_threshold_exceeded"
      (append_if analysis.health_regressed "health_regressed" []))

abbrev rolls_back : RolloutAnalysis → Bool
rolls_back analysis =
    if analysis.kill_switch_engaged
    then true
    else if ltb 20 analysis.error_budget_burn_rate
    then true
    else analysis.health_regressed

unfoldable pub evaluate_rollout : RolloutAnalysis → RolloutDecision
evaluate_rollout analysis = record {
  proceed = not (rolls_back analysis);
  rollback = rolls_back analysis;
  reasons = rollout_reasons analysis;
}

unfoldable pub validate_migration : MigrationPlan → StageEvaluationResult
validate_migration plan = result_of (
    append_if (not plan.rollback_tested) "rollback_tested"
      (append_if (not plan.expand_first) "expand_first" []))

unfoldable pub environment : String → ReleasePolicy → Result EnvironmentProfile
environment name policy = at_key name (lookup name policy.environments)

unfoldable pub feature_flag : String → ReleasePolicy → Result FeatureFlagDefinition
feature_flag flag_id policy = at_key flag_id (lookup flag_id policy.feature_flags)
