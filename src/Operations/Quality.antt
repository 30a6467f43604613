-- ===== src/Operations/Quality.antt =====
-- operations/quality.py. A percentage is counted in hundredths.
use multi_agent_langgraph.Base.{
  ℕ, ltb, String, Bool, true, false, not, Option, none, some, List, [], ◌∷◌, ◌<>◌, if◌then◌else◌,
  is_empty, append_if, contains, select, map, sorted, string_key,
}
use multi_agent_langgraph.Base.Dict.{Dict}

pub record QualitySuiteDefinition : Type 0 where
  pub suite_id : String
  pub layer : String
  pub required_on_pr : Bool
  pub required_on_release : Bool

pub record CoveragePolicy : Type 0 where
  pub unit_floor_percent : ℕ
  pub integration_floor_percent : ℕ

pub record CoverageWaiver : Type 0 where
  pub waiver_id : String
  pub layer : String
  pub approved_by : String
  pub rationale : String

pub record CoverageDecision : Type 0 where
  pub allowed : Bool
  pub reasons : List String
  pub waiver_used : Option String

abbrev pub required_layers : List String
required_layers = "unit" ∷ "integration" ∷ "e2e" ∷ "chaos" ∷ "fuzz" ∷ "prompt_regression" ∷ []

abbrev layer_of : QualitySuiteDefinition → String
layer_of suite = suite.layer

abbrev unconfigured : List QualitySuiteDefinition → String → Bool
unconfigured suites layer = not (contains layer (map layer_of suites))

abbrev labelled : String → String → String
labelled label text = label <> text

unfoldable pub validate_quality_program : List QualitySuiteDefinition → CoverageDecision
validate_quality_program suites =
    let missing = sorted (select (unconfigured suites) required_layers) in
    record {
      allowed = is_empty missing;
      reasons = map (labelled "missing_layer:") missing;
      waiver_used = none;
    }

abbrev waived : List String → Option CoverageWaiver → CoverageDecision
waived reasons (some waiver) = record {
  allowed = true;
  reasons = reasons;
  waiver_used = some waiver.waiver_id;
}
waived reasons none = record { allowed = false; reasons = reasons; waiver_used = none }

unfoldable pub coverage_reasons : CoveragePolicy → ℕ → ℕ → List String
coverage_reasons policy unit_coverage_percent integration_coverage_percent =
    append_if (ltb integration_coverage_percent policy.integration_floor_percent)
      "integration_coverage_below_floor"
      (append_if (ltb unit_coverage_percent policy.unit_floor_percent) "unit_coverage_below_floor"
        [])

unfoldable pub evaluate_coverage : CoveragePolicy → ℕ → ℕ → Option CoverageWaiver → CoverageDecision
evaluate_coverage policy unit_coverage_percent integration_coverage_percent waiver =
    let reasons = coverage_reasons policy unit_coverage_percent integration_coverage_percent in
    if is_empty reasons
    then record { allowed = true; reasons = []; waiver_used = none }
    else waived reasons waiver

unfoldable pub failing_gates : Dict String Bool → List String
failing_gates [] = []
failing_gates ((gate_name, passed) ∷ results) =
    let rest = failing_gates results in if not passed then gate_name ∷ rest else rest

unfoldable pub evaluate_static_gates : Dict String Bool → CoverageDecision
evaluate_static_gates gate_results = record {
  allowed = is_empty (failing_gates gate_results);
  reasons = map (labelled "gate_failed:") (failing_gates gate_results);
  waiver_used = none;
}
