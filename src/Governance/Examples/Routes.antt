-- ===== src/Governance/Examples/Routes.antt =====
-- The catalog, the provider health store and the router on two models of two providers.
use multi_agent_langgraph.Base.{
  ◌≤◌, ◌≡◌, refl, arith, true, false, not, Option, some, List, [], ◌∷◌, ok, contains, string_key,
  pair_key,
}
use multi_agent_langgraph.Base.Dict.{lookup, insert, index}
use multi_agent_langgraph.Governance.Catalog.{
  Catalog, ModelCatalogEntry, RoleTokenPolicy, TokenCap, connected, coder, new, resolve_model,
  validate_fallback, effective_token_cap, role_key, profile_key,
}
use multi_agent_langgraph.Governance.Health.{
  HealthStore, record_failure, move_to_half_open, allow_request, change,
}
use multi_agent_langgraph.Governance.Health
use multi_agent_langgraph.Governance.Health.Breaker.{
  HealthCall, asking, failing, succeeding, grants, probes_within_limit, fail_at,
  failures_stop_requests,
}
use multi_agent_langgraph.Governance.Routing.{
  Router, ProviderSelection, RoleModelAssignment, candidates, select_model,
}
use multi_agent_langgraph.Governance.Routing
use multi_agent_langgraph.Governance.Routing.Selection.{IsCandidate, select_model-IsCandidate}

abbrev large : ModelCatalogEntry
large = record {
  model_id = "large";
  provider_id = "p";
  deployment_profile = connected;
  max_input_tokens = 200;
  max_output_tokens = 80;
  default_price_card_id = "card";
  supports_tools = true;
  supports_json_mode = true;
  supports_streaming = true;
  allowed_fallback_targets = "small" ∷ [];
}

abbrev small : ModelCatalogEntry
small = record large { model_id = "small"; provider_id = "q"; allowed_fallback_targets = [] }

abbrev policy : RoleTokenPolicy
policy = record { role = coder; max_input_tokens = 100; max_output_tokens = 100 }

unfoldable catalog : Catalog
unfolding new index insert
catalog = new (large ∷ small ∷ []) (policy ∷ [])

abbrev tenant : TokenCap
tenant = record { input_tokens = 90; output_tokens = 90 }

abbrev cap : TokenCap
cap = record { input_tokens = 90; output_tokens = 80 }

capped : effective_token_cap coder "large" connected (some tenant) catalog ≡ ok cap
unfolding effective_token_cap resolve_model lookup catalog
capped = refl

abbrev health : HealthStore
health = Health.new 2 1

abbrev mixed : List HealthCall
mixed = asking 4 "p" ∷ failing 5 "p" ∷ succeeding 6 "q" ∷ asking 7 "p" ∷ []

probes_within_limit_example : grants "p" mixed (move_to_half_open 3 "p" health) ≤ 1
probes_within_limit_example = probes_within_limit "p" 3 mixed health refl

failures_stop_requests_example : grants "p" mixed (fail_at "p" (1 ∷ 2 ∷ []) health) ≡ 0
failures_stop_requests_example =
    failures_stop_requests "p" 1 (2 ∷ []) mixed health (omega arith) refl

abbrev assignment : RoleModelAssignment
assignment = record { role = coder; primary_model_id = "large"; fallback_model_id = some "small" }

unfoldable router : Router
unfolding Routing.new index insert
router = Routing.new catalog (assignment ∷ [])

unfoldable tripped : HealthStore
unfolding record_failure change lookup insert
tripped = record_failure 2 "p" (record_failure 1 "p" health)

abbrev second : ProviderSelection
second = record { provider_id = "q"; model_id = "small"; fallback_used = true }

selected : (select_model 3 4 coder connected router tripped).0 ≡ ok second
unfolding select_model candidates resolve_model validate_fallback contains lookup insert catalog
    router tripped allow_request change
selected = refl

select_model-IsCandidate_example :
    (primary : ModelCatalogEntry) × (fallback : Option ModelCatalogEntry) × IsCandidate coder
      connected router primary fallback
    × ((allow_request 3 primary.provider_id tripped).0 ≡ not true)
    × (true ≡ false → ("q" ≡ primary.provider_id) × ("small" ≡ primary.model_id))
    × (true ≡ true
        → (target : ModelCatalogEntry) × (fallback ≡ some target)
          × ("q" ≡ target.provider_id)
          × ("small" ≡ target.model_id)
          × ((allow_request 4 target.provider_id (allow_request 3 primary.provider_id tripped).1).0
              ≡ true))
select_model-IsCandidate_example =
    select_model-IsCandidate coder connected router 3 4 tripped second selected
