-- ===== src/ControlPlane/Examples/Handlers.antt =====
-- The handler registry after an activation, and a dry run of an agent.
use multi_agent_langgraph.Base.{
  ◌≡◌, refl, true, none, some, List, [], ◌∷◌, ok, Result, string_key, contains, select, any,
  append_if, sorted,
}
use multi_agent_langgraph.Base.Int.{pos}
use multi_agent_langgraph.Base.Dict.{lookup, insert}
use multi_agent_langgraph.Github.Json.{Fields}
use multi_agent_langgraph.Governance.Catalog.{
  Catalog, ModelCatalogEntry, connected, reviewer, resolve_model,
}
use multi_agent_langgraph.ControlPlane.Graph.{RouteHandlerRef, system}
use multi_agent_langgraph.ControlPlane.Registry.{
  Registry, new, resolve, resolve_subscribed, ensure_subscription, cache_stale,
  load_active_handlers, handlers_of, invalidate,
}
use multi_agent_langgraph.ControlPlane.Registry.Staleness.{
  Event, resolved, announced, react_all, react, IsAnswer, resolve-IsAnswer,
}
use multi_agent_langgraph.ControlPlane.Agents.{
  AgentConfigVersion, AgentDryRunResult, dry_run, validate, config_errors, difference, unique,
  runtime_role_tool_allowlist,
}
use multi_agent_langgraph.ControlPlane.Examples.Store.{tables}

-- A graph configuration with one handler, whatever the payload.
abbrev one_handler : Fields → Result (List RouteHandlerRef)
one_handler payload =
    ok (record { handler_name = "coder"; handler_version = "1"; handler_kind = system } ∷ [])

abbrev events : List Event
events = resolved "coder" 10 tables ∷ announced (some "s3") ∷ []

abbrev cached : Registry
cached = record {
  has_broadcaster = true;
  subscription_started = true;
  cached_snapshot_id = some "s3";
  cached_handlers = ("coder", system) ∷ [];
  cache_loaded_at = 10;
  cache_ttl_seconds = 5;
}

resolve_run :
    resolve one_handler "coder" 12 tables (react_all one_handler events (new true 5))
    ≡ ok (some system, cached)
unfolding resolve resolve_subscribed ensure_subscription react_all react new cache_stale
    load_active_handlers handlers_of invalidate lookup insert
resolve_run = refl

resolve-IsAnswer_example :
    IsAnswer one_handler (resolved "coder" 12 tables ∷ events) "coder" 12 5 (some system)
resolve-IsAnswer_example =
    resolve-IsAnswer one_handler true 5 events "coder" 12 tables (some system) cached resolve_run

abbrev entry : ModelCatalogEntry
entry = record {
  model_id = "gpt-4.1";
  provider_id = "openai";
  deployment_profile = connected;
  max_input_tokens = 100;
  max_output_tokens = 100;
  default_price_card_id = "card";
  supports_tools = true;
  supports_json_mode = true;
  supports_streaming = true;
  allowed_fallback_targets = [];
}

abbrev config : AgentConfigVersion
config = record {
  agent_role = reviewer;
  model_id = "gpt-4.1";
  fallback_model_id = none;
  system_prompt_ref = "prompts/reviewer.txt";
  allowed_tools = "repo_read" ∷ [];
  retry_limits = ("review", pos 1) ∷ [];
  token_policy_ref = "token-policy/reviewer";
}

abbrev catalog : Catalog
catalog = record { entries = (("gpt-4.1", connected), entry) ∷ []; role_token_policies = [] }

abbrev allowed_result : AgentDryRunResult
allowed_result = record { allowed = true; blocked_tools = []; errors = [] }

dry_run_run : dry_run config ("repo_read" ∷ []) connected catalog ≡ ok allowed_result
unfolding dry_run validate config_errors difference unique runtime_role_tool_allowlist resolve_model
    lookup contains select any append_if sorted
dry_run_run = refl
