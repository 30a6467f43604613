-- ===== src/Operations/Flags.antt =====
-- operations/feature_flags.py. The calls of a flag provider
-- are stubs in the source: they answer `True`, and the mirror answers `False`.
use multi_agent_langgraph.Base.{
  ℕ, String, Bool, true, false, Option, none, some, [], ◌∷◌, ◌<>◌, string_key, if◌then◌else◌,
  Result, ok, raise, value_error,
}
use multi_agent_langgraph.Base.Dict.{Dict, lookup}

pub data FlagProvider : Type 0 where
  unleash launchdarkly postgres_mirror : FlagProvider

pub record KillSwitchState : Type 0 where
  pub flag_key : String
  pub enabled : Bool
  pub owner : String
  pub description : String
  pub last_modified : ℕ
  pub modified_by : String

pub record KillSwitch : Type 0 where
  pub owner : String
  pub description : String

switch : String → String → KillSwitch
switch owner description = record { owner = owner; description = description }

unfoldable pub mandatory_kill_switches : Dict String KillSwitch
unfolding switch
mandatory_kill_switches =
    ("llm_provider_anthropic", switch "llm-governance" "Kill switch for Anthropic provider routing")
    ∷ ("llm_provider_openai", switch "llm-governance" "Kill switch for OpenAI provider routing")
    ∷ ("pr_creation", switch "runtime-pipeline" "Kill switch for PR creation node")
    ∷ ("graph_activation", switch "runtime-pipeline" "Kill switch for graph execution activation")
    ∷ (
      "sandbox_runtime_gvisor",
      switch "sandbox-execution" "Kill switch for gVisor sandbox runtime",
    )
    ∷ ("ticket_processing", switch "runtime-pipeline" "Global kill switch for ticket processing")
    ∷ []

pub record Client : Type 0 where
  pub provider : FlagProvider
  pub initialized : Bool

unfoldable pub initialize : Client → Client
initialize client = record client { initialized = true }

unfoldable pub close : Client → Client
close client = record client { initialized = false }

unfoldable pub evaluate_unleash : String → Bool
evaluate_unleash flag_key = true

unfoldable pub evaluate_launchdarkly : String → Bool
evaluate_launchdarkly flag_key = true

unfoldable pub evaluate_mirror : String → Bool
evaluate_mirror flag_key = false

unfoldable pub evaluate_primary : String → Client → Result Bool
evaluate_primary flag_key client = elim client.provider [
  | unleash ↦ ok (evaluate_unleash flag_key)
  | launchdarkly ↦ ok (evaluate_launchdarkly flag_key)
  | postgres_mirror ↦ raise (value_error "Unsupported primary provider")
]

-- The `except` branch asks the mirror.
abbrev or_mirror : String → Result Bool → Bool
or_mirror flag_key (ok enabled) = enabled
or_mirror flag_key (raise error) = evaluate_mirror flag_key

unfoldable pub is_enabled : String → Client → Bool × Client
is_enabled flag_key client =
    let ready = if client.initialized then client else initialize client in
    (or_mirror flag_key (evaluate_primary flag_key ready), ready)

abbrev state_of : String → ℕ → Option KillSwitch → Bool × Client → Result (KillSwitchState × Client)
state_of flag_key now none answer = raise (value_error ("Unknown kill switch: " <> flag_key))
state_of flag_key now (some meta) (enabled, client) = ok (
  record {
    flag_key = flag_key;
    enabled = enabled;
    owner = meta.owner;
    description = meta.description;
    last_modified = now;
    modified_by = "system";
  },
  client,
)

-- `is_enabled` raises nothing, so the `except` branch is not taken.
unfoldable pub get_kill_switch_state : String → ℕ → Client → Result (KillSwitchState × Client)
get_kill_switch_state flag_key now client =
    state_of flag_key now (lookup flag_key mandatory_kill_switches) (is_enabled flag_key client)
