-- ===== src/Governance/SharedHealth.antt =====
-- persistence/governance.py: `RedisSharedProviderHealthStore`, its scripts and its fallback. Redis
-- keeps a hash for each provider, which expires, here under the provider's id; a call gets the time, and whether Redis answers.
pub mod Agreement
pub mod Refinement
pub mod Traces
use multi_agent_langgraph.Base.{
  ℕ, ◌+◌, ◌-◌, ltb, leb, String, Bool, true, false, not, ◌&&◌, Option, none, some, List, [], ◌∷◌,
  ◌++◌, ◌==◌, string_key, if◌then◌else◌, ◌<>◌, Result, ok, raise, runtime_error,
}
use multi_agent_langgraph.Base.Dict.{Dict, lookup, insert}
use multi_agent_langgraph.Governance.Health.{
  ProviderHealthState, ProviderHealthSnapshot, closed, opened, half_open,
}

-- The fields of the hash, and when it expires.
pub record Hash : Type 0 where
  pub state : ProviderHealthState
  pub consecutive_failures : ℕ
  pub remaining_probe_attempts : ℕ
  pub expires_at : ℕ

-- A row of `provider_health_events`; its summary is of the other fields and the error.
pub record HealthEvent : Type 0 where
  pub provider_id : String
  pub event_kind : String
  pub state : ProviderHealthState
  pub consecutive_failures : ℕ
  pub remaining_probe_attempts : ℕ
  pub failed : Bool

pub record Settings : Type 0 where
  pub fail_closed_without_redis : Bool
  pub failure_threshold : ℕ
  pub recovery_probe_limit : ℕ

pub record Store : Type 0 where
  pub settings : Settings
  pub hashes : Dict String Hash
  pub events : List HealthEvent

unfoldable pub new : Settings → Store
new settings = record { settings = settings; hashes = []; events = [] }

abbrev empty_hash : Hash
empty_hash = record {
  state = closed;
  consecutive_failures = 0;
  remaining_probe_attempts = 0;
  expires_at = 0;
}

abbrev pub unexpired : ℕ → Option Hash → Hash
unexpired now none = empty_hash
unexpired now (some hash) = if leb hash.expires_at now then empty_hash else hash

-- The three `HGET`, each with its default.
unfoldable pub read_state : ℕ → String → Store → Hash
read_state now provider_id store = unexpired now (lookup provider_id store.hashes)

abbrev pub day : ℕ
day = 86400

abbrev pub failure_script : ℕ → ℕ → Hash → Hash
failure_script threshold now hash =
    let failures = hash.consecutive_failures + 1 in
    if leb threshold failures
    then record {
      state = opened;
      consecutive_failures = failures;
      remaining_probe_attempts = 0;
      expires_at = now + day;
    }
    else record hash { consecutive_failures = failures; expires_at = now + day }

abbrev pub success_script : ℕ → Hash → Hash
success_script now hash = record {
  state = closed;
  consecutive_failures = 0;
  remaining_probe_attempts = 0;
  expires_at = now + day;
}

abbrev pub half_open_script : ℕ → ℕ → Hash → Hash
half_open_script probes now hash = record hash {
  state = half_open;
  remaining_probe_attempts = probes;
  expires_at = now + day;
}

abbrev event_of : String → String → Bool → Hash → HealthEvent
event_of provider_id kind failed hash = record {
  provider_id = provider_id;
  event_kind = kind;
  state = hash.state;
  consecutive_failures = hash.consecutive_failures;
  remaining_probe_attempts = hash.remaining_probe_attempts;
  failed = failed;
}

unfoldable pub persist_event : String → String → Bool → Hash → Store → Store
persist_event provider_id kind failed hash store = record store {
  events = store.events ++ event_of provider_id kind failed hash ∷ [];
}

unfoldable pub fallback : Settings → Hash
fallback settings = record {
  state = if settings.fail_closed_without_redis then opened else closed;
  consecutive_failures = settings.failure_threshold;
  remaining_probe_attempts = 0;
  expires_at = 0;
}

abbrev pub set_hash : String → Hash → Store → Store
set_hash provider_id hash store = record store { hashes = insert provider_id hash store.hashes }

-- `_apply_provider_script`, and `_persist_event` of what it returns. Without Redis both write an
-- event.
unfoldable pub apply_provider_script : (Hash → Hash) → String → Bool → ℕ → String → Store → Store
apply_provider_script script kind reachable now provider_id store =
    if reachable
    then (let hash = script (read_state now provider_id store) in
        persist_event provider_id kind false hash (set_hash provider_id hash store))
    else persist_event provider_id kind false (fallback store.settings)
        (persist_event provider_id kind true (fallback store.settings) store)

unfoldable pub record_failure : Bool → ℕ → String → Store → Store
record_failure reachable now provider_id store =
    apply_provider_script (failure_script store.settings.failure_threshold now) "failure" reachable
      now provider_id store

unfoldable pub record_success : Bool → ℕ → String → Store → Store
record_success reachable now provider_id store =
    apply_provider_script (success_script now) "success" reachable now provider_id store

unfoldable pub move_to_half_open : Bool → ℕ → String → Store → Store
move_to_half_open reachable now provider_id store =
    apply_provider_script (half_open_script store.settings.recovery_probe_limit now) "half_open"
      reachable now provider_id store

-- What the script of `allow_request` answers, and what `HINCRBY` leaves.
abbrev pub lets_through : Hash → Bool
lets_through hash = elim hash.state [
  | opened ↦ false
  | closed ↦ true
  | half_open ↦ ltb 0 hash.remaining_probe_attempts
]

abbrev pub after_probe : Hash → Hash
after_probe hash = elim hash.state [
  | opened ↦ hash
  | closed ↦ hash
  | half_open ↦
      if ltb 0 hash.remaining_probe_attempts
      then record hash { remaining_probe_attempts = hash.remaining_probe_attempts - 1 }
      else hash
]

-- Only a half-open hash with probes left is written, and its expiry is as it was.
abbrev pub spend : String → Hash → Store → Store
spend provider_id hash store = elim hash.state [
  | opened ↦ store
  | closed ↦ store
  | half_open ↦
      if ltb 0 hash.remaining_probe_attempts
      then set_hash provider_id (after_probe hash) store
      else store
]

unfoldable pub allow_request : Bool → ℕ → String → Store → Bool × Store
allow_request reachable now provider_id store =
    if reachable
    then (let hash = read_state now provider_id store in
        (
          lets_through hash,
          persist_event provider_id "allow_request" false (after_probe hash)
              (spend provider_id hash store),
        ))
    else (
      not store.settings.fail_closed_without_redis,
      persist_event provider_id "allow_request" false (fallback store.settings) store,
    )

unfoldable pub snapshot : Bool → ℕ → String → Store → ProviderHealthSnapshot
snapshot reachable now provider_id store =
    let hash = if reachable then read_state now provider_id store else fallback store.settings in
    record {
      provider_id = provider_id;
      state = hash.state;
      consecutive_failures = hash.consecutive_failures;
      remaining_probe_attempts = hash.remaining_probe_attempts;
      updated_at = now;
    }
