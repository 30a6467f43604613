-- ===== src/Governance/Health.antt =====
-- The provider health snapshots of governance/routing.py and `InMemoryProviderHealthStore` of
-- persistence/testing/governance.py: a circuit breaker for each provider. A snapshot that a method
-- changes is written back; `now` is what the clock gives.
pub mod Breaker
use multi_agent_langgraph.Base.{
  ℕ, ◌+◌, ◌-◌, String, Bool, true, false, not, Option, none, some, [], leb, ◌==◌, string_key,
  if◌then◌else◌,
}
use multi_agent_langgraph.Base.Dict.{Dict, lookup, insert}

pub data ProviderHealthState : Type 0 where
  closed opened half_open : ProviderHealthState

pub record ProviderHealthSnapshot : Type 0 where
  pub provider_id : String
  pub state : ProviderHealthState
  pub consecutive_failures : ℕ
  pub remaining_probe_attempts : ℕ
  pub updated_at : ℕ

pub record HealthStore : Type 0 where
  pub failure_threshold : ℕ
  pub recovery_probe_limit : ℕ
  pub snapshots : Dict String ProviderHealthSnapshot

abbrev pub new : ℕ → ℕ → HealthStore
new failure_threshold recovery_probe_limit = record {
  failure_threshold = failure_threshold;
  recovery_probe_limit = recovery_probe_limit;
  snapshots = [];
}

abbrev pub write : String → ProviderHealthSnapshot → HealthStore → HealthStore
write provider_id snapshot store = record store {
  snapshots = insert provider_id snapshot store.snapshots;
}

abbrev pub fresh : ℕ → String → ProviderHealthSnapshot
fresh now provider_id = record {
  provider_id = provider_id;
  state = closed;
  consecutive_failures = 0;
  remaining_probe_attempts = 0;
  updated_at = now;
}

abbrev ensured :
    Option ProviderHealthSnapshot → ℕ → String → HealthStore → ProviderHealthSnapshot × HealthStore
ensured (some snapshot) now provider_id store = (snapshot, store)
ensured none now provider_id store =
    (fresh now provider_id, write provider_id (fresh now provider_id) store)

abbrev pub ensure : ℕ → String → HealthStore → ProviderHealthSnapshot × HealthStore
ensure now provider_id store = ensured (lookup provider_id store.snapshots) now provider_id store

unfoldable pub snapshot : ℕ → String → HealthStore → ProviderHealthSnapshot × HealthStore
snapshot now provider_id store = ensure now provider_id store

-- `snapshot = self._ensure(provider_id)`, and then assignments to its fields.
unfoldable pub change :
    (ProviderHealthSnapshot → ProviderHealthSnapshot) → ℕ → String → HealthStore → HealthStore
change f now provider_id store =
    let (snapshot, kept) = ensure now provider_id store in write provider_id (f snapshot) kept

abbrev pub failed : ℕ → ℕ → ProviderHealthSnapshot → ProviderHealthSnapshot
failed failure_threshold now snapshot =
    let failures = snapshot.consecutive_failures + 1 in
    if leb failure_threshold failures
    then record snapshot {
      consecutive_failures = failures;
      state = opened;
      remaining_probe_attempts = 0;
      updated_at = now;
    }
    else record snapshot { consecutive_failures = failures; updated_at = now }

unfoldable pub record_failure : ℕ → String → HealthStore → HealthStore
record_failure now provider_id store =
    change (failed store.failure_threshold now) now provider_id store

abbrev pub succeeded : ℕ → ProviderHealthSnapshot → ProviderHealthSnapshot
succeeded now snapshot = record snapshot {
  state = closed;
  consecutive_failures = 0;
  remaining_probe_attempts = 0;
  updated_at = now;
}

unfoldable pub record_success : ℕ → String → HealthStore → HealthStore
record_success now provider_id store = change (succeeded now) now provider_id store

abbrev pub probed : ℕ → ℕ → ProviderHealthSnapshot → ProviderHealthSnapshot
probed recovery_probe_limit now snapshot = record snapshot {
  state = half_open;
  remaining_probe_attempts = recovery_probe_limit;
  updated_at = now;
}

unfoldable pub move_to_half_open : ℕ → String → HealthStore → HealthStore
move_to_half_open now provider_id store =
    change (probed store.recovery_probe_limit now) now provider_id store

-- What `allow_request` returns, and what it makes of the snapshot.
abbrev pub admits : ProviderHealthState → ℕ → Bool
admits opened probes = false
admits closed probes = true
admits half_open probes = not (leb probes 0)

abbrev pub asked : ℕ → ProviderHealthSnapshot → ProviderHealthSnapshot
asked now snapshot = elim snapshot.state [
  | opened ↦ snapshot
  | closed ↦ snapshot
  | half_open ↦ if leb snapshot.remaining_probe_attempts 0 then snapshot else record snapshot {
    remaining_probe_attempts = snapshot.remaining_probe_attempts - 1;
    updated_at = now;
  }
]

unfoldable pub allow_request : ℕ → String → HealthStore → Bool × HealthStore
allow_request now provider_id store =
    let snapshot = (ensure now provider_id store).0 in
    (
      admits snapshot.state snapshot.remaining_probe_attempts,
      change (asked now) now provider_id store,
    )
