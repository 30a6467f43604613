-- ===== src/Governance/Health/Breaker.antt =====
-- The circuit breaker of the provider health store over any sequence of calls.
use multi_agent_langgraph.Base.{
  ℕ, ◌+◌, ◌-◌, ◌≤◌, ◌≡◌, arith, String, Bool, true, false, not, Option, none, some, List, [], ◌∷◌,
  leb, ◌==◌, string_key, if◌then◌else◌, length, Option-cases, inl, inr,
}
use multi_agent_langgraph.Base.Dict.{lookup, lookup-insert}
use multi_agent_langgraph.Governance.Health.{
  ProviderHealthState, closed, opened, half_open, ProviderHealthSnapshot, HealthStore, ensure,
  fresh, change, failed, succeeded, probed, asked, record_failure, record_success,
  move_to_half_open, allow_request,
}

lookup-change :
    (f : ProviderHealthSnapshot → ProviderHealthSnapshot) (now : ℕ) (id provider : String)
    (store : HealthStore)
    → lookup provider (change f now id store).snapshots ≡ (
        if id == provider
        then some (f (ensure now id store).0)
        else lookup provider store.snapshots)
unfolding change
lookup-change f now id provider store = elim (Option-cases (lookup id store.snapshots)) [
  | inr (s, there) ↦ ground (arith, there, lookup-insert id provider (f s) store.snapshots)
  | inl absent ↦
      let (s, kept) = ensure now id store in
      ground (
        arith,
        absent,
        lookup-insert id provider (f (fresh now id)) kept.snapshots,
        lookup-insert id provider (fresh now id) store.snapshots,
      )
]

-- Calls on the store: the time and the provider of each.
pub data HealthCall : Type 0 where
  failing : ℕ → String → HealthCall
  succeeding : ℕ → String → HealthCall
  probing : ℕ → String → HealthCall
  asking : ℕ → String → HealthCall

abbrev pub health_call : HealthCall → HealthStore → HealthStore
health_call (failing now id) store = record_failure now id store
health_call (succeeding now id) store = record_success now id store
health_call (probing now id) store = move_to_half_open now id store
health_call (asking now id) store = (allow_request now id store).1

-- One if the call is a request to the provider, and let through.
abbrev grant : String → HealthCall → HealthStore → ℕ
grant provider (asking now id) store =
    if id == provider then (if (allow_request now id store).0 then 1 else 0) else 0
grant provider _ store = 0

abbrev pub grants : String → List HealthCall → HealthStore → ℕ
grants provider [] store = 0
grants provider (c ∷ cs) store = grant provider c store + grants provider cs (health_call c store)

-- Neither a success of the provider nor a new probing phase.
abbrev quiet : String → HealthCall → Bool
quiet provider (succeeding now id) = not (id == provider)
quiet provider (probing now id) = not (id == provider)
quiet provider _ = true

abbrev pub all_quiet : String → List HealthCall → Bool
all_quiet provider [] = true
all_quiet provider (c ∷ cs) = if quiet provider c then all_quiet provider cs else false

-- A circuit that is not closed and has at most `n` probes left.
abbrev spare : ProviderHealthState → ℕ → ℕ → Bool
spare closed probes n = false
spare opened probes n = true
spare half_open probes n = leb probes n

abbrev tripped : ℕ → Option ProviderHealthSnapshot → Bool
tripped n none = false
tripped n (some s) = spare s.state s.remaining_probe_attempts n

abbrev pub tripped_at : String → ℕ → HealthStore → Bool
tripped_at provider n store = tripped n (lookup provider store.snapshots)

module _ (provider : String) where
  grant-le :
      (c : HealthCall) (n : ℕ) (store : HealthStore)
      → tripped_at provider n store ≡ true
      → grant provider c store ≤ n
  unfolding allow_request
  grant-le (asking now id) n store h = ground (arith, string_key.beq_iff id provider)
  grant-le _ n store h = omega arith

  tripped_at-call :
      (c : HealthCall) (n : ℕ) (store : HealthStore)
      → quiet provider c ≡ true
      → tripped_at provider n store ≡ true
      → tripped_at provider (n - grant provider c store) (health_call c store) ≡ true
  unfolding allow_request record_failure record_success move_to_half_open
  tripped_at-call (asking now id) n store q h =
      ground
        (arith, string_key.beq_iff id provider, lookup-change (asked now) now id provider store)
  tripped_at-call (failing now id) n store q h = ground (
    arith,
    string_key.beq_iff id provider,
    lookup-change (failed store.failure_threshold now) now id provider store,
  )
  tripped_at-call (succeeding now id) n store q h =
      ground (arith, lookup-change (succeeded now) now id provider store)
  tripped_at-call (probing now id) n store q h =
      ground (arith, lookup-change (probed store.recovery_probe_limit now) now id provider store)

  grants-le :
      (cs : List HealthCall) (n : ℕ) (store : HealthStore)
      → all_quiet provider cs ≡ true
      → tripped_at provider n store ≡ true
      → grants provider cs store ≤ n
  grants-le [] n store q h = omega arith
  grants-le (c ∷ cs) n store q h =
      let now = grant-le c n store h in
      let rest =
        grants-le cs (n - grant provider c store) (health_call c store) (ground arith)
          (tripped_at-call c n store (ground arith) h) in
      omega (arith, now, rest)

  -- After a provider moves to half-open, and until it has a success or another probing phase, at most
  -- `recovery_probe_limit` requests are let through to it, whatever calls are made.
  pub probes_within_limit :
      (now : ℕ) (cs : List HealthCall) (store : HealthStore)
      → all_quiet provider cs ≡ true
      → grants provider cs (move_to_half_open now provider store) ≤ store.recovery_probe_limit
  unfolding move_to_half_open
  probes_within_limit now cs store q =
      grants-le cs store.recovery_probe_limit (move_to_half_open now provider store) q (
        ground (
          arith,
          string_key.beq_iff provider provider,
          lookup-change (probed store.recovery_probe_limit now) now provider provider store,
        ))

  -- `record_failure` at each of the times.
  abbrev pub fail_at : List ℕ → HealthStore → HealthStore
  fail_at [] store = store
  fail_at (now ∷ times) store = fail_at times (record_failure now provider store)

  abbrev failures_of : Option ProviderHealthSnapshot → ℕ
  failures_of none = 0
  failures_of (some s) = s.consecutive_failures

  abbrev failures : HealthStore → ℕ
  failures store = failures_of (lookup provider store.snapshots)

  threshold-record_failure :
      (now : ℕ) (store : HealthStore)
      → (record_failure now provider store).failure_threshold ≡ store.failure_threshold
  unfolding record_failure change
  threshold-record_failure now store = ground arith

  failures-record_failure :
      (now : ℕ) (store : HealthStore)
      → (failures (record_failure now provider store) ≡ failures store + 1)
        × (store.failure_threshold ≤ failures store + 1
            → tripped_at provider 0 (record_failure now provider store) ≡ true)
  unfolding record_failure
  failures-record_failure now store = ground (
    arith,
    string_key.beq_iff provider provider,
    lookup-change (failed store.failure_threshold now) now provider provider store,
  )

  fail_at-tripped_at :
      (now : ℕ) (times : List ℕ) (store : HealthStore)
      → store.failure_threshold ≤ failures store + length (now ∷ times)
      → tripped_at provider 0 (fail_at (now ∷ times) store) ≡ true
  fail_at-tripped_at now [] store h = (failures-record_failure now store).1 (omega arith)
  fail_at-tripped_at now (next ∷ times) store h =
      let count = (failures-record_failure now store).0 in
      let threshold = threshold-record_failure now store in
      fail_at-tripped_at next times (record_failure now provider store)
        (omega (arith, count, threshold, h))

  -- After as many failures in a row as the threshold, at least one, and until the provider has a
  -- success or a probing phase, no request is let through to it, whatever calls are made.
  pub failures_stop_requests :
      (now : ℕ) (times : List ℕ) (cs : List HealthCall) (store : HealthStore)
      → store.failure_threshold ≤ length (now ∷ times)
      → all_quiet provider cs ≡ true
      → grants provider cs (fail_at (now ∷ times) store) ≡ 0
  failures_stop_requests now times cs store h q =
      let none_left =
        grants-le cs 0 (fail_at (now ∷ times) store) q
          (fail_at-tripped_at now times store (omega (arith, h))) in
      omega (arith, none_left)
