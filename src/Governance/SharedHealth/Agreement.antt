-- ===== src/Governance/SharedHealth/Agreement.antt =====
-- When the hashes of the shared health store agree with the snapshots of the in-memory one.
use multi_agent_langgraph.Base.{
  ℕ, ◌<◌, ◌≤◌, ◌≡◌, ◌∙◌, arith, String, Option, none, some, string_key, ◌==◌, if◌then◌else◌, inl,
  inr, Option-cases, Bool-cases,
}
use multi_agent_langgraph.Base.Dict.{lookup, insert, lookup-insert}
use multi_agent_langgraph.Governance.Health.{
  HealthStore, ProviderHealthSnapshot, closed, ensure, change, fresh,
}
use multi_agent_langgraph.Governance.SharedHealth.{Hash, Store, read_state, day}

-- The same state, failures and probes.
pub record Same (hash : Hash) (snapshot : ProviderHealthSnapshot) : Type 0 where
  pub state_eq : hash.state ≡ snapshot.state
  pub failures_eq : hash.consecutive_failures ≡ snapshot.consecutive_failures
  pub probes_eq : hash.remaining_probe_attempts ≡ snapshot.remaining_probe_attempts

pub data RowsAgree (h : Option Hash) (v : Option ProviderHealthSnapshot) : Type 0 where
  absent : h ≡ none → v ≡ none → RowsAgree h v
  unwritten :
      (snapshot : ProviderHealthSnapshot)
      → h ≡ none
      → v ≡ some snapshot
      → snapshot.state ≡ closed
      → snapshot.consecutive_failures ≡ 0
      → snapshot.remaining_probe_attempts ≡ 0
      → RowsAgree h v
  written :
      (hash : Hash) (snapshot : ProviderHealthSnapshot)
      → h ≡ some hash
      → v ≡ some snapshot
      → Same hash snapshot
      → day ≤ hash.expires_at
      → RowsAgree h v

pub record Agrees (store : Store) (memory : HealthStore) : Type 0 where
  pub threshold_eq : store.settings.failure_threshold ≡ memory.failure_threshold
  pub limit_eq : store.settings.recovery_probe_limit ≡ memory.recovery_probe_limit
  pub rows : (p : String) → RowsAgree (lookup p store.hashes) (lookup p memory.snapshots)

module _ (store : Store) (memory : HealthStore) (now : ℕ) (p : String) (early : now < day) where
  pub read-Same :
      RowsAgree (lookup p store.hashes) (lookup p memory.snapshots)
      → Same (read_state now p store) (ensure now p memory).0
  unfolding read_state
  read-Same (absent h v) = record {
    state_eq = ground (arith, h, v);
    failures_eq = ground (arith, h, v);
    probes_eq = ground (arith, h, v);
  }
  read-Same (unwritten s h v a b c) = record {
    state_eq = ground (arith, h, v, a);
    failures_eq = ground (arith, h, v, b);
    probes_eq = ground (arith, h, v, c);
  }
  read-Same (written hash s h v same d) = record {
    state_eq = ground (arith, h, v, same.state_eq, d, early);
    failures_eq = ground (arith, h, v, same.failures_eq, d, early);
    probes_eq = ground (arith, h, v, same.probes_eq, d, early);
  }

pub lookup-change :
    (f : ProviderHealthSnapshot → ProviderHealthSnapshot) (now : ℕ) (p q : String)
    (memory : HealthStore)
    → lookup q (change f now p memory).snapshots
      ≡ (if p == q then some (f (ensure now p memory).0) else lookup q memory.snapshots)
unfolding change
lookup-change f now p q memory = elim (Option-cases (lookup p memory.snapshots)) [
  | inl e ↦ ground (
    arith,
    e,
    lookup-insert p q (fresh now p) memory.snapshots,
    lookup-insert p q (f (fresh now p)) (insert p (fresh now p) memory.snapshots),
  )
  | inr (s, e) ↦ ground (arith, e, lookup-insert p q (f s) memory.snapshots)
]

pub RowsAgree-eq :
    {h k : Option Hash} {v w : Option ProviderHealthSnapshot}
    → k ≡ h
    → w ≡ v
    → RowsAgree h v
    → RowsAgree k w
RowsAgree-eq i j (absent a b) = absent (i ∙ a) (j ∙ b)
RowsAgree-eq i j (unwritten s a b x y z) = unwritten s (i ∙ a) (j ∙ b) x y z
RowsAgree-eq i j (written hash s a b x y) = written hash s (i ∙ a) (j ∙ b) x y

-- A hash that is written and a snapshot that is written agree, and the other rows stay.
pub write-RowsAgree :
    (hash : Hash) (f : ProviderHealthSnapshot → ProviderHealthSnapshot) (now : ℕ) (p q : String)
    (store : Store) (memory : HealthStore)
    → Same hash (f (ensure now p memory).0)
    → day ≤ hash.expires_at
    → RowsAgree (lookup q store.hashes) (lookup q memory.snapshots)
    → RowsAgree (lookup q (insert p hash store.hashes)) (lookup q (change f now p memory).snapshots)
write-RowsAgree hash f now p q store memory same d old = elim (Bool-cases (p == q)) [
  | inl e ↦
      written hash (f (ensure now p memory).0)
        (ground (arith, e, lookup-insert p q hash store.hashes))
        (ground (arith, e, lookup-change f now p q memory)) same d
  | inr e ↦
      RowsAgree-eq (ground (arith, e, lookup-insert p q hash store.hashes))
        (ground (arith, e, lookup-change f now p q memory)) old
]

pub change-settings :
    (f : ProviderHealthSnapshot → ProviderHealthSnapshot) (now : ℕ) (p : String)
    (memory : HealthStore)
    → ((change f now p memory).failure_threshold ≡ memory.failure_threshold)
      × ((change f now p memory).recovery_probe_limit ≡ memory.recovery_probe_limit)
unfolding change
change-settings f now p memory = elim (Option-cases (lookup p memory.snapshots)) [
  | inl e ↦ ground (arith, e)
  | inr (s, e) ↦ ground (arith, e)
]
