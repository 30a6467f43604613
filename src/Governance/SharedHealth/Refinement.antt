-- ===== src/Governance/SharedHealth/Refinement.antt =====
-- The shared health store against the in-memory one, while Redis answers and no hash expires.
use multi_agent_langgraph.Base.{
  ℕ, ◌<◌, ◌≤◌, ◌≡◌, refl, sym, ap, ◌∙◌, arith, String, true, false, some, string_key, ◌==◌, inl,
  inr, Bool-cases, subst,
}
use multi_agent_langgraph.Base.Dict.{lookup, lookup-insert}
use multi_agent_langgraph.Governance.Health.{
  HealthStore, ProviderHealthState, ProviderHealthSnapshot, closed, opened, half_open, ensure,
  change, fresh, failed, succeeded, probed, asked, admits,
}
use multi_agent_langgraph.Governance.Health as Memory
use multi_agent_langgraph.Governance.SharedHealth.{
  Hash, Store, read_state, persist_event, failure_script, lets_through, after_probe, spend,
  allow_request, record_failure, record_success, move_to_half_open, day, apply_provider_script,
}
use multi_agent_langgraph.Governance.SharedHealth.Agreement.{
  Same, RowsAgree, absent, unwritten, written, Agrees, read-Same, lookup-change, RowsAgree-eq,
  write-RowsAgree, change-settings,
}

-- A script that Redis runs and the method that it stands for.
script-Agrees :
    (script : Hash → Hash) (f : ProviderHealthSnapshot → ProviderHealthSnapshot) (kind : String)
    (now : ℕ) (p : String) (store : Store) (memory : HealthStore)
    → now < day
    → ((hash : Hash) (s : ProviderHealthSnapshot) → Same hash s → Same (script hash) (f s))
    → ((hash : Hash) → day ≤ (script hash).expires_at)
    → Agrees store memory
    → Agrees (apply_provider_script script kind true now p store) (change f now p memory)
unfolding apply_provider_script persist_event
script-Agrees script f kind now p store memory early same late a = record {
  threshold_eq = a.threshold_eq ∙ sym (change-settings f now p memory).0;
  limit_eq = a.limit_eq ∙ sym (change-settings f now p memory).1;
  rows = λ q.
      write-RowsAgree (script (read_state now p store)) f now p q store memory
        (same _ _ (read-Same store memory now p early (a.rows p))) (late _) (a.rows q);
}

failure-Same :
    (t u now : ℕ) (hash : Hash) (s : ProviderHealthSnapshot)
    → t ≡ u
    → Same hash s
    → Same (failure_script t now hash) (failed u now s)
failure-Same t u now hash s e a = record {
  state_eq = ground (arith, e, a.state_eq, a.failures_eq);
  failures_eq = ground (arith, e, a.failures_eq);
  probes_eq = ground (arith, e, a.failures_eq, a.probes_eq);
}

spend-settings :
    (p : String) (hash : Hash) (store : Store) → (spend p hash store).settings ≡ store.settings
spend-settings p hash store = ground arith

spend-lookup :
    (p : String) (hash : Hash) (store : Store)
    → lookup p store.hashes ≡ some hash
    → lookup p (spend p hash store).hashes ≡ some (after_probe hash)
spend-lookup p hash store h =
    ground (arith, h, lookup-insert p p (after_probe hash) store.hashes, string_key.beq_iff p p)

spend-other :
    (p q : String) (hash : Hash) (store : Store)
    → (p == q) ≡ false
    → lookup q (spend p hash store).hashes ≡ lookup q store.hashes
spend-other p q hash store h = ground (arith, h, lookup-insert p q (after_probe hash) store.hashes)

probe-Same :
    (now : ℕ) (hash : Hash) (s : ProviderHealthSnapshot)
    → Same hash s
    → Same (after_probe hash) (asked now s)
probe-Same now hash s same = record {
  state_eq = ground (arith, same.state_eq, same.probes_eq);
  failures_eq = ground (arith, same.state_eq, same.probes_eq, same.failures_eq);
  probes_eq = ground (arith, same.state_eq, same.probes_eq);
}

module _ (now : ℕ) (p : String) (store : Store) (memory : HealthStore) (early : now < day)
    (a : Agrees store memory) where
  pub record_failure-Agrees :
      Agrees (record_failure true now p store) (Memory.record_failure now p memory)
  unfolding record_failure Memory.record_failure
  record_failure-Agrees =
      script-Agrees _ _ "failure" now p store memory early
        (λ hash s same. failure-Same _ _ now hash s a.threshold_eq same) (λ hash. ground arith) a

  pub record_success-Agrees :
      Agrees (record_success true now p store) (Memory.record_success now p memory)
  unfolding record_success Memory.record_success
  record_success-Agrees =
      script-Agrees _ _ "success" now p store memory early
        (λ hash s same. record { state_eq = refl; failures_eq = refl; probes_eq = refl })
        (λ hash. ground arith) a

  pub move_to_half_open-Agrees :
      Agrees (move_to_half_open true now p store) (Memory.move_to_half_open now p memory)
  unfolding move_to_half_open Memory.move_to_half_open
  move_to_half_open-Agrees =
      script-Agrees _ _ "half_open" now p store memory early
        (λ hash s same. record {
          state_eq = refl;
          failures_eq = same.failures_eq;
          probes_eq = a.limit_eq;
        })
        (λ hash. ground arith) a

  pub allow_request-answer :
      (allow_request true now p store).0 ≡ (Memory.allow_request now p memory).0
  unfolding allow_request Memory.allow_request
  allow_request-answer =
      let same = read-Same store memory now p early (a.rows p) in
      answers (read_state now p store) (ensure now p memory).0 same
    where
      answers :
          (hash : Hash) (s : ProviderHealthSnapshot)
          → Same hash s
          → lets_through hash ≡ admits s.state s.remaining_probe_attempts
      answers hash s same = ground (arith, same.state_eq, same.probes_eq)

  spent-Agrees :
      RowsAgree (lookup p store.hashes) (lookup p memory.snapshots)
      → RowsAgree
          (lookup p (spend p (read_state now p store) store).hashes)
          (lookup p (change (asked now) now p memory).snapshots)
  unfolding read_state
  spent-Agrees (absent h v) =
      unwritten (fresh now p) (ground (arith, h))
        (ground (arith, v, lookup-change (asked now) now p p memory, string_key.beq_iff p p)) refl
        refl refl
  spent-Agrees (unwritten s h v x y z) =
      unwritten s (ground (arith, h))
        (ground (arith, v, x, lookup-change (asked now) now p p memory, string_key.beq_iff p p)) x y
        z
  spent-Agrees (written hash s h v same d) =
      written (after_probe hash) (asked now s)
        (ground (arith, h, d, early, spend-lookup p hash store))
        (ground (arith, v, lookup-change (asked now) now p p memory, string_key.beq_iff p p))
        (probe-Same now hash s same) (ground (arith, d))

  pub allow_request-Agrees :
      Agrees (allow_request true now p store).1 (Memory.allow_request now p memory).1
  unfolding allow_request Memory.allow_request persist_event
  allow_request-Agrees = record {
    threshold_eq =
        ap (λ t. t.failure_threshold) (spend-settings p (read_state now p store) store)
        ∙ a.threshold_eq
        ∙ sym (change-settings (asked now) now p memory).0;
    limit_eq =
        ap (λ t. t.recovery_probe_limit) (spend-settings p (read_state now p store) store)
        ∙ a.limit_eq
        ∙ sym (change-settings (asked now) now p memory).1;
    rows = λ q. elim (Bool-cases (p == q)) [
      | inl e ↦
          subst
            (λ r.
              RowsAgree (lookup r (spend p (read_state now p store) store).hashes)
                (lookup r (change (asked now) now p memory).snapshots))
            ((string_key.beq_iff p q).0 e) (spent-Agrees (a.rows p))
      | inr e ↦
          RowsAgree-eq (spend-other p q (read_state now p store) store e)
            (ground (arith, e, lookup-change (asked now) now p q memory)) (a.rows q)
    ];
  }
