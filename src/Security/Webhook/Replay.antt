-- ===== src/Security/Webhook/Replay.antt =====
-- The webhook guard over any sequence of requests.
use multi_agent_langgraph.Base.{
  ℕ, ◌+◌, ◌≤◌, ◌≡◌, refl, arith, String, Bool, true, not, ◌&&◌, List, [], ◌∷◌, ◌==◌, string_key,
  pair_key, if◌then◌else◌, contains, Result, ok, raise,
}
use multi_agent_langgraph.Security.Webhook.{
  WebhookRequest, WebhookGuardResult, WebhookGuard, Digests, ticket_flood_exceeded, admit,
  idempotency_key_of, ticket_of, verify,
}

-- A request that arrives at a time.
abbrev pub Delivery : Type 0
Delivery = WebhookRequest × ℕ

abbrev is_seen : String → WebhookGuard → Bool
is_seen key guard = contains key guard.seen_events

-- One if a request with the key is let through as new.
abbrev new_with : String → String → Result WebhookGuardResult → ℕ
new_with key own (raise error) = 0
new_with key own (ok result) =
    if own == key && (result.accepted && not result.deduplicated) then 1 else 0

module _ (digests : Digests) where
  abbrev pub deliver : Delivery → WebhookGuard → WebhookGuard
  deliver (request, now) guard = (verify digests request now guard).1

  abbrev pub deliver_all : List Delivery → WebhookGuard → WebhookGuard
  deliver_all [] guard = guard
  deliver_all (d ∷ ds) guard = deliver_all ds (deliver d guard)

  abbrev new_of : String → Delivery → WebhookGuard → ℕ
  new_of key (request, now) guard =
      new_with key (idempotency_key_of digests request) (verify digests request now guard).0

  -- How often an event is let through as new.
  abbrev pub times_new : String → List Delivery → WebhookGuard → ℕ
  times_new key [] guard = 0
  times_new key (d ∷ ds) guard = new_of key d guard + times_new key ds (deliver d guard)

  seen-ticket_flood :
      (ticket : String) (now : ℕ) (guard : WebhookGuard)
      → (ticket_flood_exceeded ticket now guard).1.seen_events ≡ guard.seen_events
  unfolding ticket_flood_exceeded
  seen-ticket_flood ticket now guard = ground arith

  admit_cases :
      (request : WebhookRequest) (own key : String) (now : ℕ) (guard : WebhookGuard)
      → let (result, after) = admit request own now guard in
        (is_seen key guard ≡ true → is_seen key after ≡ true)
        × (new_with key own (ok result) ≤ 1)
        × (new_with key own (ok result) ≡ 1 → is_seen key after ≡ true)
  unfolding admit contains
  admit_cases request own key now guard = ground (arith, string_key.beq_iff own key)

  deliver_cases :
      (key : String) (d : Delivery) (guard : WebhookGuard)
      → (is_seen key guard ≡ true
          → (is_seen key (deliver d guard) ≡ true) × (new_of key d guard ≡ 0))
        × (new_of key d guard ≤ 1)
        × (new_of key d guard ≡ 1 → is_seen key (deliver d guard) ≡ true)
  unfolding verify
  deliver_cases key (request, now) guard =
      let own = idempotency_key_of digests request in
      let flood = ticket_flood_exceeded (ticket_of request) now guard in
      ground (
        arith,
        string_key.beq_iff own key,
        seen-ticket_flood (ticket_of request) now guard,
        admit_cases request own key now flood.1,
      )

  times_new-le :
      (key : String) (ds : List Delivery) (guard : WebhookGuard)
      → (is_seen key guard ≡ true → times_new key ds guard ≡ 0) × (times_new key ds guard ≤ 1)
  times_new-le key [] guard = (λ h. refl, omega arith)
  times_new-le key (d ∷ ds) guard =
      let rest = times_new-le key ds (deliver d guard) in
      let now = deliver_cases key d guard in ground (arith, rest, now)

  -- Whatever requests arrive, and whenever, each event is let through as new at most once.
  pub new_at_most_once :
      (key : String) (ds : List Delivery) (guard : WebhookGuard) → times_new key ds guard ≤ 1
  new_at_most_once key ds guard = (times_new-le key ds guard).1
