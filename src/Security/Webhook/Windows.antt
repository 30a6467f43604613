-- ===== src/Security/Webhook/Windows.antt =====
-- The sliding windows of the webhook guard.
use multi_agent_langgraph.Base.{
  ℕ, ◌+◌, ◌≤◌, ◌≡◌, refl, sym, subst, ◌⊎◌, ◌&&◌, ◌||◌, not, is_empty, arith, String, Bool, true,
  false, List, [], ◌∷◌, ◌++◌, leb, ◌==◌, string_key, pair_key, Eq, length, select, contains,
  Bool-cases, inl, inr, is_ascii,
}
use multi_agent_langgraph.Base.Dict.{Dict, insert, get_or, lookup-insert}
use multi_agent_langgraph.Security.Webhook.{
  WebhookRequest, WebhookGuard, ip_allowed, sign, idempotency_key_of, Digests, bucket_of, ticket_of,
  recent, ticket_flood_exceeded, admit, limited, verify,
}
use multi_agent_langgraph.Security.Webhook.Replay.{Delivery, deliver, deliver_all}

length-select {ℓ} : {A : Type ℓ} (p : A → Bool) (xs : List A) → length (select p xs) ≤ length xs
unfolding select
length-select p [] = omega arith
length-select p (x ∷ xs) = ground (arith, length-select p xs)

length-snoc {ℓ} : {A : Type ℓ} (xs : List A) (x : A) → length (xs ++ x ∷ []) ≡ length xs + 1
length-snoc [] x = refl
length-snoc (y ∷ xs) x = let e = length-snoc xs x in omega (arith, e)

-- A dict of windows that holds at most `limit` times under each key.
abbrev pub IsBounded {ℓ} : {K : Type ℓ} ⦃e : Eq K⦄ → ℕ → Dict K (List ℕ) → Type ℓ
IsBounded {K = K} limit windows = (k : K) → length (get_or k windows []) ≤ limit

IsBounded-insert {ℓ} :
    {K : Type ℓ} ⦃e : Eq K⦄ (limit : ℕ) (key : K) (times : List ℕ) (windows : Dict K (List ℕ))
    → IsBounded limit windows
    → length times ≤ limit
    → IsBounded limit (insert key times windows)
IsBounded-insert limit key times windows h small k =
    let here = h k in ground (arith, here, lookup-insert key k times windows)

-- Every window of the guard is within its limit.
pub record IsWithinLimits (guard : WebhookGuard) : Type 0 where
  pub requests : IsBounded guard.per_minute_limit guard.request_windows
  pub tickets : IsBounded guard.per_ticket_flood_limit guard.ticket_windows

ticket_flood-IsWithinLimits :
    (ticket : String) (now : ℕ) (guard : WebhookGuard)
    → IsWithinLimits guard
    → IsWithinLimits (ticket_flood_exceeded ticket now guard).1
unfolding ticket_flood_exceeded
ticket_flood-IsWithinLimits ticket now guard h =
    let times = select (recent now) (get_or ticket guard.ticket_windows []) in
    let limit = guard.per_ticket_flood_limit in
    let shorter = length-select (recent now) (get_or ticket guard.ticket_windows []) in
    let before = h.tickets ticket in
    elim (Bool-cases (leb limit (length times))) [
      | inl full ↦ rw full (record {
        requests = h.requests;
        tickets =
            IsBounded-insert limit ticket times guard.ticket_windows h.tickets
              (omega (arith, shorter, before));
      })
      | inr room ↦ rw room (record {
        requests = h.requests;
        tickets =
            IsBounded-insert limit ticket (times ++ now ∷ []) guard.ticket_windows h.tickets
              (ground (arith, length-snoc times now));
      })
    ]

admit-IsWithinLimits :
    (request : WebhookRequest) (key : String) (now : ℕ) (guard : WebhookGuard)
    → IsWithinLimits guard
    → IsWithinLimits (admit request key now guard).1
unfolding admit
admit-IsWithinLimits request key now guard h =
    let bucket = bucket_of request in
    let times = select (recent now) (get_or bucket guard.request_windows []) in
    let limit = guard.per_minute_limit in
    let shorter = length-select (recent now) (get_or bucket guard.request_windows []) in
    let before = h.requests bucket in
    elim (Bool-cases (leb limit (length times))) [
      | inl full ↦ rw full (record {
        requests =
            IsBounded-insert limit bucket times guard.request_windows h.requests
              (omega (arith, shorter, before));
        tickets = h.tickets;
      })
      | inr room ↦ rw room (record {
        requests =
            IsBounded-insert limit bucket (times ++ now ∷ []) guard.request_windows h.requests
              (ground (arith, length-snoc times now));
        tickets = h.tickets;
      })
    ]

limited-IsWithinLimits :
    (flood : Bool × WebhookGuard) (request : WebhookRequest) (key : String) (now : ℕ)
    → IsWithinLimits flood.1
    → IsWithinLimits (limited flood request key now).1
limited-IsWithinLimits (true, guard) request key now h = h
limited-IsWithinLimits (false, guard) request key now h =
    admit-IsWithinLimits request key now guard h

module _ (digests : Digests) where
  -- The request passes every check before the rate limits, and is not a repetition.
  abbrev reached : WebhookRequest → ℕ → WebhookGuard → Bool
  reached request now guard =
      (is_empty guard.ip_allowlist || ip_allowed request.remote_addr guard.ip_allowlist)
      && (is_ascii request.signature
          && (sign digests request.body request.timestamp guard == request.signature)
          && (leb now (request.timestamp + guard.freshness_window_seconds)
              && not (contains (idempotency_key_of digests request) guard.seen_events)))

  deliver_cases :
      (request : WebhookRequest) (now : ℕ) (guard : WebhookGuard)
      → (deliver digests (request, now) guard ≡ guard)
        ⊎ (deliver digests (request, now) guard
            ≡ (limited
                (ticket_flood_exceeded (ticket_of request) now guard)
                request
                (idempotency_key_of digests request)
                now).1)
  unfolding verify
  deliver_cases request now guard = elim (Bool-cases (reached request now guard)) [
    | inl all_passed ↦ inr (ground arith)
    | inr some_failed ↦ inl (ground arith)
  ]

  deliver-IsWithinLimits :
      (d : Delivery) (guard : WebhookGuard)
      → IsWithinLimits guard
      → IsWithinLimits (deliver digests d guard)
  deliver-IsWithinLimits (request, now) guard h = elim (deliver_cases request now guard) [
    | inl same ↦ subst IsWithinLimits (sym same) h
    | inr step ↦ subst IsWithinLimits (sym step) (
        limited-IsWithinLimits (ticket_flood_exceeded (ticket_of request) now guard) request
          (idempotency_key_of digests request) now
          (ticket_flood-IsWithinLimits (ticket_of request) now guard h))
  ]

  -- Whatever requests arrive, no window of an endpoint and address holds more times than the
  -- per-minute limit, and no window of a ticket more than the flood limit, if none did before.
  pub windows_within_limits :
      (ds : List Delivery) (guard : WebhookGuard)
      → IsWithinLimits guard
      → IsWithinLimits (deliver_all digests ds guard)
  windows_within_limits [] guard h = h
  windows_within_limits (d ∷ ds) guard h =
      windows_within_limits ds (deliver digests d guard) (deliver-IsWithinLimits d guard h)
