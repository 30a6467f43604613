-- ===== src/Security/Webhook/Authentic.antt =====
-- Which requests the webhook guard lets as far as its limits.
use multi_agent_langgraph.Base.{
  ℕ, ◌+◌, ◌≤◌, ◌≡◌, ◌⊎◌, ◌↔◌, inl, inr, refl, arith, String, Bool, true, false, ◌&&◌, ◌||◌, Option,
  some, none, List, [], ◌∷◌, leb, ◌==◌, ◌<>◌, decimal, string_key, is_empty, In, first, later,
  Result, ok, raise, Bool-cases, is_ascii,
}
use multi_agent_langgraph.Security.Webhook.{
  WebhookRequest, WebhookGuardResult, WebhookGuard, Digests, ip_allowed, ticket_flood_exceeded,
  admit, limited, sign, idempotency_key_of, ticket_of, verify,
}

abbrev is_rate_limit : Option String → Bool
is_rate_limit none = false
is_rate_limit (some reason) = reason == "rate_limited"

-- The request is accepted, or held back by a limit on rates.
abbrev pub passes : Result WebhookGuardResult → Bool
passes (raise error) = false
passes (ok result) = result.accepted || is_rate_limit result.rejection_reason

-- The address is in a network of the allow-list, if there is one.
abbrev pub IsListed : String → List (String → Bool) → Type 0
IsListed address networks =
    (networks ≡ []) ⊎ ((network : String → Bool) × In network networks × (network address ≡ true))

ip_allowed-In :
    (address : String) (networks : List (String → Bool))
    → ip_allowed address networks ≡ true
    → (network : String → Bool) × In network networks × (network address ≡ true)
unfolding ip_allowed
ip_allowed-In address [] h = cc
ip_allowed-In address (network ∷ networks) h = elim (Bool-cases (network address)) [
  | inl e ↦ (network, first, e)
  | inr e ↦
      let (other, m, k) = ip_allowed-In address networks (ground (arith, h, e)) in
      (other, later m, k)
]

In-ip_allowed :
    (address : String) (network : String → Bool) (networks : List (String → Bool))
    → In network networks
    → network address ≡ true
    → ip_allowed address networks ≡ true
unfolding ip_allowed
In-ip_allowed address network [] m h = elim m [ ]
In-ip_allowed address network (n ∷ networks) first h = rw h refl
In-ip_allowed address network (n ∷ networks) (later m) h =
    ground (arith, In-ip_allowed address network networks m h)

abbrev listed : String → List (String → Bool) → Bool
listed address networks = is_empty networks || ip_allowed address networks

listed-IsListed :
    (address : String) (networks : List (String → Bool))
    → listed address networks ≡ true
    → IsListed address networks
listed-IsListed address [] h = inl refl
listed-IsListed address (n ∷ networks) h = inr (ip_allowed-In address (n ∷ networks) h)

IsListed-listed :
    (address : String) (networks : List (String → Bool))
    → IsListed address networks
    → listed address networks ≡ true
IsListed-listed address networks (inl e) = rw e refl
IsListed-listed address [] (inr (n, m, h)) = elim m [ ]
IsListed-listed address (n ∷ networks) (inr (network, m, h)) =
    In-ip_allowed address network (n ∷ networks) m h

-- The limits, which come after the checks, reject with no other reason.
limited-passes :
    (flood : Bool × WebhookGuard) (request : WebhookRequest) (key : String) (now : ℕ)
    → passes (ok (limited flood request key now).0) ≡ true
unfolding admit
limited-passes (true, guard) request key now = refl
limited-passes (false, guard) request key now = ground arith

module _ (digests : Digests) (request : WebhookRequest) (now : ℕ) (guard : WebhookGuard) where
  -- Signed with the secret over its time and its body, no older than the window, and from an
  -- address of the allow-list.
  pub record IsAuthentic : Type 0 where
    pub plain : is_ascii request.signature ≡ true
    pub signed :
        request.signature
        ≡ digests.hmac_sha256 guard.secret (decimal request.timestamp <> "." <> request.body)
    pub fresh : now ≤ request.timestamp + guard.freshness_window_seconds
    pub from : IsListed request.remote_addr guard.ip_allowlist

  abbrev authentic : Bool
  authentic =
      listed request.remote_addr guard.ip_allowlist
      && (is_ascii request.signature
          && ((sign digests request.body request.timestamp guard == request.signature)
              && leb now (request.timestamp + guard.freshness_window_seconds)))

  authentic-IsAuthentic : authentic ≡ true → IsAuthentic
  unfolding sign
  authentic-IsAuthentic h = record {
    plain = ground (arith, h);
    signed = ground (
      arith,
      h,
      string_key.beq_iff (sign digests request.body request.timestamp guard) request.signature,
    );
    fresh = ground (arith, h);
    from = listed-IsListed request.remote_addr guard.ip_allowlist (ground (arith, h));
  }

  IsAuthentic-authentic : IsAuthentic → authentic ≡ true
  unfolding sign
  IsAuthentic-authentic i =
      let from = IsListed-listed request.remote_addr guard.ip_allowlist i.from in
      let p = i.plain in
      let s = i.signed in
      let f = i.fresh in
      ground (
        arith,
        from,
        p,
        s,
        f,
        string_key.beq_iff (sign digests request.body request.timestamp guard) request.signature,
      )

  verify-authentic :
      (passes (verify digests request now guard).0 ≡ authentic)
      × (authentic ≡ false → (verify digests request now guard).1 ≡ guard)
  unfolding verify
  verify-authentic =
      let l =
        limited-passes (ticket_flood_exceeded (ticket_of request) now guard) request
          (idempotency_key_of digests request) now in
      (ground (arith, l), λ h. ground (arith, h))

  -- A request is accepted, or stopped by a limit on rates alone, exactly when its signature is ASCII
  -- text and the digest of the secret over its time and its body, its time is not longer ago than
  -- the freshness window, where any time ahead of the clock will do, and its address is in a network
  -- of the allow-list, if there is one. Any other request leaves the guard as it was.
  pub verify-IsAuthentic :
      ((passes (verify digests request now guard).0 ≡ true) ↔ IsAuthentic)
      × (¬ IsAuthentic → (verify digests request now guard).1 ≡ guard)
  verify-IsAuthentic =
      let (p, same) = verify-authentic in
      (
        (
          λ h. authentic-IsAuthentic (ground (arith, h, p)),
          λ i. ground (arith, p, IsAuthentic-authentic i),
        ),
        λ n. elim (Bool-cases authentic) [
          | inl e ↦ absurd (n (authentic-IsAuthentic e))
          | inr e ↦ same e
        ],
      )
