-- ===== src/Security/Webhook.antt =====
-- security/webhook.py and `InMemoryWebhookGuard` of persistence/testing/security.py. Times are
-- seconds and not negative. The digests are parameters; a network of the allow-list is the test
-- whether it has an address, false for a text that is no address.
pub mod Authentic
pub mod Replay
pub mod Windows
use multi_agent_langgraph.Base.{
  ℕ, ◌+◌, String, Bool, true, false, not, ◌&&◌, Option, none, some, List, [], ◌∷◌, ◌++◌, ltb, leb,
  ◌==◌, string_key, pair_key, if◌then◌else◌, select, length, is_empty, contains, decimal, ◌<>◌,
  Result, ok, raise, Error, type_error, is_ascii,
}
use multi_agent_langgraph.Base.Dict.{Dict, insert, get_or}

pub record WebhookRequest : Type 0 where
  pub body : String
  pub signature : String
  pub timestamp : ℕ
  pub event_id : String
  pub tenant_id : String
  pub team_id : String
  pub remote_addr : String
  pub source : String
  pub endpoint : String
  pub ticket_key : String

pub record WebhookGuardResult : Type 0 where
  pub accepted : Bool
  pub deduplicated : Bool
  pub rejection_reason : Option String
  pub idempotency_key : Option String

-- `hmac.new(secret, payload, sha256).hexdigest()` and `sha256(body).hexdigest()`.
pub record Digests : Type 0 where
  pub hmac_sha256 : String → String → String
  pub sha256 : String → String

pub record WebhookGuard : Type 0 where
  pub secret : String
  pub freshness_window_seconds : ℕ
  pub per_minute_limit : ℕ
  pub per_ticket_flood_limit : ℕ
  pub ip_allowlist : List (String → Bool)
  pub seen_events : List String
  pub request_windows : Dict (String × String) (List ℕ)
  pub ticket_windows : Dict String (List ℕ)

abbrev pub rejected : String → WebhookGuardResult
rejected reason = record {
  accepted = false;
  deduplicated = false;
  rejection_reason = some reason;
  idempotency_key = none;
}

abbrev pub accepted_as : Bool → String → WebhookGuardResult
accepted_as deduplicated key = record {
  accepted = true;
  deduplicated = deduplicated;
  rejection_reason = none;
  idempotency_key = some key;
}

unfoldable pub ip_allowed : String → List (String → Bool) → Bool
ip_allowed remote_addr [] = false
ip_allowed remote_addr (network ∷ networks) =
    if network remote_addr then true else ip_allowed remote_addr networks

-- `now - timestamp < 60`
abbrev pub recent : ℕ → ℕ → Bool
recent now timestamp = ltb now (timestamp + 60)

-- `getattr(request, "ticket_key", None) or "unknown"`
abbrev pub ticket_of : WebhookRequest → String
ticket_of request = if request.ticket_key == "" then "unknown" else request.ticket_key

-- `_ticket_flood_exceeded`, and the guard with the window written back.
unfoldable pub ticket_flood_exceeded : String → ℕ → WebhookGuard → Bool × WebhookGuard
ticket_flood_exceeded ticket_key now guard =
    let times = select (recent now) (get_or ticket_key guard.ticket_windows []) in
    if leb guard.per_ticket_flood_limit (length times)
    then (true, record guard { ticket_windows = insert ticket_key times guard.ticket_windows })
    else (
      false,
      record guard { ticket_windows = insert ticket_key (times ++ now ∷ []) guard.ticket_windows },
    )

abbrev pub bucket_of : WebhookRequest → String × String
bucket_of request = (request.endpoint, request.remote_addr)

-- The sliding window of an endpoint and an address.
unfoldable pub admit :
    WebhookRequest → String → ℕ → WebhookGuard → WebhookGuardResult × WebhookGuard
admit request key now guard =
    let bucket = bucket_of request in
    let times = select (recent now) (get_or bucket guard.request_windows []) in
    if leb guard.per_minute_limit (length times)
    then (
      rejected "rate_limited",
      record guard { request_windows = insert bucket times guard.request_windows },
    )
    else (
      accepted_as false key,
      record guard {
        request_windows = insert bucket (times ++ now ∷ []) guard.request_windows;
        seen_events =
            if contains key guard.seen_events then guard.seen_events else key ∷ guard.seen_events;
      },
    )

abbrev limited :
    Bool × WebhookGuard → WebhookRequest → String → ℕ → WebhookGuardResult × WebhookGuard
limited (true, guard) request key now = (rejected "rate_limited", guard)
limited (false, guard) request key now = admit request key now guard

abbrev pub returned : WebhookGuardResult × WebhookGuard → Result WebhookGuardResult × WebhookGuard
returned answer = (ok answer.0, answer.1)

-- What `hmac.compare_digest` raises for a text that is not ASCII; a hexadecimal digest is.
abbrev not_comparable : Error
not_comparable = type_error "comparing strings with non-ASCII characters is not supported"

module _ (digests : Digests) where
  unfoldable pub sign : String → ℕ → WebhookGuard → String
  sign body timestamp guard = digests.hmac_sha256 guard.secret (decimal timestamp <> "." <> body)

  unfoldable pub idempotency_key_of : WebhookRequest → String
  idempotency_key_of request =
      request.source <> ":" <> request.event_id <> ":" <> digests.sha256 request.body

  unfoldable pub verify :
      WebhookRequest → ℕ → WebhookGuard → Result WebhookGuardResult × WebhookGuard
  verify request now guard =
      let key = idempotency_key_of request in
      if not (is_empty guard.ip_allowlist)
        && not (ip_allowed request.remote_addr guard.ip_allowlist)
      then (ok (rejected "ip_not_allowed"), guard)
      else if not (is_ascii request.signature)
      then (raise not_comparable, guard)
      else if not (sign request.body request.timestamp guard == request.signature)
      then (ok (rejected "invalid_signature"), guard)
      else if ltb (request.timestamp + guard.freshness_window_seconds) now
      then (ok (rejected "stale_timestamp"), guard)
      else if contains key guard.seen_events
      then (ok (accepted_as true key), guard)
      else returned (limited (ticket_flood_exceeded (ticket_of request) now guard) request key now)
