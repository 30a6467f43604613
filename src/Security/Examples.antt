-- ===== src/Security/Examples.antt =====
-- The webhook guard on a few requests.
use multi_agent_langgraph.Security.Auth.Laws.{IsAuthorized, authorize-IsAuthorized}
use multi_agent_langgraph.Security.Auth.{AuthContext, operator, authorize, action_requirements}
use multi_agent_langgraph.Base.{
  ◌≤◌, ◌≡◌, refl, arith, true, false, List, [], ◌∷◌, string_key, contains, select, decimal, ◌↔◌,
  ◌<◌, some, none, ok, is_ascii,
}
use multi_agent_langgraph.Base.Dict.{lookup, insert}
use multi_agent_langgraph.Security.Webhook.{
  WebhookRequest, WebhookGuard, Digests, ip_allowed, sign, idempotency_key_of, verify, admit,
  ticket_flood_exceeded,
}
use multi_agent_langgraph.Security.Webhook.Replay.{
  Delivery, deliver_all, times_new, new_at_most_once,
}
use multi_agent_langgraph.Security.Webhook.Authentic.{IsAuthentic, passes, verify-IsAuthentic}
use multi_agent_langgraph.Security.Webhook.Windows.{IsWithinLimits, windows_within_limits}

-- Not digests that anybody should use.
abbrev digests : Digests
digests = record { hmac_sha256 = λ secret payload. payload; sha256 = λ body. body }

abbrev guard : WebhookGuard
guard = record {
  secret = "s";
  freshness_window_seconds = 300;
  per_minute_limit = 1;
  per_ticket_flood_limit = 20;
  ip_allowlist = (λ address. true) ∷ [];
  seen_events = [];
  request_windows = [];
  ticket_windows = [];
}

abbrev request : WebhookRequest
request = record {
  body = "b";
  signature = "10.b";
  timestamp = 10;
  event_id = "e1";
  tenant_id = "tenant-alpha";
  team_id = "team-core";
  remote_addr = "10.0.0.1";
  source = "jira";
  endpoint = "/api/v1/webhooks/jira";
  ticket_key = "ENG-1";
}

abbrev deliveries : List Delivery
deliveries =
    (request, 20)
    ∷ (request, 25)
    ∷ (record request { event_id = "e2" }, 30)
    ∷ (record request { event_id = "e2" }, 90)
    ∷ []

once :
    (times_new digests "jira:e1:b" deliveries guard ≡ 1)
    × (times_new digests "jira:e2:b" deliveries guard ≡ 1)
unfolding verify is_ascii admit ticket_flood_exceeded sign idempotency_key_of ip_allowed contains
    select decimal lookup insert
once = (refl, refl)

new_at_most_once_example : times_new digests "jira:e1:b" deliveries guard ≤ 1
new_at_most_once_example = new_at_most_once digests "jira:e1:b" deliveries guard

verify-IsAuthentic_example :
    ((passes (verify digests request 20 guard).0 ≡ true) ↔ IsAuthentic digests request 20 guard)
    × (¬ IsAuthentic digests request 20 guard → (verify digests request 20 guard).1 ≡ guard)
verify-IsAuthentic_example = verify-IsAuthentic digests request 20 guard

fresh : IsWithinLimits guard
unfolding lookup
fresh = record { requests = λ k. omega arith; tickets = λ k. omega arith }

windows_within_limits_example : IsWithinLimits (deliver_all digests deliveries guard)
windows_within_limits_example = windows_within_limits digests deliveries guard fresh

abbrev operator_context : AuthContext
operator_context = record {
  subject_id = "u";
  tenant_id = "t";
  team_ids = "team" ∷ [];
  role = operator;
  session_id = "s";
  expires_at = 100;
  break_glass_grants = [];
}

known_action : lookup "operate_runs" action_requirements ≡ some operator
unfolding lookup
known_action = refl

authorize-IsAuthorized_example :
    (authorize operator_context "operate_runs" "t" (some "team") false 5
      ≡ ok (record { allowed = true; reason = none }))
    ↔ ((5 < 100) × IsAuthorized operator_context operator "t" (some "team") false)
authorize-IsAuthorized_example =
    authorize-IsAuthorized operator_context operator "t" (some "team") false "operate_runs" 5
      known_action
