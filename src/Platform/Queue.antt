-- ===== src/Platform/Queue.antt =====
-- platform/queue.py: the jobs and `WeightedFairDispatcher`. Times, weights and counts are not
-- negative. Python compares `in_flight / weight` as floats; for counts and weights below 2 ^ 26 these
-- stand in the order of the fractions, which are compared here by cross multiplication.
pub mod Fairness
use multi_agent_langgraph.Base.{
  ℕ, ◌+◌, ◌*◌, String, Bool, ◌&&◌, ◌||◌, not, Option, none, some, List, [], ◌∷◌, ltb, leb, nat_eq,
  ◌==◌, string_key, if◌then◌else◌, select,
}
use multi_agent_langgraph.Base.Dict.{Dict, get_or}

pub record QueuedJob : Type 0 where
  pub job_id : String
  pub tenant_id : String
  pub team_id : String
  pub run_id : String
  pub queue_name : String
  pub weight : ℕ
  pub enqueued_at : ℕ
  pub retry_count : ℕ
  pub checkpoint_ref : Option String

pub record WeightedFairDispatcher : Type 0 where
  pub per_tenant_concurrency : ℕ
  pub starvation_threshold_seconds : ℕ

-- `WeightedFairDispatcher()`
abbrev pub default_dispatcher : WeightedFairDispatcher
default_dispatcher = record { per_tenant_concurrency = 2; starvation_threshold_seconds = 300 }

abbrev pub in_flight : Dict String ℕ → QueuedJob → ℕ
in_flight in_flight_by_tenant job = get_or job.tenant_id in_flight_by_tenant 0

abbrev pub at_least_one : ℕ → ℕ
at_least_one weight = if ltb weight 1 then 1 else weight

-- The first of the smallest, as `min` returns it.
unfoldable pub smallest : (QueuedJob → QueuedJob → Bool) → QueuedJob → List QueuedJob → QueuedJob
smallest before best [] = best
smallest before best (job ∷ jobs) = smallest before (if before job best then job else best) jobs

abbrev pub enqueued_before : QueuedJob → QueuedJob → Bool
enqueued_before a b = ltb a.enqueued_at b.enqueued_at

module _ (dispatcher : WeightedFairDispatcher) (in_flight_by_tenant : Dict String ℕ) (now : ℕ) where
  abbrev pub has_room : QueuedJob → Bool
  has_room job = ltb (in_flight in_flight_by_tenant job) dispatcher.per_tenant_concurrency

  -- `now - job.enqueued_at >= starvation_threshold_seconds`, over the integers.
  abbrev pub is_starved : QueuedJob → Bool
  is_starved job = leb (job.enqueued_at + dispatcher.starvation_threshold_seconds) now

  abbrev pub share_lt : QueuedJob → QueuedJob → Bool
  share_lt a b =
      ltb (in_flight in_flight_by_tenant a * at_least_one b.weight)
        (in_flight in_flight_by_tenant b * at_least_one a.weight)

  -- The order of the tuples `(in_flight / max(weight, 1), enqueued_at)`.
  abbrev pub share_before : QueuedJob → QueuedJob → Bool
  share_before a b = share_lt a b || (not (share_lt b a) && enqueued_before a b)

  abbrev pub from_eligible : List QueuedJob → List QueuedJob → Option QueuedJob
  from_eligible [] starved = none
  from_eligible (job ∷ jobs) [] = some (smallest share_before job jobs)
  from_eligible (job ∷ jobs) (s ∷ starved) = some (smallest enqueued_before s starved)

  unfoldable pub select_next_job : List QueuedJob → Option QueuedJob
  select_next_job jobs =
      let eligible = select has_room jobs in from_eligible eligible (select is_starved eligible)
