-- ===== src/Governance/SharedHealth/Traces.antt =====
-- Sequences of calls on the shared health store and on the in-memory one.
use multi_agent_langgraph.Base.Dict.{lookup}
use multi_agent_langgraph.Base.{
  ℕ, ◌≡◌, refl, arith, ltb, String, Bool, true, List, [], ◌∷◌, all, string_key,
}
use multi_agent_langgraph.Governance.Health as Memory
use multi_agent_langgraph.Governance.Health.{HealthStore}
use multi_agent_langgraph.Governance.SharedHealth.{
  Store, Settings, new, allow_request, record_failure, record_success, move_to_half_open, day,
}
use multi_agent_langgraph.Governance.SharedHealth.Agreement.{Agrees, absent}
use multi_agent_langgraph.Governance.SharedHealth.Refinement.{
  record_failure-Agrees, record_success-Agrees, move_to_half_open-Agrees, allow_request-answer,
  allow_request-Agrees,
}

pub data Call : Type 0 where
  failure success probing request : ℕ → String → Call

abbrev time_of : Call → ℕ
time_of (failure now p) = now
time_of (success now p) = now
time_of (probing now p) = now
time_of (request now p) = now

abbrev pub timely : Call → Bool
timely call = ltb (time_of call) day

-- The answers of the calls of `allow_request`, while Redis answers.
unfoldable pub shared_answers : List Call → Store → List Bool
shared_answers [] store = []
shared_answers (failure now p ∷ calls) store =
    shared_answers calls (record_failure true now p store)
shared_answers (success now p ∷ calls) store =
    shared_answers calls (record_success true now p store)
shared_answers (probing now p ∷ calls) store =
    shared_answers calls (move_to_half_open true now p store)
shared_answers (request now p ∷ calls) store =
    let answer = allow_request true now p store in answer.0 ∷ shared_answers calls answer.1

unfoldable pub memory_answers : List Call → HealthStore → List Bool
memory_answers [] store = []
memory_answers (failure now p ∷ calls) store =
    memory_answers calls (Memory.record_failure now p store)
memory_answers (success now p ∷ calls) store =
    memory_answers calls (Memory.record_success now p store)
memory_answers (probing now p ∷ calls) store =
    memory_answers calls (Memory.move_to_half_open now p store)
memory_answers (request now p ∷ calls) store =
    let answer = Memory.allow_request now p store in answer.0 ∷ memory_answers calls answer.1

same_answers :
    (calls : List Call) (store : Store) (memory : HealthStore)
    → all timely calls ≡ true
    → Agrees store memory
    → shared_answers calls store ≡ memory_answers calls memory
unfolding shared_answers memory_answers all
same_answers [] store memory h a = refl
same_answers (failure now p ∷ calls) store memory h a =
    same_answers calls _ _ (ground (arith, h))
      (record_failure-Agrees now p store memory (ground (arith, h)) a)
same_answers (success now p ∷ calls) store memory h a =
    same_answers calls _ _ (ground (arith, h))
      (record_success-Agrees now p store memory (ground (arith, h)) a)
same_answers (probing now p ∷ calls) store memory h a =
    same_answers calls _ _ (ground (arith, h))
      (move_to_half_open-Agrees now p store memory (ground (arith, h)) a)
same_answers (request now p ∷ calls) store memory h a =
    let rest =
      same_answers calls _ _ (ground (arith, h))
        (allow_request-Agrees now p store memory (ground (arith, h)) a) in
    cons_eq (allow_request-answer now p store memory (ground (arith, h)) a) rest
  where
    cons_eq : {b c : Bool} {bs cs : List Bool} → b ≡ c → bs ≡ cs → b ∷ bs ≡ c ∷ cs
    cons_eq i j = rw (i, j)

-- Refinement: whatever calls are made within a day of the start, so that no hash expires, and while
-- Redis answers, the shared health store lets through the same requests as the in-memory one with
-- the same threshold and probe limit.
pub shared_health_refines :
    (calls : List Call) (settings : Settings)
    → all timely calls ≡ true
    → shared_answers calls (new settings)
      ≡ memory_answers calls (Memory.new settings.failure_threshold settings.recovery_probe_limit)
unfolding new lookup
shared_health_refines calls settings h =
    same_answers calls _ _ h
      (record { threshold_eq = refl; limit_eq = refl; rows = λ p. absent refl refl })
