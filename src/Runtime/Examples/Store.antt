-- ===== src/Runtime/Examples/Store.antt =====
-- The run repository with one run saved, paused and resumed.
use multi_agent_langgraph.Base.{◌≡◌, ◌≢◌, refl, none, some, String, ok, string_key}
use multi_agent_langgraph.Runtime.Models.{
  TenantContext, TicketRunState, reviewer, review_budget_exhausted,
}
use multi_agent_langgraph.Runtime.Repository.{
  Repository, save, load, pause, resume, validate_escalation_sinks, missing_sinks,
}
use multi_agent_langgraph.Runtime.Repository.Laws.{resume-pause, resumed, stopped}
use multi_agent_langgraph.Runtime.Examples.{start, program, empty_repository, phase_one_sinks}

abbrev run : TicketRunState
run = start.run

abbrev tenant : TenantContext
tenant = record { tenant_id = "tenant-alpha"; team_id = "team-core" }

abbrev stored : Repository
stored = (save run empty_repository).1

loaded : load run.thread_id (some tenant) stored ≡ some run
unfolding load save program
loaded = refl

abbrev held : TicketRunState
held = stopped run reviewer review_budget_exhausted (some "c")

paused_run :
    pause run reviewer review_budget_exhausted phase_one_sinks empty_repository
    ≡ ok (held, (save held empty_repository).1)
unfolding pause save validate_escalation_sinks missing_sinks program
paused_run = refl

resume-pause_example :
    (resume run.thread_id none (save held empty_repository).1
      ≡ ok (save (resumed run) (save held empty_repository).1))
    × ((thread_id : String)
        → run.thread_id ≢ thread_id
        → load thread_id none (save (resumed run) (save held empty_repository).1).1
          ≡ load thread_id none empty_repository)
resume-pause_example =
    resume-pause run held reviewer review_budget_exhausted phase_one_sinks empty_repository
      (save held empty_repository).1 paused_run
