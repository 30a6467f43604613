-- ===== src/Runtime/Repository/Laws.antt =====
-- What callers of the run repository rely on.
use multi_agent_langgraph.Base.{
  ◌≡◌, ◌≢◌, refl, arith, String, true, Option, none, some, List, [], ◌∷◌, In, first, later, ok,
  string_key, ◌==◌, if◌then◌else◌, is_empty,
}
use multi_agent_langgraph.Base.Dict.{Dict, lookup, has_key, lookup-insert}
use multi_agent_langgraph.Runtime.Models.{
  EscalationReason, RunNode, active, paused, TenantContext, TicketRunState, clear_pause,
}
use multi_agent_langgraph.Runtime.Models.Value.{reason_value}
use multi_agent_langgraph.Runtime.Repository.{
  Repository, save, load, visible, pause, resume, missing_sinks, validate_escalation_sinks,
  required_phase_one_escalation_reasons,
}

missing_sinks_sound :
    (sinks : Dict String String) (reasons : List EscalationReason) (reason : EscalationReason)
    → missing_sinks sinks reasons ≡ []
    → In reason reasons
    → has_key (reason_value reason) sinks ≡ true
unfolding missing_sinks
missing_sinks_sound sinks [] reason h m = elim m [ ]
missing_sinks_sound sinks (r ∷ reasons) reason h first = ground arith
missing_sinks_sound sinks (r ∷ reasons) reason h (later m) =
    missing_sinks_sound sinks reasons reason (ground arith) m

-- Sinks that pass validation have one for every phase-one reason.
pub validated-has_key :
    (sinks : Dict String String) (reason : EscalationReason)
    → validate_escalation_sinks sinks none ≡ ok tt
    → In reason required_phase_one_escalation_reasons
    → has_key (reason_value reason) sinks ≡ true
unfolding validate_escalation_sinks
validated-has_key sinks reason h m = missing_sinks_sound sinks _ reason (nil _ (ground arith)) m
  where
    nil : (xs : List String) → is_empty xs ≡ true → xs ≡ []
    nil [] e = refl
    nil (x ∷ xs) e = cc

-- What is loaded after a save: at the run's own thread the saved run, if the tenant context may see
-- it, and at any other thread what was there before.
pub load-save :
    (run : TicketRunState) (thread_id : String) (context : Option TenantContext)
    (repository : Repository)
    → load thread_id context (save run repository).1 ≡ (
        if run.thread_id == thread_id
        then visible context (some run)
        else load thread_id context repository)
unfolding load save
load-save run thread_id context repository =
    ground (arith, lookup-insert run.thread_id thread_id run repository.runs)

-- Under a tenant context only runs of that tenant and team are loaded.
pub load_isolated :
    (thread_id : String) (context : TenantContext) (repository : Repository) (run : TicketRunState)
    → load thread_id (some context) repository ≡ some run
    → (run.tenant_id ≡ context.tenant_id) × (run.team_id ≡ context.team_id)
unfolding load
load_isolated thread_id context repository run h = ground (
  arith,
  string_key.beq_iff run.tenant_id context.tenant_id,
  string_key.beq_iff run.team_id context.team_id,
)

abbrev pub resumed : TicketRunState → TicketRunState
resumed run = record run {
  status = active;
  paused_at_node = none;
  escalation_reason = none;
  escalation_sink = none;
}

abbrev pub stopped : TicketRunState → RunNode → EscalationReason → Option String → TicketRunState
stopped run node reason sink = record run {
  status = paused;
  paused_at_node = some node;
  escalation_reason = some reason;
  escalation_sink = sink;
}

module _ (run p : TicketRunState) (node : RunNode) (reason : EscalationReason)
    (sinks : Dict String String) (before after : Repository)
    (h : pause run node reason sinks before ≡ ok (p, after)) where
  pause-eq-ok :
      (p ≡ stopped run node reason (lookup (reason_value reason) sinks))
      × (after ≡ (save p before).1)
  unfolding pause save
  pause-eq-ok = ground arith

  load-pause : load run.thread_id none after ≡ some p
  load-pause = ground (
    arith,
    pause-eq-ok,
    load-save p run.thread_id none before,
    string_key.beq_iff run.thread_id run.thread_id,
  )

  clear_pause-p : clear_pause p ≡ resumed run
  unfolding clear_pause
  clear_pause-p = rw (pause-eq-ok.0)

  resume-after : resume run.thread_id none after ≡ ok (save (resumed run) after)
  unfolding resume
  resume-after = rw (load-pause, clear_pause-p)

  load_other :
      (thread_id : String)
      → run.thread_id ≢ thread_id
      → load thread_id none (save (resumed run) after).1 ≡ load thread_id none before
  load_other thread_id n = ground (
    arith,
    pause-eq-ok,
    load-save p thread_id none before,
    load-save (resumed run) thread_id none after,
    string_key.beq_iff run.thread_id thread_id,
  )

-- A run that was paused and is then resumed by its thread is stored as it was before the pause, but
-- active and with no pause, reason or sink left; every other thread is as it was.
pub resume-pause :
    (run p : TicketRunState) (node : RunNode) (reason : EscalationReason)
    (sinks : Dict String String) (before after : Repository)
    → pause run node reason sinks before ≡ ok (p, after)
    → (resume run.thread_id none after ≡ ok (save (resumed run) after))
      × ((thread_id : String)
          → run.thread_id ≢ thread_id
          → load thread_id none (save (resumed run) after).1 ≡ load thread_id none before)
resume-pause run p node reason sinks before after h = (
  resume-after run p node reason sinks before after h,
  load_other run p node reason sinks before after h,
)
