-- ===== src/Runtime/Context/Planning.antt =====
-- The context that the planner asks for: `build_context_request` of runtime/planner.py, resolved.
use multi_agent_langgraph.Base.{String, ◌≡◌, refl, none, [], ◌∷◌, ◌<>◌, ok, any, decimal}
use multi_agent_langgraph.Runtime.Models.{
  jira, repository, run_state, first_party, ContextSource, PlanningRequest, ResolvedContextEntry,
  ResolvedContextBundle, TicketRunState,
}
use multi_agent_langgraph.Runtime.Models.Value.{source_value}
use multi_agent_langgraph.Runtime.Context.{resolve}
use multi_agent_langgraph.Runtime.Planner.{build_context_request}

abbrev entry : ContextSource → String → String → ResolvedContextEntry
entry source content provenance = record {
  source = source;
  content = content;
  provenance = provenance;
}

module _ (run : TicketRunState) (request : PlanningRequest) where
  abbrev pub planning_bundle : ResolvedContextBundle
  planning_bundle = record {
    entries =
        entry jira (request.ticket_key <> ": " <> request.summary) "jira:1"
        ∷ entry repository ("Repository scope: " <> request.repo_id) "repository:1"
        ∷ entry run_state ("Run identity: " <> run.run_id) "run_state:1"
        ∷ entry first_party "Constitution and product contracts from OpenSpec and AGENTS.md"
            "first_party:1"
        ∷ [];
    external_research_reason = none;
  }

  -- The planner's request is always resolved, with one entry each of jira, the repository, the run
  -- state and the first party, in this order.
  pub resolve-build_context_request :
      resolve (build_context_request run request) ≡ ok planning_bundle
  unfolding resolve build_context_request any source_value decimal
  resolve-build_context_request = refl
