-- ===== src/Runtime/Workflow/Engine.antt =====
-- runtime/workflow.py: `execute` and `resume`. LangGraph, which runs the compiled graph, is a
-- parameter: `Follows` states what its documentation promises of `invoke`, that a walk along the
-- edges which reaches `END` within the recursion limit is what it returns.
use multi_agent_langgraph.Base.{
  ℕ, zero, suc, ◌≤◌, ◌≡◌, String, false, Option, none, some, [], ◌∷◌, Result, ok, ◌>>=◌, ◌>>◌,
}
use multi_agent_langgraph.Base.Dict.{Dict}
use multi_agent_langgraph.Runtime.Models.{
  RunNode, load_constitution, TenantContext, PlanningRequest, ExecutionRequest, TicketRunState, new,
}
use multi_agent_langgraph.Runtime.Repository
use multi_agent_langgraph.Runtime.Repository.{Repository, validate_escalation_sinks, save}
use multi_agent_langgraph.Runtime.Workflow.{Services, WorkflowState}
use multi_agent_langgraph.Runtime.Workflow.Graph.{Target, node, end, visit}

abbrev pub Visit : Type 0
Visit = RunNode → WorkflowState → Result (WorkflowState × Target)

-- `Walks v k n s t`: from node `n` in state `s`, `k` supersteps along the edges reach `END` in `t`.
pub data Walks (v : Visit) : ℕ → RunNode → WorkflowState → WorkflowState → Type 0 where
  stop : {n : RunNode} {s t : WorkflowState} → v n s ≡ ok (t, end) → Walks v (suc zero) n s t
  go :
      {k : ℕ} {n m : RunNode} {s s' t : WorkflowState}
      → v n s ≡ ok (s', node m)
      → Walks v k m s' t
      → Walks v (suc k) n s t

-- `graph.invoke`, on a graph that is given by its supersteps and its entry.
abbrev pub Engine : Type 0
Engine = Visit → RunNode → WorkflowState → Result WorkflowState

pub record Follows (engine : Engine) (recursion_limit : ℕ) : Type 0 where
  pub returns :
      (v : Visit) (k : ℕ) (n : RunNode) (s t : WorkflowState)
      → Walks v k n s t
      → k ≤ recursion_limit
      → engine v n s ≡ ok t

abbrev pub default_escalation_sinks : Dict String String
default_escalation_sinks =
    ("unresolved_ambiguity", "ops://clarification")
    ∷ ("test_retry_budget_exhausted", "ops://testing")
    ∷ ("review_budget_exhausted", "ops://review")
    ∷ ("missing_or_failing_required_tests", "ops://quality")
    ∷ ("diff_too_large", "ops://diff-guard")
    ∷ ("merge_conflict_detected", "ops://merge-conflict")
    ∷ ("invalid_route_attempt", "ops://workflow-guard")
    ∷ ("missing_escalation_sink", "ops://workflow-guard")
    ∷ ("budget_exhausted", "ops://budgeting")
    ∷ ("all_providers_unavailable", "ops://llm-routing")
    ∷ ("provider_failover_exhausted", "ops://llm-routing")
    ∷ ("orphaned_budget_reservation_detected", "ops://budgeting")
    ∷ ("billing_reconciliation_drift", "ops://metering")
    ∷ ("branch_protection_missing", "ops://security-review")
    ∷ []

abbrev pub default_execution_request : ExecutionRequest
default_execution_request = record {
  test_failures_before_pass = 0;
  quality_failures_before_pass = 0;
  missing_required_tests = false;
  skip_required_tests = false;
  diff_too_large = false;
  merge_conflict = false;
  repo_full_name = "";
  target_branch = "main";
  github_token = "";
  github_base_url = "https://api.github.com";
}

abbrev pub execution_of : Option ExecutionRequest → ExecutionRequest
execution_of none = default_execution_request
execution_of (some request) = request

-- `escalation_sinks or self.default_escalation_sinks()`
abbrev pub sinks_of : Option (Dict String String) → Dict String String
sinks_of none = default_escalation_sinks
sinks_of (some []) = default_escalation_sinks
sinks_of (some sinks) = sinks

module _ (services : Services) where
  abbrev pub initial :
      PlanningRequest → Option ExecutionRequest → Dict String String → WorkflowState
  initial request execution sinks = record {
    planning_request = request;
    execution_request = execution_of execution;
    escalation_sinks = sinks;
    run = new services.host.run_uuid request;
  }

  unfoldable pub execute :
      Engine
      → PlanningRequest
      → Option ExecutionRequest
      → Option (Dict String String)
      → Repository
      → Result (TicketRunState × Repository)
  execute engine request execution sinks repository = do
    validate_escalation_sinks (sinks_of sinks) none
    final ← engine (visit services) load_constitution (initial request execution (sinks_of sinks))
    ok (save final.run repository)

unfoldable pub resume :
    String → Option TenantContext → Repository → Result (TicketRunState × Repository)
unfolding Repository.resume
resume = Repository.resume
