-- ===== src/Runtime/Workflow/Graph.antt =====
-- runtime/workflow.py: `_build_graph` and its routers. A router answers with a label, which the
-- mapping of its conditional edge turns into a node or `END`; a label that the mapping lacks is an
-- error, as it is for the library that runs the graph.
use multi_agent_langgraph.Base.{
  Option, none, some, if◌then◌else◌, Result, ok, raise, ◌>>=◌, invalid_graph,
}
use multi_agent_langgraph.Runtime.Models.{
  RunNode, load_constitution, create_feature_spec, clarify, create_plan, create_task_list,
  readiness_gate, coder, tester, reviewer, pre_pr_sync, pr_creator, escalate, EscalationReason,
  TicketRunState,
}
use multi_agent_langgraph.Runtime.Workflow.{Services, WorkflowState, handle}

-- The answers of the routers.
pub data Label : Type 0 where
  to : RunNode → Label
  complete : Label

-- Where an edge leads: to a node, or to `END`.
pub data Target : Type 0 where
  node : RunNode → Target
  end : Target

abbrev escalate_or : Option EscalationReason → Label → Label
escalate_or none label = label
escalate_or (some reason) label = to escalate

route_after_clarification : TicketRunState → Label
route_after_clarification run =
    escalate_or run.escalation_reason
      (if run.clarification_complete then to create_plan else to clarify)

route_after_readiness_gate : TicketRunState → Label
route_after_readiness_gate run = escalate_or run.escalation_reason (to coder)

route_after_tester : TicketRunState → Label
route_after_tester run =
    escalate_or run.escalation_reason (if run.tests_passed then to reviewer else to coder)

route_after_reviewer : TicketRunState → Label
route_after_reviewer run =
    escalate_or run.escalation_reason (if run.review_approved then to pre_pr_sync else to coder)

route_after_pre_pr_sync : TicketRunState → Label
route_after_pre_pr_sync run = escalate_or run.escalation_reason (to pr_creator)

route_after_pr_creator : TicketRunState → Label
route_after_pr_creator run = if run.pr_created then complete else to escalate

-- The mappings that `add_conditional_edges` is given, by the node that they leave.
path_map : RunNode → Label → Option Target
path_map clarify (to clarify) = some (node clarify)
path_map clarify (to create_plan) = some (node create_plan)
path_map clarify (to escalate) = some (node escalate)
path_map readiness_gate (to coder) = some (node coder)
path_map readiness_gate (to escalate) = some (node escalate)
path_map tester (to coder) = some (node coder)
path_map tester (to reviewer) = some (node reviewer)
path_map tester (to escalate) = some (node escalate)
path_map reviewer (to coder) = some (node coder)
path_map reviewer (to pre_pr_sync) = some (node pre_pr_sync)
path_map reviewer (to escalate) = some (node escalate)
path_map pre_pr_sync (to pr_creator) = some (node pr_creator)
path_map pre_pr_sync (to escalate) = some (node escalate)
path_map pr_creator complete = some end
path_map pr_creator (to escalate) = some (node escalate)
path_map _ _ = none

abbrev mapped : Option Target → Result Target
mapped none = raise invalid_graph
mapped (some target) = ok target

-- `add_edge` and `add_conditional_edges`: where the graph goes after a node.
unfoldable pub successor : RunNode → TicketRunState → Result Target
unfolding route_after_clarification route_after_readiness_gate route_after_tester
    route_after_reviewer route_after_pre_pr_sync route_after_pr_creator path_map
successor load_constitution run = ok (node create_feature_spec)
successor create_feature_spec run = ok (node clarify)
successor clarify run = mapped (path_map clarify (route_after_clarification run))
successor create_plan run = ok (node create_task_list)
successor create_task_list run = ok (node readiness_gate)
successor readiness_gate run = mapped (path_map readiness_gate (route_after_readiness_gate run))
successor coder run = ok (node tester)
successor tester run = mapped (path_map tester (route_after_tester run))
successor reviewer run = mapped (path_map reviewer (route_after_reviewer run))
successor pre_pr_sync run = mapped (path_map pre_pr_sync (route_after_pre_pr_sync run))
successor pr_creator run = mapped (path_map pr_creator (route_after_pr_creator run))
successor escalate run = ok end
successor RunNode.intake run = raise invalid_graph

-- One superstep: the handler, its update of the state, and the edge that is taken.
unfoldable pub visit : Services → RunNode → WorkflowState → Result (WorkflowState × Target)
visit services n state = do
  run ← handle services n state
  target ← successor n run
  ok (record state { run = run }, target)
