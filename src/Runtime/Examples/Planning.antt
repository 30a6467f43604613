-- ===== src/Runtime/Examples/Planning.antt =====
-- The planner and its readiness check on one request.
use multi_agent_langgraph.Base.{◌≡◌, ◌↔◌, refl, true}
use multi_agent_langgraph.Runtime.Models.{TaskListArtifact}
use multi_agent_langgraph.Runtime.Models.Readiness.{validate_for_repo_write}
use multi_agent_langgraph.Runtime.Models.Readiness.Meaning.{IsRepoWriteReady}
use multi_agent_langgraph.Runtime.Models.Readiness.Exact.{validate-IsRepoWriteReady}
use multi_agent_langgraph.Runtime.Planner.{planned_task_list}
use multi_agent_langgraph.Runtime.Examples.{services, planning, program}

abbrev task_list : TaskListArtifact
task_list = planned_task_list services.host planning

validate-IsRepoWriteReady_example :
    ((validate_for_repo_write task_list).0 ≡ true) ↔ IsRepoWriteReady task_list
validate-IsRepoWriteReady_example = validate-IsRepoWriteReady task_list

task_list_valid : (validate_for_repo_write task_list).0 ≡ true
unfolding program
task_list_valid = refl
