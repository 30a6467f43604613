-- ===== src/Runtime/Models/Readiness.antt =====
-- `TaskListArtifact.validate_for_repo_write` of runtime/models.py. A `set` of task ids is the list
-- of its members, each once; Python fixes no order for them, and the model takes the order of the
-- tasks, on which only the order of the error texts depends.
pub mod Meaning
pub mod Exact
use multi_agent_langgraph.Base.{
  String, Bool, true, false, Option, none, some, List, [], ◌∷◌, ◌++◌, ◌&&◌, not, ◌<>◌, ◌==◌,
  string_key, if◌then◌else◌, any, contains, is_empty,
}
use multi_agent_langgraph.Runtime.Models.{
  implementation, unit_test, unit, e2e, TaskItem, TestTarget, TaskListArtifact,
}

abbrev add {ℓ} : {A : Type ℓ} → Bool → A → List A → List A
add seen x xs = if seen then xs else x ∷ xs

-- The body of a `set` comprehension: what one task contributes.
abbrev implementation_id : TaskItem → Option String
implementation_id task = elim task.category [ implementation ↦ some task.task_id | _ ↦ none ]

abbrev truthy : Option String → Option String
truthy none = none
truthy (some text) = if text == "" then none else some text

abbrev paired_id : TaskItem → Option String
paired_id task = elim task.category [ unit_test ↦ truthy task.paired_with | _ ↦ none ]

abbrev put : Option String → List String → List String
put none ids = ids
put (some i) ids = if contains i ids then ids else i ∷ ids

unfoldable pub collect : (TaskItem → Option String) → List TaskItem → List String
collect f [] = []
collect f (task ∷ tasks) = put (f task) (collect f tasks)

unfoldable pub implementation_task_ids : List TaskItem → List String
unfolding collect
implementation_task_ids = collect implementation_id

unfoldable pub paired_unit_tests : List TaskItem → List String
unfolding collect
paired_unit_tests = collect paired_id

abbrev missing_pair : String → String
missing_pair task_id = "Implementation task `" <> task_id <> "` is missing a paired unit test task."

unfoldable pub pairing_errors : List String → List String → List String
pairing_errors [] paired = []
pairing_errors (i ∷ ids) paired =
    let rest = pairing_errors ids paired in
    if contains i paired then rest else missing_pair i ∷ rest

abbrev pub is_e2e : TestTarget → Bool
is_e2e target = elim target.kind [ e2e ↦ true | unit ↦ false ]

abbrev when : Bool → String → List String
when b text = if b then text ∷ [] else []

unfoldable pub readiness_errors : TaskListArtifact → List String
readiness_errors t =
    let ids = implementation_task_ids t.tasks in
    pairing_errors ids (paired_unit_tests t.tasks)
    ++ (when (t.public_surface_change && not (any is_e2e t.required_test_targets))
          "Public-surface changes require an end-to-end test target."
        ++ (when (is_empty t.required_quality_checks)
              "At least one quality check must be declared before repo-write readiness."
            ++ when (is_empty ids) "At least one implementation task is required."))

unfoldable pub validate_for_repo_write : TaskListArtifact → Bool × List String
unfolding readiness_errors
validate_for_repo_write t = let errors = readiness_errors t in (is_empty errors, errors)
