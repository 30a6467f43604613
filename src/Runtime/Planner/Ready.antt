-- ===== src/Runtime/Planner/Ready.antt =====
-- When the planner's task list is ready: in terms of the request alone.
use multi_agent_langgraph.Base.{
  ℕ, ◌+◌, ◌≡◌, ◌≢◌, refl, arith, String, Bool, true, false, not, ◌&&◌, none, List, [], ◌∷◌, ◌++◌,
  string_key, any, any-append, is_empty, In, first, later, decimal, append-eq-empty,
}
use multi_agent_langgraph.Runtime.Models.{
  implementation, e2e_test, PlanningRequest, TaskItem, TestTarget, QualityTarget, TicketRunState,
}
use multi_agent_langgraph.Runtime.Models.Readiness.{validate_for_repo_write, is_e2e}
use multi_agent_langgraph.Runtime.Models.Readiness.Meaning.{
  IsPaired, IsRepoWriteReady, HasImplementation,
}
use multi_agent_langgraph.Runtime.Models.Readiness.Exact.{valid_sound, valid_complete}
use multi_agent_langgraph.Runtime.Planner.{
  Host, implementation_items, unit_targets, quality_items, quality_targets, planned_task_list,
  create_task_list, implementation_id, item, one_if,
}

implementation_id_named : (n : ℕ) → implementation_id n ≢ ""
implementation_id_named n e =
    let s : String = "impl-" in absurd (literal (append-eq-empty s (decimal n) e))
  where
    literal : ◌≡◌ {A = String} "impl-" "" → ⊥
    literal h = ground (arith, string_key.beq_iff "impl-" "")

IsPaired-later :
    (x : TaskItem) (xs : List TaskItem) (task : TaskItem)
    → IsPaired xs task
    → IsPaired (x ∷ xs) task
IsPaired-later x xs task p = record {
  test = p.test;
  member = later p.member;
  is_test = p.is_test;
  pair = p.pair;
  named = p.named;
}

-- Of the items after the implementation tasks none is one.
abbrev NoImplementation : List TaskItem → Type 0
NoImplementation tasks = (task : TaskItem) → In task tasks → task.category ≢ implementation

quality_items-NoImplementation :
    (n : ℕ) (targets : List QualityTarget) → NoImplementation (quality_items n targets)
unfolding quality_items
quality_items-NoImplementation n [] task m = elim m [ ]
quality_items-NoImplementation n (q ∷ targets) task first = λ e. cc
quality_items-NoImplementation n (q ∷ targets) task (later m) =
    quality_items-NoImplementation (n + 1) targets task m

implementation_items-IsPaired :
    (n : ℕ) (titles : List String) (rest : List TaskItem) (task : TaskItem)
    → NoImplementation rest
    → In task (implementation_items n titles ++ rest)
    → task.category ≡ implementation
    → IsPaired (implementation_items n titles ++ rest) task
unfolding implementation_items
implementation_items-IsPaired n [] rest task free m c = absurd (free task m c)
implementation_items-IsPaired n (title ∷ titles) rest task free first c = record {
  test = _;
  member = later first;
  is_test = refl;
  pair = refl;
  named = implementation_id_named n;
}
implementation_items-IsPaired n (title ∷ titles) rest task free (later first) c = cc
implementation_items-IsPaired n (title ∷ titles) rest task free (later (later m)) c =
    IsPaired-later _ _ task
      (IsPaired-later _ _ task (implementation_items-IsPaired (n + 1) titles rest task free m c))

has_implementation :
    (n : ℕ) (titles : List String) (rest : List TaskItem)
    → is_empty titles ≡ false
    → HasImplementation (implementation_items n titles ++ rest)
unfolding implementation_items
has_implementation n [] rest h = cc
has_implementation n (title ∷ titles) rest h = record {
  task = _;
  member = first;
  is_implementation = refl;
}

some_title :
    (n : ℕ) (titles : List String) (rest : List TaskItem)
    → NoImplementation rest
    → HasImplementation (implementation_items n titles ++ rest)
    → is_empty titles ≡ false
unfolding implementation_items
some_title n [] rest free h = absurd (free h.task h.member h.is_implementation)
some_title n (title ∷ titles) rest free h = refl

quality_targets-is_empty :
    (checks : List String) → is_empty (quality_targets checks) ≡ is_empty checks
quality_targets-is_empty [] = refl
quality_targets-is_empty (check ∷ checks) = refl

module _ (host : Host) (request : PlanningRequest) where
  -- The tasks behind the implementation tasks and their tests.
  abbrev other_items : List TaskItem
  other_items =
      one_if request.public_surface_change
        (item "e2e-1" "End-to-end validation for public surface behavior" e2e_test none)
      ++ quality_items 1 (quality_targets request.design_checks)

  one_if-NoImplementation :
      (b : Bool) (e : TaskItem) (rest : List TaskItem)
      → e.category ≢ implementation
      → NoImplementation rest
      → NoImplementation (one_if b e ++ rest)
  one_if-NoImplementation false e rest h free task m = free task m
  one_if-NoImplementation true e rest h free task first = h
  one_if-NoImplementation true e rest h free task (later m) = free task m

  other_items-NoImplementation : NoImplementation other_items
  other_items-NoImplementation =
      one_if-NoImplementation request.public_surface_change _ _ (λ e. cc)
        (quality_items-NoImplementation 1 _)

  targets_covered :
      (xs : List TestTarget) (b : Bool) (e : TestTarget)
      → is_e2e e ≡ true
      → b ≡ true
      → any is_e2e (xs ++ one_if b e) ≡ true
  unfolding any
  targets_covered xs b e h p = ground (arith, any-append is_e2e xs (one_if b e))

  planned_IsRepoWriteReady :
      is_empty request.implementation_tasks ≡ false
      → is_empty request.design_checks ≡ false
      → IsRepoWriteReady (planned_task_list host request)
  unfolding planned_task_list
  planned_IsRepoWriteReady titles checks = record {
    paired = λ task m c.
        implementation_items-IsPaired 1 request.implementation_tasks other_items task
          other_items-NoImplementation m c;
    covered = λ p.
        targets_covered (unit_targets 1 request.implementation_tasks) request.public_surface_change
          _ refl p;
    checked = λ e. cc (quality_targets-is_empty request.design_checks, checks);
    implemented = has_implementation 1 request.implementation_tasks other_items titles;
  }

  planned_needs :
      IsRepoWriteReady (planned_task_list host request)
      → (is_empty request.implementation_tasks ≡ false) × (is_empty request.design_checks ≡ false)
  unfolding planned_task_list
  planned_needs r = (
    some_title 1 request.implementation_tasks other_items other_items-NoImplementation
        r.implemented,
    not_nil request.design_checks r.checked,
  )
    where
      not_nil : (checks : List String) → quality_targets checks ≢ [] → is_empty checks ≡ false
      not_nil [] h = absurd (h refl)
      not_nil (check ∷ checks) h = refl

  -- What a request must say for its task list to be ready.
  abbrev pub plans_ready_tasks : Bool
  plans_ready_tasks =
      not request.force_missing_task_list
      && not request.force_not_ready
      && not (is_empty request.implementation_tasks)
      && not (is_empty request.design_checks)

  planned_valid :
      (validate_for_repo_write (planned_task_list host request)).0
      ≡ (not (is_empty request.implementation_tasks) && not (is_empty request.design_checks))
  planned_valid = ground (
    arith,
    valid_sound (planned_task_list host request),
    valid_complete (planned_task_list host request),
    planned_IsRepoWriteReady,
    planned_needs,
  )

  -- The planner reports a task list as ready exactly when no flag forbids it and the request names an
  -- implementation task and a design check.
  pub create_task_list-ready :
      (run : TicketRunState) → (create_task_list host run request).1 ≡ plans_ready_tasks
  unfolding create_task_list
  create_task_list-ready run = ground (arith, planned_valid)

  some_target :
      (n : ℕ) (titles : List String) (rest : List TestTarget)
      → is_empty titles ≡ false
      → is_empty (unit_targets n titles ++ rest) ≡ false
  unfolding unit_targets
  some_target n [] rest h = cc
  some_target n (title ∷ titles) rest h = refl

  -- A ready task list declares test targets.
  pub planned_targets :
      plans_ready_tasks ≡ true
      → is_empty (planned_task_list host request).required_test_targets ≡ false
  unfolding planned_task_list
  planned_targets h = some_target 1 request.implementation_tasks _ (ground arith)
