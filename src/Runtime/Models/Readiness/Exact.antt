-- ===== src/Runtime/Models/Readiness/Exact.antt =====
-- `validate_for_repo_write` of runtime/models.py against what it means for a task list to be ready.
use multi_agent_langgraph.Base.{
  ◌≡◌, ◌≢◌, refl, ◌↔◌, arith, String, true, false, not, ◌&&◌, some, List, [], ◌∷◌, ◌++◌, In, first,
  any, is_empty, ap, subst,
}
use multi_agent_langgraph.Runtime.Models.{TaskItem, TaskListArtifact, implementation}
use multi_agent_langgraph.Runtime.Models.Readiness.{
  collect, is_e2e, implementation_id, implementation_task_ids, paired_unit_tests, pairing_errors,
  readiness_errors, validate_for_repo_write,
}
use multi_agent_langgraph.Runtime.Models.Readiness.Meaning.{
  IsFrom, In-collect, collect-In, pairing_errors_sound, pairing_errors_complete, HasImplementation,
  IsRepoWriteReady, implementation_id-category, IsPaired-In, In-IsPaired,
}

append-eq-nil {ℓ} : {A : Type ℓ} (xs ys : List A) → xs ++ ys ≡ [] → (xs ≡ []) × (ys ≡ [])
append-eq-nil [] ys h = (refl, h)
append-eq-nil (x ∷ xs) ys h = cc

is_empty-eq-nil {ℓ} : {A : Type ℓ} (xs : List A) → is_empty xs ≡ true → xs ≡ []
is_empty-eq-nil [] h = refl
is_empty-eq-nil (x ∷ xs) h = cc

not_empty {ℓ} : {A : Type ℓ} (xs : List A) → xs ≢ [] → is_empty xs ≡ false
not_empty [] h = absurd (h refl)
not_empty (x ∷ xs) h = refl

module _ (t : TaskListArtifact) where
  -- The four rules, as the code tests them.
  record Rules : Type 0 where
    pairing : pairing_errors (implementation_task_ids t.tasks) (paired_unit_tests t.tasks) ≡ []
    surface : t.public_surface_change && not (any is_e2e t.required_test_targets) ≡ false
    quality : is_empty t.required_quality_checks ≡ false
    some_id : is_empty (implementation_task_ids t.tasks) ≡ false

  Rules_of_valid : (validate_for_repo_write t).0 ≡ true → Rules
  unfolding validate_for_repo_write
  Rules_of_valid h =
      let e = append-eq-nil _ _ (is_empty-eq-nil (readiness_errors t) h) in
      record {
        pairing = e.0;
        surface = ground arith;
        quality = ground arith;
        some_id = ground arith;
      }

  valid_of_Rules : Rules → (validate_for_repo_write t).0 ≡ true
  unfolding validate_for_repo_write
  valid_of_Rules r = rw (r.pairing, r.surface, r.quality, r.some_id)

  HasImplementation-implementation_task_ids :
      is_empty (implementation_task_ids t.tasks) ≡ false → HasImplementation t.tasks
  unfolding implementation_task_ids
  HasImplementation-implementation_task_ids h =
      go (collect implementation_id t.tasks) h (λ i m. collect-In implementation_id i t.tasks m)
    where
      go :
          (ids : List String)
          → is_empty ids ≡ false
          → ((i : String) → In i ids → IsFrom implementation_id i t.tasks)
          → HasImplementation t.tasks
      go [] e f = cc
      go (i ∷ ids) e f =
          let from = f i first in
          record {
            task = from.task;
            member = from.member;
            is_implementation = (implementation_id-category from.task i from.gives).0;
          }

  implementation_id-some :
      (task : TaskItem)
      → task.category ≡ implementation
      → implementation_id task ≡ some task.task_id
  implementation_id-some task h = ground arith

  In-implementation_task_ids :
      (task : TaskItem)
      → In task t.tasks
      → task.category ≡ implementation
      → In task.task_id (implementation_task_ids t.tasks)
  unfolding implementation_task_ids
  In-implementation_task_ids task m c =
      In-collect implementation_id task.task_id task t.tasks m (implementation_id-some task c)

  is_empty-In : (i : String) (ids : List String) → In i ids → is_empty ids ≡ false
  is_empty-In i [] m = elim m [ ]
  is_empty-In i (j ∷ ids) m = refl

  -- A task list that `validate_for_repo_write` accepts is ready: every implementation task has a
  -- paired unit test, a public-surface change has an end-to-end target, a quality check is declared
  -- and there is an implementation task.
  pub valid_sound : (validate_for_repo_write t).0 ≡ true → IsRepoWriteReady t
  valid_sound h =
      let r = Rules_of_valid h in
      record {
        paired = λ task m c.
            IsPaired-In t task (
              pairing_errors_sound task.task_id _ _ r.pairing
                (In-implementation_task_ids task m c));
        covered = λ p. surface_covered r p;
        checked = λ e. cc (ap is_empty e, r.quality);
        implemented = HasImplementation-implementation_task_ids r.some_id;
      }
    where
      surface_covered :
          Rules → t.public_surface_change ≡ true → any is_e2e t.required_test_targets ≡ true
      surface_covered r p = ground (arith, r.surface)

  pub valid_complete : IsRepoWriteReady t → (validate_for_repo_write t).0 ≡ true
  valid_complete r = valid_of_Rules (record {
    pairing = pairing_errors_complete _ _ (λ i m. paired_ids r i m);
    surface = ground (arith, r.covered);
    quality = not_empty t.required_quality_checks r.checked;
    some_id = is_empty-In _ _ (
        In-implementation_task_ids r.implemented.task r.implemented.member
          r.implemented.is_implementation);
  })
    where
      paired_ids :
          IsRepoWriteReady t
          → (i : String) → In i (implementation_task_ids t.tasks)
          → In i (paired_unit_tests t.tasks)
      paired_ids r i m =
          let from = collect-In implementation_id i t.tasks (unfold implementation_task_ids in m) in
          let (c, e) = implementation_id-category from.task i from.gives in
          subst (λ x. In x (paired_unit_tests t.tasks)) e
            (In-IsPaired t from.task (r.paired from.task from.member c))

-- `validate_for_repo_write` accepts a task list exactly when every implementation task has a unit
-- test task paired with it, a public-surface change has an end-to-end target, some quality check is
-- declared, and some implementation task is there.
pub validate-IsRepoWriteReady :
    (t : TaskListArtifact) → ((validate_for_repo_write t).0 ≡ true) ↔ IsRepoWriteReady t
validate-IsRepoWriteReady t = (valid_sound t, valid_complete t)
