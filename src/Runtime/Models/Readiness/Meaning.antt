-- ===== src/Runtime/Models/Readiness/Meaning.antt =====
-- What `validate_for_repo_write` accepts, in terms of the tasks and not of the sets built from them.
use multi_agent_langgraph.Base.{
  ◌≡◌, ◌≢◌, refl, arith, String, true, Option, none, some, List, [], ◌∷◌, In, first, later,
  contains, contains-In, In-contains, string_key, Bool-cases, inl, inr, ◌⊎◌, subst, ap, any,
}
use multi_agent_langgraph.Runtime.Models.{TaskItem, TaskListArtifact, implementation, unit_test}
use multi_agent_langgraph.Runtime.Models.Readiness.{
  collect, put, pairing_errors, is_e2e, implementation_id, paired_id, implementation_task_ids,
  paired_unit_tests,
}

some_eq : (i j : String) → some i ≡ some j → i ≡ j
some_eq i j h = cc

In-cons : (i j : String) (ids : List String) → In i (j ∷ ids) → (j ≡ i) ⊎ In i ids
In-cons i j ids first = inl refl
In-cons i j ids (later m) = inr m

In-put_self : (i : String) (ids : List String) → In i (put (some i) ids)
In-put_self i ids = elim (Bool-cases (contains i ids)) [
  | inl p ↦ rw p (In-contains i ids p)
  | inr p ↦ rw p first
]

-- The first member of a collected set comes from a task, and each contribution is a member.
module _ (f : TaskItem → Option String) where
  In-put_new : (o : Option String) (i : String) (ids : List String) → o ≡ some i → In i (put o ids)
  In-put_new none i ids h = cc
  In-put_new (some j) i ids h =
      subst (λ x. In x (put (some j) ids)) (some_eq j i h) (In-put_self j ids)

  In-put_old : (o : Option String) (i : String) (ids : List String) → In i ids → In i (put o ids)
  In-put_old none i ids m = m
  In-put_old (some j) i ids m = elim (Bool-cases (contains j ids)) [
    | inl p ↦ rw p m
    | inr p ↦ rw p (later m)
  ]

  pub In-collect :
      (i : String) (task : TaskItem) (tasks : List TaskItem)
      → In task tasks
      → f task ≡ some i
      → In i (collect f tasks)
  unfolding collect
  In-collect i task [] m h = elim m [ ]
  In-collect i task (t ∷ tasks) first h = In-put_new (f t) i (collect f tasks) h
  In-collect i task (t ∷ tasks) (later m) h =
      In-put_old (f t) i (collect f tasks) (In-collect i task tasks m h)

  pub record IsFrom (i : String) (tasks : List TaskItem) : Type 0 where
    pub task : TaskItem
    pub member : In task tasks
    pub gives : f task ≡ some i

  from_cons : {i j : String} {ids : List String} → (j ≡ i) ⊎ In i ids → (some j ≡ some i) ⊎ In i ids
  from_cons (inl e) = inl (ap some e)
  from_cons (inr m) = inr m

  In-put :
      (o : Option String) (i : String) (ids : List String)
      → In i (put o ids)
      → (o ≡ some i) ⊎ In i ids
  In-put none i ids m = inr m
  In-put (some j) i ids m = elim (Bool-cases (contains j ids)) [
    | inl p ↦ inr (rw p at m)
    | inr p ↦ from_cons (In-cons i j ids (rw p at m))
  ]

  pub collect-In : (i : String) (tasks : List TaskItem) → In i (collect f tasks) → IsFrom i tasks
  unfolding collect
  collect-In i [] m = elim m [ ]
  collect-In i (t ∷ tasks) m = elim (In-put (f t) i (collect f tasks) m) [
    | inl e ↦ record { task = t; member = first; gives = e }
    | inr old ↦
        let from = collect-In i tasks old in
        record { task = from.task; member = later from.member; gives = from.gives }
  ]

-- An id is reported unless it is among the paired ones.
pub pairing_errors_sound :
    (i : String) (ids paired : List String)
    → pairing_errors ids paired ≡ []
    → In i ids
    → In i paired
unfolding pairing_errors
pairing_errors_sound i [] paired h m = elim m [ ]
pairing_errors_sound i (j ∷ ids) paired h first = In-contains i paired (ground arith)
pairing_errors_sound i (j ∷ ids) paired h (later m) =
    pairing_errors_sound i ids paired (ground arith) m

pub pairing_errors_complete :
    (ids paired : List String)
    → ((i : String) → In i ids → In i paired)
    → pairing_errors ids paired ≡ []
unfolding pairing_errors
pairing_errors_complete [] paired h = refl
pairing_errors_complete (j ∷ ids) paired h =
    rw (contains-In j paired (h j first))
      (pairing_errors_complete ids paired (λ i m. h i (later m)))

-- A unit test task that is paired with the implementation task `task`.
pub record IsPaired (tasks : List TaskItem) (task : TaskItem) : Type 0 where
  pub test : TaskItem
  pub member : In test tasks
  pub is_test : test.category ≡ unit_test
  pub pair : test.paired_with ≡ some task.task_id
  pub named : task.task_id ≢ ""

pub record HasImplementation (tasks : List TaskItem) : Type 0 where
  pub task : TaskItem
  pub member : In task tasks
  pub is_implementation : task.category ≡ implementation

-- What must hold of a task list before anything is written to the repository.
pub record IsRepoWriteReady (t : TaskListArtifact) : Type 0 where
  pub paired :
      (task : TaskItem) → In task t.tasks → task.category ≡ implementation → IsPaired t.tasks task
  pub covered : t.public_surface_change ≡ true → any is_e2e t.required_test_targets ≡ true
  pub checked : t.required_quality_checks ≢ []
  pub implemented : HasImplementation t.tasks

pub implementation_id-category :
    (task : TaskItem) (i : String)
    → implementation_id task ≡ some i
    → (task.category ≡ implementation) × (task.task_id ≡ i)
implementation_id-category task i h = ground arith

paired_id-category :
    (task : TaskItem) (i : String)
    → paired_id task ≡ some i
    → (task.category ≡ unit_test) × (task.paired_with ≡ some i) × (i ≢ "")
paired_id-category task i h = ground (arith, string_key.beq_iff i "")

paired_id-some :
    (task : TaskItem) (i : String)
    → task.category ≡ unit_test
    → task.paired_with ≡ some i
    → i ≢ ""
    → paired_id task ≡ some i
paired_id-some task i c p n = ground (arith, string_key.beq_iff i "")

module _ (t : TaskListArtifact) where
  abbrev ids : List String
  ids = implementation_task_ids t.tasks

  pub IsPaired-In :
      (task : TaskItem) → In task.task_id (paired_unit_tests t.tasks) → IsPaired t.tasks task
  unfolding paired_unit_tests
  IsPaired-In task m =
      let from = collect-In paired_id task.task_id t.tasks m in
      let (c, p, n) = paired_id-category from.task task.task_id from.gives in
      record { test = from.task; member = from.member; is_test = c; pair = p; named = n }

  pub In-IsPaired :
      (task : TaskItem) → IsPaired t.tasks task → In task.task_id (paired_unit_tests t.tasks)
  unfolding paired_unit_tests
  In-IsPaired task p =
      In-collect paired_id task.task_id p.test t.tasks p.member
        (paired_id-some p.test task.task_id p.is_test p.pair p.named)
