-- ===== src/Tasks/Events/Effect.antt =====
-- What a workflow event for one task may do to the tables: terminal tasks keep their status, the
-- rows and the steps of other tasks stay, and no message is taken back from the consumed ones.
use visoraft.Prelude.{
  String, ◌≡◌, refl, ap, ◌∙◌, Bool, true, false, List, ◌∷◌, ◌&&◌, str_eq, str_eq_iff, some, arith,
  find, exists, update, find-update_ne, Bool-cases, inl, inr,
}
use visoraft.Database.{
  Db, Task, Step, StepKind, TaskStatus, terminal_workflow_status, has_task_id, is_step,
}
use visoraft.Tasks.Envelope.{is_live_task}
use visoraft.Tasks.Metadata.{insert_step}
use visoraft.Tasks.Events.Final.{
  StaysFinal, StaysFinal-refl, StaysFinal-trans, live_update-StaysFinal, guarded_update-StaysFinal,
  read_update-StaysFinal, keeping_update-StaysFinal,
}

pub record TasksEffect (id : String) (xs ys : List Task) : Type 0 where
  pub final : StaysFinal xs ys
  pub elsewhere :
      (other : String)
      → str_eq id other ≡ false
      → find (has_task_id other) ys ≡ find (has_task_id other) xs

pub record StepsEffect (id : String) (xs ys : List Step) : Type 0 where
  pub elsewhere :
      (other : String) (k : StepKind)
      → str_eq id other ≡ false
      → find (is_step other k) ys ≡ find (is_step other k) xs

pub record Effect (id : String) (before after : Db) : Type 0 where
  pub tasks : TasksEffect id before.tasks after.tasks
  pub steps : StepsEffect id before.task_steps after.task_steps
  pub consumed : after.consumed_messages ≡ before.consumed_messages

-- The ids a, id and other: a row of `other` is no row of `id`.
apart_ids :
    (a id other : String) → str_eq id other ≡ false → str_eq a other ≡ true → str_eq a id ≡ false
apart_ids a id other apart h =
    ground (arith, str_eq_iff a other, str_eq_iff a id, str_eq_iff id other)

tasks_elsewhere :
    (id : String) (p : Task → Bool) (f : Task → Task) (xs : List Task)
    → ((t : Task) → str_eq t.id id ≡ false → p t ≡ false)
    → ((t : Task) → (f t).id ≡ t.id)
    → (other : String) → str_eq id other ≡ false
    → find (has_task_id other) (update p f xs) ≡ find (has_task_id other) xs
tasks_elsewhere id p f xs within keeps other apart =
    find-update_ne (has_task_id other) p f xs (λ t. ap (λ (i : String). str_eq i other) (keeps t))
      (λ t e. within t (apart_ids t.id id other apart e))

pub TasksEffect-refl : (id : String) (xs : List Task) → TasksEffect id xs xs
TasksEffect-refl id xs = record { final = StaysFinal-refl xs; elsewhere = λ other apart. refl }

pub TasksEffect-trans :
    {id : String} {xs ys zs : List Task}
    → TasksEffect id xs ys
    → TasksEffect id ys zs
    → TasksEffect id xs zs
TasksEffect-trans p q = record {
  final = StaysFinal-trans p.final q.final;
  elsewhere = λ other apart. q.elsewhere other apart ∙ p.elsewhere other apart;
}

module _ (id : String) where
  pub live_update-TasksEffect :
      (f : Task → Task) (xs : List Task)
      → ((t : Task) → (f t).id ≡ t.id)
      → TasksEffect id xs (update (is_live_task id) f xs)
  live_update-TasksEffect f xs keeps = record {
    final = live_update-StaysFinal id f xs keeps;
    elsewhere = tasks_elsewhere id (is_live_task id) f xs (λ t e. rw e) keeps;
  }

  pub guarded_update-TasksEffect :
      (guard : TaskStatus → Bool) (f : Task → Task) (xs : List Task)
      → ((s : TaskStatus) → terminal_workflow_status s ≡ true → guard s ≡ false)
      → ((t : Task) → (f t).id ≡ t.id)
      → TasksEffect id xs (update (λ t. str_eq t.id id && guard t.status) f xs)
  guarded_update-TasksEffect guard f xs live keeps = record {
    final = guarded_update-StaysFinal id guard f xs live keeps;
    elsewhere = tasks_elsewhere id (λ t. str_eq t.id id && guard t.status) f xs (λ t e. rw e) keeps;
  }

  pub read_update-TasksEffect :
      (f : Task → Task) (xs : List Task) (t : Task)
      → find (has_task_id id) xs ≡ some t
      → terminal_workflow_status t.status ≡ false
      → ((t : Task) → (f t).id ≡ t.id)
      → TasksEffect id xs (update (has_task_id id) f xs)
  read_update-TasksEffect f xs t read live keeps = record {
    final = read_update-StaysFinal id f xs t read live keeps;
    elsewhere = tasks_elsewhere id (has_task_id id) f xs (λ t e. e) keeps;
  }

  pub keeping_update-TasksEffect :
      (f : Task → Task) (xs : List Task)
      → ((t : Task) → (f t).id ≡ t.id)
      → ((t : Task) → (f t).status ≡ t.status)
      → TasksEffect id xs (update (has_task_id id) f xs)
  keeping_update-TasksEffect f xs keeps same = record {
    final = keeping_update-StaysFinal (has_task_id id) f xs keeps same;
    elsewhere = tasks_elsewhere id (has_task_id id) f xs (λ t e. e) keeps;
  }

  pub StepsEffect-refl : (xs : List Step) → StepsEffect id xs xs
  StepsEffect-refl xs = record { elsewhere = λ other k apart. refl }

  pub StepsEffect-trans :
      {xs ys zs : List Step} → StepsEffect id xs ys → StepsEffect id ys zs → StepsEffect id xs zs
  StepsEffect-trans p q = record {
    elsewhere = λ other k apart. q.elsewhere other k apart ∙ p.elsewhere other k apart;
  }

  step_apart :
      (s : Step) (other : String) (k : StepKind)
      → str_eq id other ≡ false
      → is_step other k s ≡ true
      → str_eq s.task_id id ≡ false
  step_apart s other k apart h = apart_ids s.task_id id other apart (ground arith)

  -- An UPDATE of the task's own steps.
  pub update-StepsEffect :
      (p : Step → Bool) (f : Step → Step) (xs : List Step)
      → ((s : Step) → str_eq s.task_id id ≡ false → p s ≡ false)
      → ((other : String) (k : StepKind) (s : Step) → is_step other k (f s) ≡ is_step other k s)
      → StepsEffect id xs (update p f xs)
  update-StepsEffect p f xs within keeps = record {
    elsewhere = λ other k apart.
        find-update_ne (is_step other k) p f xs (keeps other k)
          (λ s e. within s (step_apart s other k apart e));
  }

  pub cons-StepsEffect : (s : Step) (xs : List Step) → s.task_id ≡ id → StepsEffect id xs (s ∷ xs)
  unfolding find
  cons-StepsEffect s xs own = record { elsewhere = λ other k apart. rw own (rw apart refl) }

  pub insert_step-StepsEffect :
      (s : Step) (xs : List Step) → s.task_id ≡ id → StepsEffect id xs (insert_step s xs)
  unfolding insert_step
  insert_step-StepsEffect s xs own = elim (Bool-cases (exists (is_step s.task_id s.kind) xs)) [
    | inl there ↦ rw there (StepsEffect-refl xs)
    | inr new ↦ rw new (cons-StepsEffect s xs own)
  ]

pub Effect-refl : (id : String) (db : Db) → Effect id db db
Effect-refl id db = record {
  tasks = TasksEffect-refl id db.tasks;
  steps = StepsEffect-refl id db.task_steps;
  consumed = refl;
}

pub Effect-trans : {id : String} {a b c : Db} → Effect id a b → Effect id b c → Effect id a c
Effect-trans {id} p q = record {
  tasks = TasksEffect-trans p.tasks q.tasks;
  steps = StepsEffect-trans id p.steps q.steps;
  consumed = q.consumed ∙ p.consumed;
}
