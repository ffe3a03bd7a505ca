-- ===== src/Tasks/Events/Final.antt =====
-- When a table of tasks has kept the terminal statuses of another, and the updates that keep them.
use visoraft.Prelude.{
  String, ◌≡◌, ap, inl, inr, Bool, true, false, Option, none, some, List, ◌&&◌, not, str_eq, arith,
  update, find, find-update, map_row, set_where, Bool-cases, str_eq_iff, find-update_ne,
}
use visoraft.Database.{Db, Task, TaskStatus, terminal_workflow_status, has_task_id, task_of}
use visoraft.Tasks.Envelope.{is_live_task}

abbrev pub status_of_row : Option Task → Option TaskStatus
status_of_row none = none
status_of_row (some t) = some t.status

abbrev pub status_of : Db → String → Option TaskStatus
status_of db id = status_of_row (task_of db id)

-- A task that stands in a terminal status in the first table has that status in the second.
pub record StaysFinal (xs ys : List Task) : Type 0 where
  pub at :
      (id : String) (s : TaskStatus)
      → status_of_row (find (has_task_id id) xs) ≡ some s
      → terminal_workflow_status s ≡ true
      → status_of_row (find (has_task_id id) ys) ≡ some s

pub StaysFinal-refl : (xs : List Task) → StaysFinal xs xs
StaysFinal-refl xs = record { at = λ id s h f. h }

row_final :
    (o : Option Task) (p : Task → Bool) (f : Task → Task) (s : TaskStatus)
    → ((t : Task) → terminal_workflow_status t.status ≡ true → p t ≡ false)
    → status_of_row o ≡ some s
    → terminal_workflow_status s ≡ true
    → status_of_row (map_row (set_where p f) o) ≡ some s
row_final none p f s apart h final = h
row_final (some t) p f s apart h final = ground (arith, apart t)

-- An UPDATE whose WHERE clause passes over terminal tasks.
pub guarded_update-StaysFinal :
    (id : String) (guard : TaskStatus → Bool) (f : Task → Task) (xs : List Task)
    → ((s : TaskStatus) → terminal_workflow_status s ≡ true → guard s ≡ false)
    → ((t : Task) → (f t).id ≡ t.id)
    → StaysFinal xs (update (λ t. str_eq t.id id && guard t.status) f xs)
guarded_update-StaysFinal id guard f xs apart keeps = record {
  at = λ other s h final.
      rw
        (find-update (has_task_id other) (λ t. str_eq t.id id && guard t.status) f xs
          (λ t. ap (λ (i : String). str_eq i other) (keeps t)))
        (row_final (find (has_task_id other) xs) (λ t. str_eq t.id id && guard t.status) f s
          (λ t e. ground (arith, apart t.status)) h final);
}

pub StaysFinal-trans :
    {xs ys zs : List Task} → StaysFinal xs ys → StaysFinal ys zs → StaysFinal xs zs
StaysFinal-trans p q = record { at = λ id s h final. q.at id s (p.at id s h final) final }

pub live_update-StaysFinal :
    (id : String) (f : Task → Task) (xs : List Task)
    → ((t : Task) → (f t).id ≡ t.id)
    → StaysFinal xs (update (is_live_task id) f xs)
live_update-StaysFinal id f xs keeps =
    guarded_update-StaysFinal id (λ s. not (terminal_workflow_status s)) f xs (λ s e. rw e) keeps

-- An UPDATE by the id alone, of a task whose row was read before and was not terminal.
pub read_update-StaysFinal :
    (id : String) (f : Task → Task) (xs : List Task) (t : Task)
    → find (has_task_id id) xs ≡ some t
    → terminal_workflow_status t.status ≡ false
    → ((t : Task) → (f t).id ≡ t.id)
    → StaysFinal xs (update (has_task_id id) f xs)
read_update-StaysFinal id f xs t read live keeps = record {
  at = λ other s h final. elim (Bool-cases (str_eq id other)) [
    | inl same ↦ absurd (ground (arith, str_eq_iff id other, read, same_row other))
    | inr apart ↦
        rw
          (find-update_ne (has_task_id other) (has_task_id id) f xs
            (λ t. ap (λ (i : String). str_eq i other) (keeps t))
            (λ x e. ground (arith, str_eq_iff x.id other, str_eq_iff x.id id, str_eq_iff id other)))
          h
  ];
}
  where
    same_row : (other : String) → id ≡ other → find (has_task_id other) xs ≡ some t
    same_row other e = rw (← e) read

-- An UPDATE that does not set the status.
pub keeping_update-StaysFinal :
    (p : Task → Bool) (f : Task → Task) (xs : List Task)
    → ((t : Task) → (f t).id ≡ t.id)
    → ((t : Task) → (f t).status ≡ t.status)
    → StaysFinal xs (update p f xs)
keeping_update-StaysFinal p f xs keeps same = record {
  at = λ other s h final.
      rw
        (find-update (has_task_id other) p f xs
          (λ t. ap (λ (i : String). str_eq i other) (keeps t)))
        (row_kept (find (has_task_id other) xs) p f s same h);
}
  where
    row_kept :
        (o : Option Task) (p : Task → Bool) (f : Task → Task) (s : TaskStatus)
        → ((t : Task) → (f t).status ≡ t.status)
        → status_of_row o ≡ some s
        → status_of_row (map_row (set_where p f) o) ≡ some s
    row_kept none p f s same h = h
    row_kept (some t) p f s same h = ground (arith, same t)
