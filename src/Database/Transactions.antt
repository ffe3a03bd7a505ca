-- ===== src/Database/Transactions.antt =====
-- Transactions: a body that returns an error is rolled back, and leaves the database as it was.
use visoraft.Prelude.{
  String, Bool, true, false, Option, none, some, ◌&&◌, not, str_eq, find, exists,
}
use visoraft.Database.Status.{StepKind, terminal_workflow_status, kind_eq}
use visoraft.Database.Rows.{Task, Step, Db}

-- What a transaction refuses with: `tasks.ErrNotFound`, a `ConflictError` with its code (its Message
-- is for the user and left out), or a plain error with its text.
pub data Error : Type 0 where
  not_found : Error
  conflict : String → Error
  invalid : String → Error

pub data Result {ℓ} (A : Type ℓ) : Type ℓ where
  ok : A → Result A
  err : Error → Result A

infixl 5 ◌>>=◌ ◌>>◌
unfoldable pub ◌>>=◌ {ℓ κ} : {A : Type ℓ} {B : Type κ} → Result A → (A → Result B) → Result B
ok a >>= f = f a
err e >>= f = err e

unfoldable pub ◌>>◌ {ℓ} : {B : Type ℓ} → Result (Unit {0}) → Result B → Result B
ok _ >> k = k
err e >> k = err e

-- if !test { return error }
unfoldable pub require : Bool → Error → Result (Unit {0})
require true e = ok tt
require false e = err e

unfoldable pub or_fail {ℓ} : {A : Type ℓ} → Option A → Error → Result A
or_fail none e = err e
or_fail (some a) e = ok a

abbrev pub Outcome : Type 0
Outcome = Db × Option Error

-- COMMIT of a body that ended well, ROLLBACK of one that did not.
abbrev pub commit : Db → Result Db → Outcome
commit before (ok after) = (after, none)
commit before (err e) = (before, some e)

abbrev pub has_task_id : String → Task → Bool
has_task_id id t = str_eq t.id id

abbrev pub is_step : String → StepKind → Step → Bool
is_step id k s = str_eq s.task_id id && kind_eq s.kind k

-- SELECT … FROM tasks WHERE id=$1
abbrev pub task_of : Db → String → Option Task
task_of db id = find (has_task_id id) db.tasks

-- SELECT … FROM task_steps WHERE task_id=$1 AND kind=$2
abbrev pub step_of : Db → String → StepKind → Option Step
step_of db id k = find (is_step id k) db.task_steps

-- The join `FROM tasks AS task WHERE task.id=step.task_id AND task.status NOT IN (…)`.
abbrev pub task_is_live : Db → String → Bool
task_is_live db id =
    exists (λ t. str_eq t.id id && not (terminal_workflow_status t.status)) db.tasks
