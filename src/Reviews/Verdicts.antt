-- ===== src/Reviews/Verdicts.antt =====
-- What an evaluation settles on: when a task is approved without an operator, and what waits for him.
use visoraft.Prelude.{
  ℕ, String, ◌≡◌, refl, sym, ap, ◌∙◌, Bool, true, false, Option, none, some, List, [], ◌∷◌, ◌++◌,
  ◌&&◌, str_eq, arith, find-update_self, Bool-cases, inl, inr, ◌⊎◌, if◌then◌else◌,
}
use visoraft.Database.{
  Db, Task, ok, Ensures, committed, Ensures-require, Ensures-or_fail, Ensures-ok, Ensures-self,
  has_task_id, task_of, ReviewMode, ReviewRun, ModerationRun, review_run_is_open,
}
use visoraft.Moderation.Model.{pass}
use visoraft.Reviews.Rules.{
  RuleResult, evaluate_rules, review_subject, evaluate_moderation_rule, latest_moderation,
  moderation_verdict, is_passed, review_rules, all_passed,
}
use visoraft.Reviews.Evaluate.{
  is_evaluable, is_unreviewed, Verdict, verdict_of, review_verdict, record_verdict, reviewed_task,
  is_approved, is_pending, Publications, evaluate_body, insert_runs, manual_run, evaluation_run,
  insert_action, insert_review_audit,
}

all_passed-append :
    (xs ys : List RuleResult) → all_passed (xs ++ ys) ≡ (all_passed xs && all_passed ys)
unfolding all_passed
all_passed-append [] ys = refl
all_passed-append (x ∷ xs) ys = rw (all_passed-append xs ys) (and_assoc x.passed _ _)
  where
    and_assoc : (a b c : Bool) → (a && (b && c)) ≡ ((a && b) && c)
    and_assoc true b c = refl
    and_assoc false b c = refl

-- The latest moderation run has passed.
abbrev pub moderation_passed : Option ModerationRun → Bool
moderation_passed none = false
moderation_passed (some run) = is_passed run.status && str_eq run.decision pass

-- A moderation that is met never forces a manual review.
verdict_passed : (run : Option ModerationRun) → (moderation_verdict run).0 ≡ moderation_passed run
verdict_passed none = refl
verdict_passed (some run) = elim (Bool-cases (is_passed run.status && str_eq run.decision pass)) [
  | inl met ↦ rw met refl
  | inr unmet ↦ rw unmet (ground arith)
]

-- What approves a task without an operator.
pub record Approval (id : String) (t : Task) (db : Db) : Type 0 where
  pub automatic : t.review_mode ≡ ReviewMode.automatic
  pub rules :
      all_passed (evaluate_rules t.settings_snapshot.review_rules (review_subject id t db)) ≡ true
  pub moderation :
      t.settings_snapshot.moderation_enabled ≡ true
      → moderation_passed (latest_moderation id db.moderation_runs) ≡ true

neither_approved :
    (b : Bool) (x y : Verdict)
    → is_approved x.review_status ≡ false
    → is_approved y.review_status ≡ false
    → is_approved (if b then x else y).review_status ≡ false
neither_approved true x y p q = p
neither_approved false x y p q = q

verdict-approved :
    (mode : ReviewMode) (forced passed : Bool) (fallback : String)
    → is_approved (verdict_of mode forced passed fallback).review_status ≡ true
    → (mode ≡ ReviewMode.automatic) × (passed ≡ true)
unfolding verdict_of
verdict-approved ReviewMode.manual forced passed fallback h = cc
verdict-approved ReviewMode.automatic true passed fallback h = cc
verdict-approved ReviewMode.automatic false true fallback h = (refl, refl)
verdict-approved ReviewMode.automatic false false fallback h =
    absurd (differ (sym h ∙ neither_approved (str_eq fallback "reject") _ _ refl refl))
  where
    differ : ¬ (true ≡ false)
    differ e = cc

rules-passed :
    (id : String) (t : Task) (db : Db)
    → all_passed (review_rules id t db).0 ≡ true
    → (all_passed (evaluate_rules t.settings_snapshot.review_rules (review_subject id t db)) ≡ true)
      × (t.settings_snapshot.moderation_enabled ≡ true
          → moderation_passed (latest_moderation id db.moderation_runs) ≡ true)
unfolding review_rules evaluate_moderation_rule all_passed
rules-passed id t db h = elim (Bool-cases t.settings_snapshot.moderation_enabled) [
  | inl enabled ↦ (
    (and_true _ _ (met enabled)).0,
    λ _.
        sym (verdict_passed (latest_moderation id db.moderation_runs))
        ∙ left_true _ (and_true _ _ (met enabled)).1,
  )
  | inr disabled ↦ (
    ap all_passed (ap (λ (r : List RuleResult × Bool). r.0) (sym (chosen disabled))) ∙ h,
    λ enabled. absurd (differ (sym enabled ∙ disabled)),
  )
]
  where
    results : List RuleResult
    results = evaluate_rules t.settings_snapshot.review_rules (review_subject id t db)

    rule : RuleResult
    rule = (evaluate_moderation_rule (latest_moderation id db.moderation_runs)).0

    joined :
        t.settings_snapshot.moderation_enabled ≡ true
        → review_rules id t db ≡ (
          results ++ (rule ∷ []),
          (evaluate_moderation_rule (latest_moderation id db.moderation_runs)).1,
        )
    joined enabled = rw enabled refl

    met :
        t.settings_snapshot.moderation_enabled ≡ true
        → (all_passed results && all_passed (rule ∷ [])) ≡ true
    met enabled =
        sym (all_passed-append results (rule ∷ []))
        ∙ (ap all_passed (ap (λ (r : List RuleResult × Bool). r.0) (sym (joined enabled))) ∙ h)

    chosen :
        t.settings_snapshot.moderation_enabled ≡ false → review_rules id t db ≡ (results, false)
    chosen disabled = rw disabled refl

    differ : ¬ (true ≡ false)
    differ e = cc

    and_true : (a b : Bool) → (a && b) ≡ true → (a ≡ true) × (b ≡ true)
    and_true a b e = ground arith

    left_true : (a : Bool) → (a && true) ≡ true → a ≡ true
    left_true a e = ground arith

pub approval :
    (id : String) (t : Task) (db : Db)
    → is_approved (review_verdict id t db).review_status ≡ true
    → Approval id t db
unfolding review_verdict
approval id t db h = record { automatic = mode.0; rules = rules.0; moderation = rules.1 }
  where
    mode : (t.review_mode ≡ ReviewMode.automatic) × (all_passed (review_rules id t db).0 ≡ true)
    mode = verdict-approved t.review_mode (review_rules id t db).1 _ _ h

    rules :
        (all_passed (evaluate_rules t.settings_snapshot.review_rules (review_subject id t db))
          ≡ true)
        × (t.settings_snapshot.moderation_enabled ≡ true
            → moderation_passed (latest_moderation id db.moderation_runs) ≡ true)
    rules = rules-passed id t db mode.1

-- The way of a task that is not approved: its row carries the verdict, and its review is over or pending.
pub record Held (id : String) (t : Task) (v : Verdict) (now : ℕ) (after : Db) : Type 0 where
  pub row : task_of after id ≡ some (reviewed_task v now t)
  pub unapproved : is_approved v.review_status ≡ false

pub record Evaluation (publications : Publications) (ids : ℕ → String) (id : String) (now : ℕ)
    (db after : Db) : Type 0 where
  pub task : Task
  pub read : task_of db id ≡ some task
  pub evaluable : is_evaluable task.status && is_unreviewed task.review_status ≡ true
  pub settled :
      Held id task (review_verdict id task db) now after
      ⊎ (Approval id task db
          × (publications id now (record_verdict ids id task (review_verdict id task db) now db)
              ≡ ok after))

record_verdict-row :
    (ids : ℕ → String) (id : String) (t : Task) (v : Verdict) (now : ℕ) (db : Db)
    → task_of db id ≡ some t
    → task_of (record_verdict ids id t v now db) id ≡ some (reviewed_task v now t)
unfolding record_verdict insert_review_audit insert_action
record_verdict-row ids id t v now db read = elim (Bool-cases (str_eq v.action "")) [
  | inl silent ↦
      rw silent
        (find-update_self (has_task_id id) (reviewed_task v now) db.tasks t (λ t. refl) read)
  | inr loud ↦
      rw loud (find-update_self (has_task_id id) (reviewed_task v now) db.tasks t (λ t. refl) read)
]

evaluate_body-Evaluation :
    (publications : Publications) (ids : ℕ → String) (id : String) (now : ℕ) (db : Db)
    → Ensures (Evaluation publications ids id now db) (evaluate_body publications ids id now db)
unfolding evaluate_body
evaluate_body-Evaluation publications ids id now db = Ensures-require _ _ _ (λ known.
    Ensures-or_fail _ _ _ (λ t read. Ensures-require _ _ _ (λ evaluable.
      elim (Bool-cases (is_approved (review_verdict id t db).review_status)) [
        | inl approved ↦ rw approved (
            Ensures-self _ (λ after prepared. record {
              task = t;
              read = read;
              evaluable = evaluable;
              settled = inr (approval id t db approved, prepared);
            }))
        | inr held ↦ rw held (
            committed (record {
              task = t;
              read = read;
              evaluable = evaluable;
              settled = inl (record {
                row = record_verdict-row ids id t (review_verdict id t db) now db read;
                unapproved = held;
              });
            }))
      ])))

-- An evaluation that succeeds was asked of a task in processing or awaiting its review, whose review has
-- not been decided. Without an operator it approves a task only in the automatic mode, where all rules
-- of the settings pass and, with moderation enabled, the latest moderation run has passed with the
-- decision to pass; then the publications are prepared in the same transaction. In every other case the
-- task's row carries the verdict, which is no approval.
pub evaluate_body-settles :
    (publications : Publications) (ids : ℕ → String) (id : String) (now : ℕ) (db after : Db)
    → evaluate_body publications ids id now db ≡ ok after
    → Evaluation publications ids id now db after
evaluate_body-settles publications ids id now db after h =
    Ensures-ok (evaluate_body-Evaluation publications ids id now db) h

mode-cases : (m : ReviewMode) → (m ≡ ReviewMode.manual) ⊎ (m ≡ ReviewMode.automatic)
mode-cases ReviewMode.manual = inl refl
mode-cases ReviewMode.automatic = inr refl

manual_run_open :
    (id : String) (t : Task) (db : Db)
    → t.review_mode ≡ ReviewMode.manual
    → review_run_is_open (review_verdict id t db).run_status ≡ true
unfolding review_verdict verdict_of
manual_run_open id t db m = rw m refl

-- An open review run of an operator, begun at that time, is the newest row.
pub record ManualRun (id : String) (now : ℕ) (runs : List ReviewRun) : Type 0 where
  pub run : ReviewRun
  pub older : List ReviewRun
  pub newest : runs ≡ run ∷ older
  pub task : run.task_id ≡ id
  pub manual : run.mode ≡ ReviewMode.manual
  pub started : run.started_at ≡ now
  pub is_open : review_run_is_open run.status ≡ true

-- A task that an evaluation leaves to the operator has a manual review run that is open, begun by this very
-- evaluation, whatever mode the task has.
pub insert_runs-manual :
    (ids : ℕ → String) (id : String) (t : Task) (now : ℕ) (db : Db)
    → is_pending (review_verdict id t db).review_status ≡ true
    → ManualRun id now (insert_runs ids id t (review_verdict id t db) now db)
unfolding insert_runs
insert_runs-manual ids id t now db pending = elim (mode-cases t.review_mode) [
  | inl m ↦ record {
    run = evaluation_run (ids 0) id t (review_verdict id t db) now;
    older = db.review_runs;
    newest = rw m refl;
    task = refl;
    manual = m;
    started = refl;
    is_open = manual_run_open id t db m;
  }
  | inr m ↦ record {
    run = manual_run (ids 1) id t now;
    older = evaluation_run (ids 0) id t (review_verdict id t db) now ∷ db.review_runs;
    newest = rw pending (rw m refl);
    task = refl;
    manual = refl;
    started = refl;
    is_open = refl;
  }
]
