-- ===== src/Reviews/Rules.antt =====
-- The rules of internal/reviews/service.go: `evaluateRules`, `evaluateModerationRule`,
-- `loadLatestModerationTx` and the query for the subtitles' score. Of a rule's result the key and whether
-- it passed are kept.
use visoraft.Prelude.{
  ℕ, ℤ, pos, String, Bool, true, false, Option, none, some, List, [], ◌∷◌, ◌++◌, ◌&&◌, ◌||◌, not,
  str_eq, ltb, ◌==◌, count, trim_space, rune_count, gtb_ℤ, leb_ℤ, hundredfold, if◌then◌else◌,
}
use visoraft.Database.{
  Db, Task, AutomaticReviewRules, SubtitleDocument, ModerationRun, ModerationStatus, is_available,
}
use visoraft.Moderation.Model.{pass, manual_review, block}

pub record RuleResult : Type 0 where
  pub key : String
  pub passed : Bool

-- What the rules look at.
pub record Subject : Type 0 where
  pub media_count : ℕ
  pub title : String
  pub description : String
  pub duration : Option ℤ
  pub qc_score : Option ℤ

-- append, under an if
abbrev appended_when : Bool → String → Bool → List RuleResult
appended_when applies key passed =
    if applies then record { key = key; passed = passed } ∷ [] else []

-- duration != nil && actual <= maximum
abbrev within : Option ℤ → ℤ → Bool
within none maximum = false
within (some actual) maximum = leb_ℤ actual maximum

-- qcScore != nil && round(score * 100) / 100 >= minimum
abbrev reaches : Option ℤ → ℤ → Bool
reaches none minimum = false
reaches (some hundredths) minimum = leb_ℤ (hundredfold minimum) hundredths

unfoldable pub evaluate_rules : AutomaticReviewRules → Subject → List RuleResult
evaluate_rules rules s =
    appended_when rules.require_media "media_present" (ltb 0 s.media_count)
    ++ (appended_when rules.require_title "title_present" (not (str_eq (trim_space s.title) ""))
        ++ (appended_when (gtb_ℤ rules.minimum_description_length 0) "description_length"
              (leb_ℤ rules.minimum_description_length (pos (rune_count (trim_space s.description))))
            ++ (appended_when (gtb_ℤ rules.maximum_duration_seconds 0) "duration_limit"
                  (within s.duration rules.maximum_duration_seconds)
                ++ appended_when rules.require_subtitle_qc "subtitle_qc"
                    (reaches s.qc_score rules.minimum_subtitle_qc_score))))

-- ORDER BY created_at DESC LIMIT 1
abbrev latest : ModerationRun → Option ModerationRun → ModerationRun
latest r none = r
latest r (some other) = if ltb r.created_at other.created_at then other else r

unfoldable pub latest_moderation : String → List ModerationRun → Option ModerationRun
latest_moderation id [] = none
latest_moderation id (r ∷ rs) =
    let rest = latest_moderation id rs in if str_eq r.task_id id then some (latest r rest) else rest

abbrev pub is_passed : ModerationStatus → Bool
is_passed ModerationStatus.passed = true
is_passed _ = false

-- Whether the rule is met, and whether the review is forced to be manual.
abbrev pub moderation_verdict : Option ModerationRun → Bool × Bool
moderation_verdict none = (false, true)
moderation_verdict (some run) =
    if is_passed run.status && str_eq run.decision pass
    then (true, false)
    else if str_eq run.decision manual_review
    then (false, true)
    else if str_eq run.decision block
    then (false, false)
    else (false, true)

unfoldable pub evaluate_moderation_rule : Option ModerationRun → RuleResult × Bool
evaluate_moderation_rule run = (
  record { key = "content_moderation"; passed = (moderation_verdict run).0 },
  (moderation_verdict run).1,
)

-- ORDER BY CASE WHEN kind='translated' THEN 0 ELSE 1 END, version DESC, created_at DESC
abbrev kind_rank : SubtitleDocument → ℕ
kind_rank d = if str_eq d.kind "translated" then 0 else 1

abbrev comes_before : SubtitleDocument → SubtitleDocument → Bool
comes_before a b =
    ltb (kind_rank a) (kind_rank b)
    || (kind_rank a == kind_rank b
        && (ltb b.version a.version || (a.version == b.version && ltb b.created_at a.created_at)))

abbrev first_document : SubtitleDocument → Option SubtitleDocument → SubtitleDocument
first_document d none = d
first_document d (some other) = if comes_before other d then other else d

abbrev has_score : SubtitleDocument → Bool
has_score d = elim d.qc_score [ none ↦ false | some score ↦ true ]

unfoldable pub scored_document : String → List SubtitleDocument → Option SubtitleDocument
scored_document id [] = none
scored_document id (d ∷ ds) =
    let rest = scored_document id ds in
    if str_eq d.task_id id && has_score d then some (first_document d rest) else rest

abbrev score_of : Option SubtitleDocument → Option ℤ
score_of none = none
score_of (some d) = d.qc_score

unfoldable pub review_subject : String → Task → Db → Subject
unfolding scored_document
review_subject id t db = record {
  media_count =
      count (λ m. str_eq m.task_id id && (str_eq m.kind "source" && is_available m.status))
        db.media_assets;
  title = t.title;
  description = t.description;
  duration = t.duration_seconds;
  qc_score = score_of (scored_document id db.subtitle_documents);
}

-- The results of all rules, that of moderation last, and whether the review is forced to be manual.
unfoldable pub review_rules : String → Task → Db → List RuleResult × Bool
unfolding evaluate_rules evaluate_moderation_rule latest_moderation review_subject
review_rules id t db =
    let results = evaluate_rules t.settings_snapshot.review_rules (review_subject id t db) in
    let moderation = evaluate_moderation_rule (latest_moderation id db.moderation_runs) in
    if t.settings_snapshot.moderation_enabled
    then (results ++ (moderation.0 ∷ []), moderation.1)
    else (results, false)

unfoldable pub all_passed : List RuleResult → Bool
all_passed [] = true
all_passed (r ∷ rs) = r.passed && all_passed rs
