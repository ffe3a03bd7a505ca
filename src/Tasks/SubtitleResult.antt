-- ===== src/Tasks/SubtitleResult.antt =====
-- What a subtitle worker reports, and its contract: `normalizeAndValidateSubtitleResult` and
-- `ValidateSubtitleProcessingResult` of internal/tasks/postgres_store.go.
pub mod Contract
use visoraft.Prelude.{
  Option, ℕ, ℤ, pos, String, Bool, true, false, List, [], ◌∷◌, ◌&&◌, ◌||◌, not, length, str_eq, ltb,
  ◌==◌, ltb_ℤ, eqb_ℤ, if◌then◌else◌,
}
use visoraft.Database.{Result, ok, invalid, require, ◌>>◌}
use visoraft.Tasks.Assets.{AssetResult}
use visoraft.Tasks.Download.{is_complete}

-- `qc_score` is the `score` of the report in hundredths, rounded, where the report has one.
pub record DocumentResult : Type 0 where
  pub document_id : String
  pub kind : String
  pub language : String
  pub source : String
  pub segment_count : ℕ
  pub qc_score : Option ℤ

pub record Detection : Type 0 where
  pub schema_version : ℤ
  pub state : String
  pub source : String
  pub confidence_percent : ℤ
  pub sample_count : ℤ
  pub stable_pair_count : ℤ

pub record ProcessingDecision : Type 0 where
  pub schema_version : ℤ
  pub disposition : String
  pub translation_skipped : Bool
  pub burn_subtitles : Bool
  pub detection : Detection

pub record SubtitleResult : Type 0 where
  pub task_id : String
  pub assets : List AssetResult
  pub documents : List DocumentResult
  pub decision : ProcessingDecision

abbrev no_detection : Detection
no_detection = record {
  schema_version = pos 0;
  state = "";
  source = "";
  confidence_percent = pos 0;
  sample_count = pos 0;
  stable_pair_count = pos 0;
}

-- An old worker names no disposition: with documents it generated them.
unfoldable pub with_default_decision : SubtitleResult → SubtitleResult
with_default_decision r =
    if str_eq r.decision.disposition "" && ltb 0 (length r.documents)
    then record r {
      decision = record {
        schema_version = pos 1;
        disposition = "generated_subtitles";
        translation_skipped = false;
        burn_subtitles = false;
        detection = no_detection;
      };
    }
    else r

unfoldable pub hardcoded_chinese : ProcessingDecision → Bool
hardcoded_chinese d =
    str_eq d.disposition "existing_hardcoded_chinese"
    && eqb_ℤ d.schema_version 1
    && d.translation_skipped
    && not d.burn_subtitles
    && eqb_ℤ d.detection.schema_version 1
    && str_eq d.detection.state "found"
    && str_eq d.detection.source "hardcoded"
    && not (ltb_ℤ d.detection.confidence_percent 50)
    && not (ltb_ℤ d.detection.sample_count 8)
    && not (ltb_ℤ d.detection.stable_pair_count 1)

-- The evidence that a soft subtitle needs to be reused.
unfoldable pub reusable_soft : ProcessingDecision → Bool
reusable_soft d =
    eqb_ℤ d.detection.schema_version 1
    && str_eq d.detection.state "found"
    && (str_eq d.detection.source "youtube_manual"
        || str_eq d.detection.source "youtube_auto"
        || str_eq d.detection.source "embedded")
    && not (ltb_ℤ d.detection.confidence_percent 50)
    && d.translation_skipped
    && not d.burn_subtitles

abbrev pub known_disposition : String → Bool
known_disposition d =
    str_eq d "generated_subtitles"
    || str_eq d "existing_soft_chinese"
    || str_eq d "existing_hardcoded_chinese"

unfoldable pub validate_decision : SubtitleResult → Result (Unit {0})
unfolding hardcoded_chinese reusable_soft
validate_decision r =
    let none_written = length r.documents == 0 in
    let hard = hardcoded_chinese r.decision in
    do
      require (not (none_written && not hard)) (invalid "subtitle result contains no documents")
      require (not (hard && (not none_written || not (length r.assets == 0))))
          (invalid "hardcoded subtitle result must not contain generated subtitle artifacts")
      require (eqb_ℤ r.decision.schema_version 1)
          (invalid "subtitle result contains an unsupported decision version")
      require (known_disposition r.decision.disposition)
          (invalid "subtitle result contains an invalid decision")
      require
          (not (
            str_eq r.decision.disposition "existing_soft_chinese"
            && not (reusable_soft r.decision && not none_written)))
          (invalid "existing soft subtitle result lacks reusable subtitle evidence")

unfoldable pub all_complete : List AssetResult → Bool
all_complete [] = true
all_complete (a ∷ rest) = is_complete a && all_complete rest

abbrev pub is_document : DocumentResult → Bool
is_document d =
    not (str_eq d.document_id "")
    && (str_eq d.kind "original" || str_eq d.kind "translated")
    && not (str_eq d.language "")
    && ltb 0 d.segment_count

unfoldable pub all_documents : List DocumentResult → Bool
all_documents [] = true
all_documents (d ∷ rest) = is_document d && all_documents rest

-- The result with its decision filled in, or the clause of the contract that it breaks.
unfoldable pub validate_subtitle_result : SubtitleResult → Result SubtitleResult
unfolding all_complete all_documents
validate_subtitle_result given =
    let r = with_default_decision given in
    do
      validate_decision r
      require (all_complete r.assets) (invalid "subtitle result contains an invalid asset")
      require (all_documents r.documents) (invalid "subtitle result contains an invalid document")
      ok r
