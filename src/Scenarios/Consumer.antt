-- ===== src/Scenarios/Consumer.antt =====
-- A download that is reported as completed, with the pipeline's turn.
use visoraft.Prelude.{ℕ, String, ◌≡◌, refl, none, some, [], ◌∷◌, pos, false}
use visoraft.Database.{Db, Outcome, Result, ok}
use visoraft.Tasks.Assets.{MediaInfo, AssetResult}
use visoraft.Tasks.Download.{DownloadResult}
use visoraft.Tasks.SubtitleResult.{SubtitleResult, validate_subtitle_result, with_default_decision}
use visoraft.Tasks.Events.{WorkflowEvent}
use visoraft.Tasks.Terminal.{Delivery, deliver}
use visoraft.Pipeline.{Checkpoint, Advance, advance_body, advance}
use visoraft.Workflow.{handle, pipeline_ids, settled_event, pipeline_turn}
use visoraft.Workflow.Redelivery.{handle-resumes, handle-again}
use visoraft.Scenarios.Rows.{downloading, empty_db}

abbrev info : MediaInfo
info = record {
  schema_version = pos 1;
  format_name = "mp4";
  duration_ms = some (pos 61000);
  size_bytes = some (pos 10);
  bit_rate = none;
  video_codec = "h264";
  width = some (pos 1920);
  height = some (pos 1080);
  pixel_format = "yuv420p";
  frame_rate = "25/1";
  audio_codec = "aac";
  sample_rate = some (pos 48000);
  channels = some (pos 2);
  channel_layout = "stereo";
  stream_count = pos 2;
}

abbrev video : AssetResult
video = record {
  asset_id = "asset";
  kind = "source";
  bucket = "media";
  object_key = "tasks/a/source/v.mp4";
  original_name = "v.mp4";
  content_type = "video/mp4";
  size_bytes = pos 10;
  checksum_sha256 = "0123456789abcdef0123456789abcdef0123456789abcdef0123456789abcdef";
}

abbrev completed : Delivery
completed = record {
  clock = 100;
  ids = λ n. "00000000-0000-4000-8000-000000000000";
  envelope = record {
    id = "m1";
    source = "visoraft/media-worker";
    subject = "task/a";
    time = some 90;
  };
  event =
      WorkflowEvent.download_completed_v1 "a"
        (record { asset = video; media_info = info; additional_assets = [] });
}

abbrev no_review : String → Db → Outcome
no_review id db = (empty_db, none)

-- After the event, and after the pipeline's turn.
abbrev applied : Db
applied = (deliver completed downloading).0

abbrev queued_db : Result Advance → Db
queued_db (ok (Advance.queued db)) = db
queued_db _ = empty_db

abbrev transcoding : Db
transcoding =
    queued_db (advance_body (pipeline_ids completed.ids) "a" Checkpoint.media_ready 100 applied)

applied_completed :
    deliver (record completed { event = settled_event completed.event }) downloading
    ≡ (applied, none)
unfolding visoraft.Tasks.Events.apply_event visoraft.Tasks.Events.event_body settled_event
    visoraft.Database.◌>>◌ visoraft.Tasks.Assets.validate_media_info visoraft.Database.require
    visoraft.Prelude.len visoraft.Tasks.Envelope.apply_workflow_event
    visoraft.Tasks.Envelope.task_id_from_subject visoraft.Prelude.strip_prefix
    visoraft.Prelude.exists visoraft.Tasks.Download.download_completed visoraft.Database.◌>>=◌
applied_completed = refl

turn_completed : pipeline_turn (settled_event completed.event) ≡ some ("a", Checkpoint.media_ready)
unfolding pipeline_turn settled_event
turn_completed = refl

queued_transcode :
    advance_body (pipeline_ids completed.ids) "a" Checkpoint.media_ready 100 applied
    ≡ ok (Advance.queued transcoding)
unfolding visoraft.Tasks.Events.apply_event visoraft.Tasks.Events.event_body settled_event
    visoraft.Database.◌>>◌ visoraft.Tasks.Assets.validate_media_info visoraft.Database.require
    visoraft.Prelude.len visoraft.Tasks.Envelope.apply_workflow_event
    visoraft.Tasks.Envelope.task_id_from_subject visoraft.Prelude.strip_prefix
    visoraft.Prelude.exists visoraft.Tasks.Download.download_completed visoraft.Database.◌>>=◌
    advance_body visoraft.Database.or_fail visoraft.Prelude.find visoraft.Pipeline.next_stage
    visoraft.Tasks.TranscodeStop.source_asset visoraft.Prelude.update
    visoraft.Tasks.Envelope.insert_workflow_audit visoraft.Tasks.Assets.upsert_asset
queued_transcode = refl

handle-resumes_example :
    handle no_review 200 completed.ids completed.envelope completed.event applied
    ≡ advance no_review (pipeline_ids completed.ids) "a" Checkpoint.media_ready 200 applied
handle-resumes_example =
    handle-resumes no_review completed 200 downloading applied "a" Checkpoint.media_ready
      applied_completed turn_completed

handle-again_example :
    (handle no_review 100 completed.ids completed.envelope completed.event downloading
      ≡ (transcoding, none))
    × (handle no_review 200 completed.ids completed.envelope completed.event transcoding
        ≡ (transcoding, none))
handle-again_example =
    handle-again no_review completed 200 downloading applied transcoding "a" Checkpoint.media_ready
      applied_completed turn_completed queued_transcode

-- An old worker's result: one document, and no decision.
abbrev old_result : SubtitleResult
old_result = record {
  task_id = "a";
  assets = [];
  documents =
      record {
        document_id = "d";
        kind = "translated";
        language = "zh";
        source = "asr";
        segment_count = 3;
        qc_score = none;
      }
      ∷ [];
  decision = record {
    schema_version = pos 0;
    disposition = "";
    translation_skipped = false;
    burn_subtitles = false;
    detection = record {
      schema_version = pos 0;
      state = "";
      source = "";
      confidence_percent = pos 0;
      sample_count = pos 0;
      stable_pair_count = pos 0;
    };
  };
}

accepted_result : validate_subtitle_result old_result ≡ ok (with_default_decision old_result)
unfolding validate_subtitle_result visoraft.Database.◌>>◌
    visoraft.Tasks.SubtitleResult.validate_decision visoraft.Database.require with_default_decision
accepted_result = refl
