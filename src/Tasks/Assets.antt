-- ===== src/Tasks/Assets.antt =====
-- Media assets of internal/tasks/postgres_store.go: `validateMediaInfo`, the upsert of an asset,
-- and the events of asset deletion. A duration is in milliseconds, so NaN and infinity do not occur.
use visoraft.Prelude.{
  ℕ, ℤ, ◌+◌, String, Bool, true, false, Option, none, some, List, [], ◌∷◌, ◌&&◌, ◌||◌, not, length,
  str_eq, len, is_negative, gtb_ℤ, eqb_ℤ, ltb_ℤ, exists, update, ltb, ◌==◌, if◌then◌else◌,
}
use visoraft.Database.{
  Db, Task, MediaAsset, AssetStatus, Result, ok, invalid, require, ◌>>◌, has_task_id,
}
use visoraft.Identity.{is_uuid}
use visoraft.Tasks.Envelope.{Envelope, insert_workflow_audit}

pub record MediaInfo : Type 0 where
  pub schema_version : ℤ
  pub format_name : String
  pub duration_ms : Option ℤ
  pub size_bytes : Option ℤ
  pub bit_rate : Option ℤ
  pub video_codec : String
  pub width : Option ℤ
  pub height : Option ℤ
  pub pixel_format : String
  pub frame_rate : String
  pub audio_codec : String
  pub sample_rate : Option ℤ
  pub channels : Option ℤ
  pub channel_layout : String
  pub stream_count : ℤ

-- value != nil && *value < 0
abbrev below_zero : Option ℤ → Bool
below_zero none = false
below_zero (some v) = is_negative v

-- value != nil && (*value < 0 || *value > limit)
abbrev outside : ℕ → Option ℤ → Bool
outside limit none = false
outside limit (some v) = is_negative v || gtb_ℤ v limit

bad_texts : MediaInfo → Bool
bad_texts info =
    str_eq info.format_name ""
    || ltb 200 (len info.format_name)
    || ltb 100 (len info.video_codec)
    || ltb 100 (len info.pixel_format)
    || ltb 50 (len info.frame_rate)
    || ltb 100 (len info.audio_codec)
    || ltb 100 (len info.channel_layout)

unfoldable pub validate_media_info : MediaInfo → Result (Unit {0})
unfolding bad_texts
validate_media_info info = do
  require (eqb_ℤ info.schema_version 1)
      (invalid "media inspection result has an unsupported schema version")
  require (not (ltb_ℤ info.stream_count 1 || gtb_ℤ info.stream_count 64))
      (invalid "media inspection result has an invalid stream count")
  require (not (bad_texts info)) (invalid "media inspection result contains invalid text fields")
  require (not (outside 315360000000 info.duration_ms))
      (invalid "media inspection result has an invalid duration")
  require (not (below_zero info.size_bytes)) (invalid "media inspection result has an invalid size")
  require (not (below_zero info.bit_rate))
      (invalid "media inspection result has an invalid bit rate")
  require (not (outside 65535 info.width)) (invalid "media inspection result has an invalid width")
  require (not (outside 65535 info.height))
      (invalid "media inspection result has an invalid height")
  require (not (outside 768000 info.sample_rate))
      (invalid "media inspection result has an invalid sample rate")
  require (not (outside 1024 info.channels))
      (invalid "media inspection result has an invalid channel count")

-- An asset as a worker reports it.
pub record AssetResult : Type 0 where
  pub asset_id : String
  pub kind : String
  pub bucket : String
  pub object_key : String
  pub original_name : String
  pub content_type : String
  pub size_bytes : ℤ
  pub checksum_sha256 : String

abbrev pub is_asset : String → AssetResult → MediaAsset → Bool
is_asset id a m = str_eq m.task_id id && (str_eq m.kind a.kind && str_eq m.object_key a.object_key)

-- INSERT INTO media_assets … ON CONFLICT (task_id, kind, object_key) DO UPDATE. `clear` is the SET
-- of the error columns, which the download's upsert does not have.
unfoldable pub upsert_asset : Bool → String → AssetResult → ℕ → Db → Db
upsert_asset clear id a now db = record db {
  media_assets =
      if exists (is_asset id a) db.media_assets
      then update (is_asset id a)
          (λ m. record m {
            original_name = a.original_name;
            content_type = a.content_type;
            size_bytes = a.size_bytes;
            checksum_sha256 = a.checksum_sha256;
            status = AssetStatus.available;
            error_code = if clear then "" else m.error_code;
            error_message = if clear then "" else m.error_message;
            deleted_at = none;
          })
          db.media_assets
      else record {
        id = a.asset_id;
        task_id = id;
        kind = a.kind;
        bucket = a.bucket;
        object_key = a.object_key;
        original_name = a.original_name;
        content_type = a.content_type;
        size_bytes = a.size_bytes;
        checksum_sha256 = a.checksum_sha256;
        status = AssetStatus.available;
        error_code = "";
        error_message = "";
        created_at = now;
        deleted_at = none;
      }
        ∷ db.media_assets;
}

all_uuids : List String → Bool
all_uuids [] = true
all_uuids (a ∷ as') = is_uuid a && all_uuids as'

-- validateAssetIDs
unfoldable pub validate_asset_ids : List String → Result (Unit {0})
unfolding all_uuids
validate_asset_ids ids = do
  require (not (length ids == 0 || ltb 100 (length ids)))
      (invalid "asset deletion event must contain 1 to 100 asset ids")
  require (all_uuids ids) (invalid "asset deletion event contains an invalid asset id")

-- WHERE task_id=$1 AND id=ANY($2)
abbrev is_listed : String → List String → MediaAsset → Bool
is_listed id ids m = str_eq m.task_id id && exists (str_eq m.id) ids

abbrev touch_task : ℕ → Task → Task
touch_task now t = record t { updated_at = now; version = t.version + 1 }

unfoldable pub assets_deleted : List String → Envelope → String → ℕ → Db → Result Db
assets_deleted ids env id now db = ok (
    insert_workflow_audit env id "assets.deleted" now (record db {
      media_assets =
          update (is_listed id ids)
            (λ m. record m {
              status = AssetStatus.deleted;
              deleted_at = some now;
              error_code = "";
              error_message = "";
            })
            db.media_assets;
      tasks = update (has_task_id id) (touch_task now) db.tasks;
    }))

unfoldable pub assets_delete_failed :
    List String → String → String → Envelope → String → ℕ → Db → Result Db
assets_delete_failed ids code message env id now db = ok (
    insert_workflow_audit env id "assets.delete.failed" now (record db {
      media_assets =
          update (is_listed id ids)
            (λ m. record m {
              status = AssetStatus.failed;
              error_code = code;
              error_message = message;
            })
            db.media_assets;
      tasks = update (has_task_id id) (touch_task now) db.tasks;
    }))
