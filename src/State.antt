-- ===== src/State.antt =====
-- go/internal/state/state.go: the rows of the SQLite tables, and the store that holds them. A time
-- stamp is a number of seconds; a table lists its rows in the order of their insertion.
pub mod Blocks
mod Examples
pub mod Publish
pub mod Sessions
pub mod Sources
pub mod Tasks
use emby_range_cache_proxy.Base.{ℕ, ◌+◌, Bool, true, false, Option, List}
use emby_range_cache_proxy.Base.Texts.{Text}
use emby_range_cache_proxy.Model.{ByteRange}

pub record PlaybackSessionUpdate : Type 0 where
  pub session_hash : Text
  pub device_hash : Text
  pub item_id : Text
  pub media_source_id : Text
  pub cache_key : Text
  pub origin_signature : Text
  pub media_size : ℕ
  pub byte_range : ByteRange
  pub observed_at : ℕ

pub data SessionStatus : Type 0 where
  active idle stopped expired : SessionStatus

pub record PlaybackSession : Type 0 where
  pub session_hash : Text
  pub device_hash : Text
  pub item_id : Text
  pub media_source_id : Text
  pub cache_key : Text
  pub origin_signature : Text
  pub media_size : ℕ
  pub last_range_start : ℕ
  pub last_range_end : ℕ
  pub max_observed_offset : ℕ
  pub first_seen_at : ℕ
  pub last_seen_at : ℕ
  pub last_emby_observed_at : Option ℕ
  pub status : SessionStatus
  pub queued_until : Option ℕ

pub data TaskStatus : Type 0 where
  queued running done failed skipped : TaskStatus

pub record PrefetchTask : Type 0 where
  pub id : ℕ
  pub item_id : Text
  pub media_source_id : Text
  pub cache_key : Text
  pub start : ℕ
  pub end : ℕ
  pub priority : ℕ
  pub status : TaskStatus
  pub attempts : ℕ
  pub created_at : ℕ
  pub updated_at : ℕ
  pub last_error_class : Option Text
  pub next_attempt_at : Option ℕ

pub record MiddleBlock : Type 0 where
  pub cache_key : Text
  pub start : ℕ
  pub end : ℕ
  pub path : Text
  pub size : ℕ
  pub created_at : ℕ
  pub last_access_at : ℕ
  pub expires_at : ℕ

pub record SourceRow : Type 0 where
  pub item_id : Text
  pub media_source_id : Text
  pub cache_key : Text
  pub origin_url : Text
  pub origin_signature : Text
  pub media_size : ℕ
  pub content_type : Text
  pub etag : Text
  pub last_modified : Text
  pub updated_at : ℕ

pub record Setting : Type 0 where
  pub key : Text
  pub value : Text
  pub updated_at : ℕ

-- `next_task_id` is what AUTOINCREMENT gives next.
pub record Store : Type 0 where
  pub playback_sessions : List PlaybackSession
  pub prefetch_tasks : List PrefetchTask
  pub next_task_id : ℕ
  pub middle_blocks : List MiddleBlock
  pub source_metadata : List SourceRow
  pub runtime_settings : List Setting
