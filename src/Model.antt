-- ===== src/Model.antt =====
-- go/internal/model/model.go. An int64 that the program keeps at 0 or above is a natural number.
pub mod Intervals
use emby_range_cache_proxy.Base.{ℕ, ◌+◌, ◌-◌, ◌≤◌, ◌<◌, Bool, Option}
use emby_range_cache_proxy.Base.Texts.{Text}

-- Both ends are part of the range.
pub record ByteRange : Type 0 where
  pub start : ℕ
  pub end : ℕ

-- `End - Start + 1`, for a range whose end is no more than one below its start.
abbrev pub range_length : ByteRange → ℕ
range_length r = r.end + 1 - r.start

pub record RequestContext : Type 0 where
  pub method : Text
  pub raw_path : Text
  pub item_id : Text
  pub media_source_id : Text
  pub token : Text
  pub extension : Text
  pub play_session_id : Text
  pub device_id : Text

pub record MediaSource : Type 0 where
  pub item_id : Text
  pub media_source_id : Text
  pub path : Text
  pub protocol : Text
  pub size : Option ℕ
  pub size_trusted : Bool
  pub container : Text
  pub bitrate : Option ℕ

pub record SourceMetadata : Type 0 where
  pub url : Text
  pub size : ℕ
  pub content_type : Text
  pub etag : Text
  pub last_modified : Text

-- A range of bytes that exist in a file of `size` bytes.
pub record InBounds (size : ℕ) (r : ByteRange) : Type 0 where
  pub ordered : r.start ≤ r.end
  pub within : r.end < size
