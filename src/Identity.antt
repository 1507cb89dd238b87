-- ===== src/Identity.antt =====
-- go/internal/session/session.go and go/internal/cache/key.go: the names of sessions, origins and cache
-- entries. SHA-256, with its digest in hexadecimal digits, is a parameter.
pub mod Distinct
mod Examples
use emby_range_cache_proxy.Base.{
  ℕ, ◌+◌, ◌-◌, ◌/◌, Bool, not, List, [], ◌∷◌, ◌++◌, ltb, leb, if◌then◌else◌, min, max,
}
use emby_range_cache_proxy.Base.Texts.{Text, codes, format_int}
use emby_range_cache_proxy.Model.{ByteRange, RequestContext, MediaSource, SourceMetadata}
use emby_range_cache_proxy.Ranges.{is_empty}
use emby_range_cache_proxy.State.{PlaybackSessionUpdate}

-- strings.Join with a line feed between the texts
unfoldable pub join_lines : List Text → Text
join_lines [] = []
join_lines (s ∷ []) = s
join_lines (s ∷ t ∷ ts) = s ++ 10 ∷ join_lines (t ∷ ts)

abbrev pub origin_lines : SourceMetadata → List Text
origin_lines meta = meta.url ∷ format_int meta.size ∷ meta.etag ∷ meta.last_modified ∷ []

unfoldable pub is_tail_metadata_range : ℕ → ByteRange → ℕ → ℕ → Bool
is_tail_metadata_range size r head_size tail_size =
    let head_end = if ltb size head_size then size else head_size in
    let tail_start = if ltb (size - tail_size) head_end then head_end else size - tail_size in
    leb tail_start r.start

module _ (sha256 : Text → Text) where
  -- session.Hash
  unfoldable pub hash : Text → Text
  hash value = sha256 value

  unfoldable pub origin_signature : SourceMetadata → Text
  origin_signature meta = hash (join_lines (origin_lines meta))

  -- cache.Key
  unfoldable pub key : MediaSource → SourceMetadata → Text
  key source meta = sha256 (join_lines (source.media_source_id ∷ origin_lines meta))

  abbrev pub device_hash : RequestContext → Text
  device_hash ctx = if is_empty ctx.device_id then [] else hash ctx.device_id

  -- What stands for the client where its request names no session.
  abbrev pub identifier_hash : RequestContext → Text
  identifier_hash ctx =
      let of_token = if is_empty ctx.token then [] else hash ctx.token in
      let identifier = if is_empty (device_hash ctx) then of_token else device_hash ctx in
      if is_empty identifier then codes "anonymous" else identifier

  -- `synthetic:%s:%s:%s:%d`
  abbrev pub synthetic : RequestContext → ℕ → Text
  synthetic ctx bucket =
      codes "synthetic:"
      ++ ctx.item_id
      ++ b':' ∷ ctx.media_source_id
      ++ b':' ∷ identifier_hash ctx
      ++ b':' ∷ format_int bucket

  -- One quarter of an hour is one session where the request names none.
  abbrev pub session_hash : RequestContext → ℕ → Text
  session_hash ctx observed_at =
      if is_empty ctx.play_session_id
      then hash (synthetic ctx (observed_at / 900))
      else hash ctx.play_session_id

  unfoldable pub build_update :
      RequestContext → Text → SourceMetadata → ByteRange → ℕ → PlaybackSessionUpdate
  build_update ctx cache_key meta r observed_at = record {
    session_hash = session_hash ctx observed_at;
    device_hash = device_hash ctx;
    item_id = ctx.item_id;
    media_source_id = ctx.media_source_id;
    cache_key = cache_key;
    origin_signature = origin_signature meta;
    media_size = meta.size;
    byte_range = r;
    observed_at = observed_at;
  }
