-- ===== src/App/Serve.antt =====
-- What serveAuthorizedRange and serveCachedHeadTailIfAvailable of go/internal/app/server.go work on, and
-- the functions that they share. The messages of the log are not modelled, the counters are.
pub mod Cached
pub mod Blocks
pub mod Ranged
pub mod Handlers
pub mod Sent
pub mod Sound
pub mod ReadOnly
pub mod Unwritten
mod Examples
use emby_range_cache_proxy.Base.{
  ℕ, ◌+◌, ◌-◌, Bool, true, false, not, ◌&&◌, ◌||◌, Option, none, some, List, [], ◌∷◌, ◌++◌, Result,
  ok, err, ltb, leb, ◌==◌, if◌then◌else◌, length, take,
}
use emby_range_cache_proxy.Base.Texts.{Text, codes, same_text, trim_space, format_int}
use emby_range_cache_proxy.Config.{CacheConfig, MiddleCacheConfig}
use emby_range_cache_proxy.Model.{
  ByteRange, range_length, RequestContext, MediaSource, SourceMetadata,
}
use emby_range_cache_proxy.Ranges.{is_empty, RangeError, configured_head_tail, content_range_header}
use emby_range_cache_proxy.Disk.{Disk}
use emby_range_cache_proxy.State.{MiddleBlock, SourceRow, Store}
use emby_range_cache_proxy.State.Sessions.{record_playback}
use emby_range_cache_proxy.HeadTail.{CacheError, block_for_request}
use emby_range_cache_proxy.Middle.{World}
use emby_range_cache_proxy.Identity.{origin_signature, build_update, is_tail_metadata_range}
use emby_range_cache_proxy.Origin.{
  ReadEnd, more, eof, unexpected_eof, broken, Response, OriginError, Reader, head, open_range,
  copy_reader,
}
use emby_range_cache_proxy.Origin.Bodies.{reader_reads}
use emby_range_cache_proxy.App.Request.{HttpRequest, get, to_lower}
use emby_range_cache_proxy.App.Build.{Outside}

pub record ServeConfig : Type 0 where
  pub cache : CacheConfig
  pub middle_cache : MiddleCacheConfig
  pub session_enabled : Bool

-- The calls of other libraries: SHA-256 in hexadecimal digits, and the type that the mime package has
-- for a URL.
pub record Calls : Type 0 where
  pub sha256 : Text → Text
  pub content_type_of : Text → Text

pub record Counters : Type 0 where
  pub cache_hit : ℕ
  pub cache_build : ℕ
  pub origin : ℕ
  pub fallback : ℕ
  pub denied : ℕ
  pub middle_hit : ℕ
  pub middle_miss : ℕ
  pub proxy_errors : ℕ

-- The caches, the database and the counters.
pub record Proxy : Type 0 where
  pub world : World
  pub counters : Counters

-- The lock of a block is free; or a build holds it, others change the caches while this request waits,
-- and then it is free or not.
pub data Locked : Type 0 where
  free : Locked
  busy : (World → World) → Bool → Locked

-- What one request meets: the answers to the HEAD, to the probe and to the GETs, calls that fail, the
-- number of bytes that the client takes, and the lock of the block.
pub record Outer : Type 0 where
  pub head_answer : Option Response
  pub probe_answer : Option Response
  pub origin : Outside
  pub open_fails : Bool
  pub opens_row : MiddleBlock → Bool
  pub client_takes : Option ℕ
  pub locked : Locked
  pub tmp : ℕ
  pub now : ℕ

pub data ServeError : Type 0 where
  cache_unusable : CacheError → ServeError
  range_refused : RangeError → ServeError
  origin_failed : OriginError → ServeError

-- The headers of writeRangeHeaders beside `Accept-Ranges: bytes`; the empty text where one is not set.
pub record RangeHeaders : Type 0 where
  pub content_length : ℕ
  pub content_range : Text
  pub content_type : Text
  pub etag : Text
  pub last_modified : Text

-- `sent` is the body, and `failed` says that an error ended it.
pub data Reply : Type 0 where
  ranged : ℕ → RangeHeaders → Text → Bool → Reply
  unsatisfiable : Text → Reply

abbrev pub range_header : HttpRequest → Text
range_header r = get (codes "Range") r.headers

unfoldable pub write_range_headers : ℕ → ByteRange → SourceMetadata → RangeHeaders
write_range_headers status r meta = record {
  content_length = range_length r;
  content_range = if status == 206 then content_range_header r meta.size else [];
  content_type = meta.content_type;
  etag = meta.etag;
  last_modified = meta.last_modified;
}

-- `bytes */%d`
unfoldable pub write_unsatisfiable_range : ℕ → Reply
write_unsatisfiable_range size = unsatisfiable (codes "bytes */" ++ format_int size)

unfoldable pub response_status : Text → ByteRange → SourceMetadata → ℕ
response_status range_value r meta =
    if not (is_empty range_value) || (not (r.start == 0) || not (r.end + 1 == meta.size))
    then 206
    else 200

unfoldable pub head_tail_bytes : ServeConfig → ℕ → ℕ × ℕ
head_tail_bytes cfg size = configured_head_tail size cfg.cache.head_bytes cfg.cache.tail_bytes

abbrev pub lookup : Text → List (Text × ℕ) → Option ℕ
lookup key [] = none
lookup key ((name, value) ∷ rest) = if same_text name key then some value else lookup key rest

-- strings.TrimPrefix(s, ".")
abbrev pub trim_dot : Text → Text
trim_dot [] = []
trim_dot (c ∷ s) = if c == b'.' then s else c ∷ s

abbrev pub or_else : Option ℕ → Option ℕ → Option ℕ
or_else none other = other
or_else (some n) other = some n

unfoldable pub open_head_response_bytes : ServeConfig → Text → Text → Option ℕ
open_head_response_bytes cfg extension range_value =
    let normalized = trim_dot (to_lower (trim_space extension)) in
    let initial =
      if same_text (trim_space range_value) (codes "bytes=0-")
      then lookup normalized cfg.cache.open_initial_response_bytes_by_extension
      else none in
    or_else initial (
      or_else (lookup normalized cfg.cache.open_head_response_bytes_by_extension)
        cfg.cache.open_head_response_bytes)

-- The block of a request, or a tail that is longer than configured, for a request up to the end.
unfoldable pub cache_block_for_request :
    CacheConfig → ByteRange → ℕ → ℕ → ℕ → Option (Text × ByteRange × Bool)
cache_block_for_request cfg r size head_size tail_size =
    let max_bytes = cfg.adaptive_tail_max_bytes in
    let base = size - tail_size in
    let base_start = if ltb r.start base then r.start else base in
    elim (block_for_request r size head_size tail_size) [
      | some (name, block) ↦ some (name, block, false)
      | none ↦
          if leb max_bytes tail_size || not (r.end + 1 == size)
          then none
          else if ltb r.start (size - max_bytes)
          then none
          else some (codes "tail", record { start = base_start; end = size - 1 }, true)
    ]

unfoldable pub source_metadata_record : Calls → Text → Text → Text → SourceMetadata → ℕ → SourceRow
source_metadata_record calls item_id media_source_id key meta updated_at = record {
  item_id = item_id;
  media_source_id = media_source_id;
  cache_key = key;
  origin_url = meta.url;
  origin_signature = origin_signature calls.sha256 meta;
  media_size = meta.size;
  content_type = meta.content_type;
  etag = meta.etag;
  last_modified = meta.last_modified;
  updated_at = updated_at;
}

unfoldable pub source_metadata_from_record : SourceRow → SourceMetadata
source_metadata_from_record row = record {
  url = row.origin_url;
  size = row.media_size;
  content_type = row.content_type;
  etag = row.etag;
  last_modified = row.last_modified;
}

-- The size that the media server vouches for, if it is positive.
abbrev trusted_size : MediaSource → Option ℕ
trusted_size source = elim source.size [
  | none ↦ none
  | some n ↦ if source.size_trusted && ltb 0 n then some n else none
]

unfoldable pub source_metadata : Calls → Outer → MediaSource → Result OriginError SourceMetadata
source_metadata calls o source = elim (trusted_size source) [
  | some n ↦ ok (record {
    url = source.path;
    size = n;
    content_type = calls.content_type_of source.path;
    etag = [];
    last_modified = [];
  })
  | none ↦ head o.head_answer o.probe_answer
]

-- recordSession; a failing call of the database is only logged.
unfoldable pub record_session :
    ServeConfig → Calls → RequestContext → Text → SourceMetadata → ByteRange → ℕ → World → World
record_session cfg calls ctx key meta r now w =
    let (head_size, tail_size) = head_tail_bytes cfg meta.size in
    if not cfg.session_enabled || is_tail_metadata_range meta.size r head_size tail_size
    then w
    else record w { store = record_playback w.store (build_update calls.sha256 ctx key meta r now) }

-- writeChunks to a client that takes so many bytes: what it got, and whether a Write failed.
unfoldable pub write_chunks : List Text → Option ℕ → Text × Bool
write_chunks [] takes = ([], false)
write_chunks (c ∷ chunks) none =
    let (rest, failed) = write_chunks chunks none in (c ++ rest, failed)
write_chunks (c ∷ chunks) (some n) =
    let (rest, failed) = write_chunks chunks (some (n - length c)) in
    if ltb n (length c) then (take n c, true) else (c ++ rest, failed)

-- io.CopyBuffer says nil at io.EOF.
abbrev pub ends_badly : ReadEnd → Bool
ends_badly more = true
ends_badly eof = false
ends_badly unexpected_eof = true
ends_badly broken = true

abbrev pub stream_opened : ServeConfig → Option ℕ → Result OriginError Reader → Text × Bool
stream_opened cfg takes (err e) = ([], true)
stream_opened cfg takes (ok reader) =
    let (bytes, last) = copy_reader (reader_reads reader) cfg.cache.chunk_bytes reader in
    let (sent, failed) = write_chunks (bytes ∷ []) takes in (sent, failed || ends_badly last)

unfoldable pub stream_origin_range : ServeConfig → Outer → SourceMetadata → ByteRange → Text × Bool
stream_origin_range cfg o meta r =
    stream_opened cfg o.client_takes (open_range (o.origin.answers 0) r meta.size)
