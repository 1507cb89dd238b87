-- ===== src/App/Serve/Cached.antt =====
-- serveCachedHeadTailIfAvailable of go/internal/app/server.go: an answer from the head and tail cache alone,
-- by what the database knows of the file.
use emby_range_cache_proxy.Base.{
  ℕ, ◌+◌, Bool, true, false, not, ◌&&◌, Option, none, some, List, [], Result, ok, err, ltb, ◌==◌,
  if◌then◌else◌,
}
use emby_range_cache_proxy.Base.Texts.{Text}
use emby_range_cache_proxy.Model.{ByteRange, RequestContext, MediaSource, SourceMetadata}
use emby_range_cache_proxy.Ranges.{RangeError, not_satisfiable, plan_playback_range}
use emby_range_cache_proxy.State.{SourceRow}
use emby_range_cache_proxy.State.Sources.{latest_source_metadata}
use emby_range_cache_proxy.HeadTail.{CacheError, iter_block, has_block_range}
use emby_range_cache_proxy.App.Request.{HttpRequest}
use emby_range_cache_proxy.App.Mode.{is_head}
use emby_range_cache_proxy.App.Serve.{
  ServeConfig, Calls, Counters, Proxy, Outer, ServeError, cache_unusable, range_refused, Reply,
  ranged, range_header, write_range_headers, write_unsatisfiable_range, response_status,
  head_tail_bytes, open_head_response_bytes, cache_block_for_request, source_metadata_from_record,
  record_session, write_chunks,
}

abbrev pub hit : Counters → Counters
hit c = record c { cache_hit = c.cache_hit + 1 }

abbrev pub errors_if : Bool → Counters → Counters
errors_if failed c = if failed then record c { proxy_errors = c.proxy_errors + 1 } else c

-- What the planner makes of a request for a file.
unfoldable pub planned_range :
    ServeConfig → RequestContext → HttpRequest → SourceMetadata → Result RangeError ByteRange
planned_range cfg ctx r meta =
    let (head_size, tail_size) = head_tail_bytes cfg meta.size in
    let value = range_header r in
    plan_playback_range value meta.size head_size tail_size cfg.cache.default_open_range_bytes
      (open_head_response_bytes cfg ctx.extension value)

-- errors.Is(err, ranges.ErrRangeNotSatisfiable)
abbrev pub is_unsatisfiable : RangeError → Bool
is_unsatisfiable not_satisfiable = true
is_unsatisfiable e = false

-- The chunks of a cache are sent with the headers; a session is recorded once all were sent.
unfoldable pub reply_chunks :
    ServeConfig
    → Calls
    → RequestContext
    → HttpRequest
    → Outer
    → Bool
    → Text
    → SourceMetadata
    → ByteRange
    → List Text
    → Proxy
    → Proxy × Reply
reply_chunks cfg calls ctx r o record_it key meta byte_range chunks p =
    let status = response_status (range_header r) byte_range meta in
    let (sent, failed) = write_chunks chunks o.client_takes in
    let w =
      if record_it && not failed
      then record_session cfg calls ctx key meta byte_range o.now p.world
      else p.world in
    (
      record { world = w; counters = errors_if failed (hit p.counters) },
      ranged status (write_range_headers status byte_range meta) sent failed,
    )

-- HEAD: whether the block is there.
abbrev pub answer_head :
    ℕ
    → ByteRange
    → SourceMetadata
    → Proxy
    → Result CacheError Bool
    → Proxy × Result ServeError (Option Reply)
answer_head status byte_range meta p (err e) = (p, err (cache_unusable e))
answer_head status byte_range meta p (ok false) = (p, ok none)
answer_head status byte_range meta p (ok true) = (
  record p { counters = hit p.counters },
  ok (some (ranged status (write_range_headers status byte_range meta) [] false)),
)

abbrev pub answer_chunks :
    (List Text → Proxy × Reply)
    → Proxy
    → Result CacheError (Option (List Text))
    → Proxy × Result ServeError (Option Reply)
answer_chunks reply p (err e) = (p, err (cache_unusable e))
answer_chunks reply p (ok none) = (p, ok none)
answer_chunks reply p (ok (some chunks)) = ((reply chunks).0, ok (some (reply chunks).1))

-- IterBlock of the head and tail cache.
unfoldable pub try_cached :
    ServeConfig
    → Outer
    → Text
    → Text
    → ByteRange
    → Proxy
    → Proxy × Result CacheError (Option (List Text))
try_cached cfg o key name byte_range p =
    let (d, found) =
      iter_block o.open_fails cfg.cache.chunk_bytes key name byte_range o.now p.world.disk in
    (record p { world = record p.world { disk = d } }, found)

-- A request whose block may be cached, for a file that the database knows.
unfoldable pub serve_known :
    ServeConfig
    → Calls
    → RequestContext
    → HttpRequest
    → Outer
    → Bool
    → SourceRow
    → Proxy
    → Proxy × Result ServeError (Option Reply)
serve_known cfg calls ctx r o record_it row p =
    let meta = source_metadata_from_record row in
    let (head_size, tail_size) = head_tail_bytes cfg meta.size in
    elim (planned_range cfg ctx r meta) [
      | err e ↦
          if is_unsatisfiable e
          then (p, ok (some (write_unsatisfiable_range meta.size)))
          else (p, err (range_refused e))
      | ok byte_range ↦
          elim (cache_block_for_request cfg.cache byte_range meta.size head_size tail_size) [
            | none ↦ (p, ok none)
            | some (name, block, adaptive) ↦
                let status = response_status (range_header r) byte_range meta in
                let (d, there) = has_block_range row.cache_key name byte_range p.world.disk in
                let (p', found) = try_cached cfg o row.cache_key name byte_range p in
                if is_head r
                then answer_head status byte_range meta
                    (record p { world = record p.world { disk = d } }) there
                else answer_chunks
                    (λ chunks.
                      reply_chunks cfg calls ctx r o record_it row.cache_key meta byte_range chunks
                        p')
                    p' found
          ]
    ]

-- The media server names a positive size that is not the one on record.
abbrev pub has_other_size : MediaSource → ℕ → Bool
has_other_size source size = elim source.size [ none ↦ false | some n ↦ ltb 0 n && not (n == size) ]

unfoldable pub serve_cached_head_tail_if_available :
    ServeConfig
    → Calls
    → RequestContext
    → HttpRequest
    → Outer
    → Bool
    → MediaSource
    → Proxy
    → Proxy × Result ServeError (Option Reply)
serve_cached_head_tail_if_available cfg calls ctx r o record_it source p =
    elim (latest_source_metadata p.world.store ctx.item_id ctx.media_source_id) [
      | none ↦ (p, ok none)
      | some row ↦
          if has_other_size source row.media_size
          then (p, ok none)
          else serve_known cfg calls ctx r o record_it row p
    ]
