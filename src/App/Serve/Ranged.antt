-- ===== src/App/Serve/Ranged.antt =====
-- serveAuthorizedRange of go/internal/app/server.go: the order in which it tries the caches.
use emby_range_cache_proxy.Base.{
  ◌+◌, true, false, not, ◌&&◌, ◌||◌, Option, none, some, List, [], Result, ok, err, if◌then◌else◌,
}
use emby_range_cache_proxy.Base.Texts.{Text}
use emby_range_cache_proxy.Model.{RequestContext, MediaSource, SourceMetadata}
use emby_range_cache_proxy.State.Sources.{upsert_source_metadata_record}
use emby_range_cache_proxy.HeadTail.{CacheError}
use emby_range_cache_proxy.Middle.{Cache, World}
use emby_range_cache_proxy.Middle.Reads.{iter_block}
use emby_range_cache_proxy.Identity.{key}
use emby_range_cache_proxy.App.Request.{HttpRequest}
use emby_range_cache_proxy.App.Mode.{CacheAccess, is_head}
use emby_range_cache_proxy.App.Serve.{
  ServeConfig, Calls, Proxy, Outer, ServeError, range_refused, origin_failed, Reply,
  write_unsatisfiable_range, head_tail_bytes, cache_block_for_request, source_metadata_record,
  source_metadata,
}
use emby_range_cache_proxy.App.Serve.Cached.{
  planned_range, is_unsatisfiable, reply_chunks, serve_cached_head_tail_if_available,
}
use emby_range_cache_proxy.App.Serve.Blocks.{
  Planned, reply_of, serve_from_origin, accept, serve_block,
}

abbrev pub middle_of : ServeConfig → Cache
middle_of cfg = record {
  max_bytes = cfg.middle_cache.max_bytes;
  ttl_seconds = cfg.middle_cache.ttl_seconds;
  min_free_bytes = cfg.middle_cache.min_free_bytes;
}

-- What follows where the middle cache has no answer.
unfoldable pub serve_past_middle :
    ServeConfig
    → Calls
    → Planned
    → Outer
    → CacheAccess
    → Proxy
    → Option (Proxy × Result ServeError Reply)
serve_past_middle cfg calls q o access p =
    let (head_size, tail_size) = head_tail_bytes cfg q.meta.size in
    if not access.write
    then accept (some (serve_from_origin cfg calls q o false p))
    else elim (cache_block_for_request cfg.cache q.byte_range q.meta.size head_size tail_size) [
      | none ↦ accept (some (serve_from_origin cfg calls q o true p))
      | some (name, block, adaptive) ↦ serve_block cfg calls q o name block p
    ]

abbrev pub middle_missed : Proxy → World → Proxy
middle_missed p w = record {
  world = w;
  counters = record p.counters { middle_miss = p.counters.middle_miss + 1 };
}

-- An error of the middle cache is a miss.
abbrev pub after_middle :
    ServeConfig
    → Calls
    → Planned
    → Outer
    → CacheAccess
    → Proxy
    → World × Result CacheError (Option (List Text))
    → Option (Proxy × Result ServeError Reply)
after_middle cfg calls q o access p (w, err e) =
    serve_past_middle cfg calls q o access (middle_missed p w)
after_middle cfg calls q o access p (w, ok none) =
    serve_past_middle cfg calls q o access (middle_missed p w)
after_middle cfg calls q o access p (w, ok (some chunks)) =
    let c = p.counters in
    let (p', reply) =
      reply_chunks cfg calls q.ctx q.request o access.write q.key q.meta q.byte_range chunks
        (record { world = w; counters = record c { middle_hit = c.middle_hit + 1 } }) in
    some (p', ok reply)

unfoldable pub serve_middle :
    ServeConfig
    → Calls
    → Planned
    → Outer
    → CacheAccess
    → Proxy
    → Option (Proxy × Result ServeError Reply)
serve_middle cfg calls q o access p =
    if not (access.read && cfg.middle_cache.enabled)
    then serve_past_middle cfg calls q o access p
    else after_middle cfg calls q o access p (
        iter_block (middle_of cfg) o.opens_row q.key q.byte_range cfg.cache.chunk_bytes o.now
          p.world)

-- The range is planned; with write access the metadata are kept; a HEAD has its answer.
unfoldable pub serve_planned :
    ServeConfig
    → Calls
    → Planned
    → Outer
    → CacheAccess
    → Proxy
    → Option (Proxy × Result ServeError Reply)
serve_planned cfg calls q o access p =
    let row = source_metadata_record calls q.ctx.item_id q.ctx.media_source_id q.key q.meta o.now in
    let kept : Proxy = record p {
      world = record p.world { store = upsert_source_metadata_record p.world.store row };
    } in
    let p' : Proxy = if access.write then kept else p in
    if is_head q.request
    then some (p', ok (reply_of q [] false))
    else serve_middle cfg calls q o access p'

-- The file's metadata are known.
unfoldable pub serve_file :
    ServeConfig
    → Calls
    → RequestContext
    → HttpRequest
    → Outer
    → CacheAccess
    → MediaSource
    → SourceMetadata
    → Proxy
    → Option (Proxy × Result ServeError Reply)
serve_file cfg calls ctx r o access source meta p = elim (planned_range cfg ctx r meta) [
  | err e ↦
      if is_unsatisfiable e
      then some (p, ok (write_unsatisfiable_range meta.size))
      else some (p, err (range_refused e))
  | ok byte_range ↦
      serve_planned cfg calls
        (record {
          ctx = ctx;
          request = r;
          key = if access.read || access.write then key calls.sha256 source meta else [];
          meta = meta;
          byte_range = byte_range;
        })
        o access p
]

unfoldable pub serve_authorized_range :
    ServeConfig
    → Calls
    → RequestContext
    → HttpRequest
    → Outer
    → CacheAccess
    → MediaSource
    → Proxy
    → Option (Proxy × Result ServeError Reply)
serve_authorized_range cfg calls ctx r o access source p =
    let (p1, served) =
      serve_cached_head_tail_if_available cfg calls ctx r o access.write source p in
    let origin : Proxy → Option (Proxy × Result ServeError Reply) = λ p'.
      elim (source_metadata calls o source) [
        | err e ↦ some (p', err (origin_failed e))
        | ok meta ↦ serve_file cfg calls ctx r o access source meta p'
      ] in
    if not access.read then origin p else elim served [
      | err e ↦ some (p1, err e)
      | ok (some reply) ↦ some (p1, ok reply)
      | ok none ↦ origin p1
    ]
