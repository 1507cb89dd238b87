-- ===== src/App/Serve/Blocks.antt =====
-- serveAuthorizedRange of go/internal/app/server.go: a request that goes to the head and tail cache, to a
-- build, or to the origin.
use emby_range_cache_proxy.Base.{
  ℕ, ◌+◌, Bool, true, false, not, ◌&&◌, Option, none, some, List, Result, ok, err, if◌then◌else◌,
}
use emby_range_cache_proxy.Base.Texts.{Text}
use emby_range_cache_proxy.Model.{ByteRange, RequestContext, SourceMetadata}
use emby_range_cache_proxy.Disk.{Disk}
use emby_range_cache_proxy.HeadTail.{CacheError}
use emby_range_cache_proxy.Middle.{World}
use emby_range_cache_proxy.App.Request.{HttpRequest}
use emby_range_cache_proxy.App.Build.{Sizes, BuildError, response_failed, build_head_tail_block}
use emby_range_cache_proxy.App.Serve.{
  ServeConfig, Calls, Proxy, Locked, free, busy, Outer, ServeError, cache_unusable, Reply, ranged,
  range_header, write_range_headers, response_status, record_session, stream_origin_range,
}
use emby_range_cache_proxy.App.Serve.Cached.{errors_if, reply_chunks, try_cached}

-- What is known of a request once its range is planned.
pub record Planned : Type 0 where
  pub ctx : RequestContext
  pub request : HttpRequest
  pub key : Text
  pub meta : SourceMetadata
  pub byte_range : ByteRange

abbrev pub reply_of : Planned → Text → Bool → Reply
reply_of q sent failed =
    let status = response_status (range_header q.request) q.byte_range q.meta in
    ranged status (write_range_headers status q.byte_range q.meta) sent failed

abbrev pub session_of : ServeConfig → Calls → Planned → ℕ → World → World
session_of cfg calls q now w = record_session cfg calls q.ctx q.key q.meta q.byte_range now w

-- The bytes come from the origin and are not kept; `record_it` says that a session is.
unfoldable pub serve_from_origin :
    ServeConfig → Calls → Planned → Outer → Bool → Proxy → Proxy × Reply
serve_from_origin cfg calls q o record_it p =
    let (sent, failed) = stream_origin_range cfg o q.meta q.byte_range in
    let c = p.counters in
    (
      record {
        world = if record_it && not failed then session_of cfg calls q o.now p.world else p.world;
        counters = if failed then errors_if true c else record c { origin = c.origin + 1 };
      },
      reply_of q sent failed,
    )

abbrev pub sizes_of : ServeConfig → SourceMetadata → Sizes
sizes_of cfg meta = record {
  chunk_bytes = cfg.cache.chunk_bytes;
  max_bytes = cfg.cache.max_bytes;
  min_free_bytes = cfg.middle_cache.min_free_bytes;
  media_size = meta.size;
}

-- After a build: the counters, and the session after a success.
unfoldable pub finish_serving :
    ServeConfig → Calls → Planned → ℕ → Proxy → Disk × Text × Option BuildError → Proxy × Reply
finish_serving cfg calls q now p (d, sent, e) =
    let w = record p.world { disk = d } in
    let c = p.counters in
    elim e [
      | none ↦ (
        record {
          world = session_of cfg calls q now w;
          counters = record c { cache_build = c.cache_build + 1 };
        },
        reply_of q sent false,
      )
      | some response_failed ↦ (
        record {
          world = w;
          counters = errors_if true (record c { cache_build = c.cache_build + 1 });
        },
        reply_of q sent true,
      )
      | some cause ↦ (record { world = w; counters = errors_if true c }, reply_of q sent true)
    ]

-- The lock is held: the block is built. It is none only where the build would need more fuel.
unfoldable pub serve_build :
    ServeConfig → Calls → Planned → Outer → Text → ByteRange → Proxy → Option (Proxy × Reply)
serve_build cfg calls q o name block p =
    elim (build_head_tail_block o.origin (sizes_of cfg q.meta) o.tmp q.key name block q.byte_range
      true p.world.disk) [
        | none ↦ none
        | some built ↦ some (finish_serving cfg calls q o.now p built)
      ]

-- An answer from the cache, an error, or what comes next.
abbrev pub or_next :
    ServeConfig
    → Calls
    → Planned
    → Outer
    → Proxy × Result CacheError (Option (List Text))
    → (Proxy → Option (Proxy × Result ServeError Reply))
    → Option (Proxy × Result ServeError Reply)
or_next cfg calls q o (p, err e) next = some (p, err (cache_unusable e))
or_next cfg calls q o (p, ok none) next = next p
or_next cfg calls q o (p, ok (some chunks)) next =
    let (p', reply) =
      reply_chunks cfg calls q.ctx q.request o true q.key q.meta q.byte_range chunks p in
    some (p', ok reply)

abbrev pub accept : Option (Proxy × Reply) → Option (Proxy × Result ServeError Reply)
accept none = none
accept (some (p, reply)) = some (p, ok reply)

-- The block is not cached: it is built by this request, or, if another one is building it, awaited;
-- and what is asked for comes from the origin if the other one is not done by then.
abbrev pub serve_locked :
    ServeConfig
    → Calls
    → Planned
    → Outer
    → Locked
    → Text
    → ByteRange
    → Proxy
    → Option (Proxy × Result ServeError Reply)
serve_locked cfg calls q o free name block p = accept (serve_build cfg calls q o name block p)
serve_locked cfg calls q o (busy others acquired) name block p =
    or_next cfg calls q o
      (try_cached cfg o q.key name q.byte_range (record p { world = others p.world }))
      (λ p'.
        if not acquired
        then accept (some (serve_from_origin cfg calls q o true p'))
        else or_next cfg calls q o (try_cached cfg o q.key name q.byte_range p')
            (λ p''. accept (serve_build cfg calls q o name block p'')))

-- The head or tail block of a request, from the cache if it is there.
unfoldable pub serve_block :
    ServeConfig
    → Calls
    → Planned
    → Outer
    → Text
    → ByteRange
    → Proxy
    → Option (Proxy × Result ServeError Reply)
serve_block cfg calls q o name block p =
    or_next cfg calls q o (try_cached cfg o q.key name q.byte_range p)
      (λ p'. serve_locked cfg calls q o o.locked name block p')
