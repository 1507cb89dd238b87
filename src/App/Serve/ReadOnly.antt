-- ===== src/App/Serve/ReadOnly.antt =====
-- What serveAuthorizedRange and the answers from the caches change without the right to write.
use emby_range_cache_proxy.Base.{
  ℕ, ◌≡◌, refl, Bool, true, false, ◌&&◌, Option, none, some, List, Result, ok, err, Bool-cases,
  Option-cases, Result-cases, inl, inr,
}
use emby_range_cache_proxy.Base.Texts.{Text}
use emby_range_cache_proxy.Model.{ByteRange, RequestContext, MediaSource, SourceMetadata}
use emby_range_cache_proxy.HeadTail.{CacheError, has_block_range}
use emby_range_cache_proxy.HeadTail.Slices.{iter_block-Shrinks, has_block_range-Shrinks}
use emby_range_cache_proxy.State.{SourceRow}
use emby_range_cache_proxy.State.Sources.{latest_source_metadata}
use emby_range_cache_proxy.Middle.{World}
use emby_range_cache_proxy.Middle.Reads.Effects.{
  All-Had, OnlyReads, OnlyReads-refl, OnlyReads-trans, iter_block-OnlyReads,
}
use emby_range_cache_proxy.App.Mode.{CacheAccess, is_head}
use emby_range_cache_proxy.App.Request.{HttpRequest}
use emby_range_cache_proxy.App.Serve.{
  ServeConfig, Calls, Proxy, Outer, ServeError, origin_failed, Reply, head_tail_bytes,
  cache_block_for_request, source_metadata_from_record, source_metadata,
}
use emby_range_cache_proxy.App.Serve.Cached.{
  planned_range, is_unsatisfiable, reply_chunks, answer_head, answer_chunks, try_cached,
  serve_known, has_other_size, serve_cached_head_tail_if_available,
}
use emby_range_cache_proxy.App.Serve.Blocks.{Planned, accept, serve_from_origin}
use emby_range_cache_proxy.App.Serve.Ranged.{
  middle_of, serve_past_middle, middle_missed, after_middle, serve_middle, serve_planned,
  serve_file, serve_authorized_range,
}

-- There is an answer, and the world it leaves was only read.
abbrev pub Left : {A : Type 0} → World → Option (Proxy × A) → Type 0
Left w none = ⊥
Left w (some (p, a)) = OnlyReads p.world w

module _ (cfg : ServeConfig) (calls : Calls) (ctx : RequestContext) (r : HttpRequest)
    (o : Outer) where
  reply_chunks-world :
      (key : Text) (meta : SourceMetadata) (byte_range : ByteRange) (chunks : List Text) (p : Proxy)
      → (reply_chunks cfg calls ctx r o false key meta byte_range chunks p).0.world ≡ p.world
  unfolding reply_chunks
  reply_chunks-world key meta byte_range chunks p = refl

  try_cached-OnlyReads :
      (key name : Text) (byte_range : ByteRange) (p : Proxy)
      → OnlyReads (try_cached cfg o key name byte_range p).0.world p.world
  unfolding try_cached
  try_cached-OnlyReads key name byte_range p = record {
    tables = refl;
    blocks = All-Had p.world.store.middle_blocks;
    files =
        iter_block-Shrinks o.open_fails cfg.cache.chunk_bytes key name byte_range o.now
          p.world.disk;
  }

  has_block_range-OnlyReads :
      (key name : Text) (byte_range : ByteRange) (p : Proxy)
      → OnlyReads
          (record p.world { disk = (has_block_range key name byte_range p.world.disk).0 })
          p.world
  has_block_range-OnlyReads key name byte_range p = record {
    tables = refl;
    blocks = All-Had p.world.store.middle_blocks;
    files = has_block_range-Shrinks key name byte_range p.world.disk;
  }

  answer_head-OnlyReads :
      (status : ℕ) (byte_range : ByteRange) (meta : SourceMetadata) (p : Proxy)
      (there : Result CacheError Bool) (w : World)
      → OnlyReads p.world w
      → OnlyReads (answer_head status byte_range meta p there).0.world w
  answer_head-OnlyReads status byte_range meta p (err e) w h = h
  answer_head-OnlyReads status byte_range meta p (ok false) w h = h
  answer_head-OnlyReads status byte_range meta p (ok true) w h = h

  answer_chunks-OnlyReads :
      (key : Text) (meta : SourceMetadata) (byte_range : ByteRange) (p : Proxy)
      (found : Result CacheError (Option (List Text))) (w : World)
      → OnlyReads p.world w
      → let reply : List Text → Proxy × Reply =
          λ chunks. reply_chunks cfg calls ctx r o false key meta byte_range chunks p in
        OnlyReads (answer_chunks reply p found).0.world w
  unfolding reply_chunks
  answer_chunks-OnlyReads key meta byte_range p (err e) w h = h
  answer_chunks-OnlyReads key meta byte_range p (ok none) w h = h
  answer_chunks-OnlyReads key meta byte_range p (ok (some chunks)) w h = h

  serve_known-OnlyReads :
      (row : SourceRow) (p : Proxy)
      → OnlyReads (serve_known cfg calls ctx r o false row p).0.world p.world
  unfolding serve_known
  serve_known-OnlyReads row p =
      let meta = source_metadata_from_record row in
      let (head_size, tail_size) = head_tail_bytes cfg meta.size in
      elim (Result-cases (planned_range cfg ctx r meta)) [
        | inr (e, k) ↦ elim (Bool-cases (is_unsatisfiable e)) [
          | inl u ↦ rw (k, serve_known, u) (OnlyReads-refl p.world)
          | inr u ↦ rw (k, serve_known, u) (OnlyReads-refl p.world)
        ]
        | inl (byte_range, k) ↦
            elim (Option-cases
              (cache_block_for_request cfg.cache byte_range meta.size head_size tail_size)) [
                | inl f ↦ rw (k, serve_known, f) (OnlyReads-refl p.world)
                | inr ((name, block, adaptive), f) ↦
                    let cached = try_cached cfg o row.cache_key name byte_range p in
                    let d = (has_block_range row.cache_key name byte_range p.world.disk).0 in
                    elim (Bool-cases (is_head r)) [
                      | inl g ↦
                          rw (k, serve_known, f, g)
                            (answer_head-OnlyReads _ byte_range meta
                              (record p { world = record p.world { disk = d } }) _ p.world
                              (has_block_range-OnlyReads row.cache_key name byte_range p))
                      | inr g ↦
                          rw (k, serve_known, f, g)
                            (answer_chunks-OnlyReads row.cache_key meta byte_range cached.0 cached.1
                              p.world (try_cached-OnlyReads row.cache_key name byte_range p))
                    ]
              ]
      ]

  pub serve_cached_head_tail_if_available-OnlyReads :
      (source : MediaSource) (p : Proxy)
      → OnlyReads
          (serve_cached_head_tail_if_available cfg calls ctx r o false source p).0.world
          p.world
  unfolding serve_cached_head_tail_if_available
  serve_cached_head_tail_if_available-OnlyReads source p =
      elim (Option-cases (latest_source_metadata p.world.store ctx.item_id ctx.media_source_id)) [
        | inl e ↦ rw (e, serve_cached_head_tail_if_available) (OnlyReads-refl p.world)
        | inr (row, e) ↦ elim (Bool-cases (has_other_size source row.media_size)) [
          | inl f ↦ rw (e, serve_cached_head_tail_if_available, f) (OnlyReads-refl p.world)
          | inr f ↦ rw (e, serve_cached_head_tail_if_available, f) (serve_known-OnlyReads row p)
        ]
      ]

module _ (cfg : ServeConfig) (calls : Calls) (q : Planned) (o : Outer) (access : CacheAccess)
    (no_write : access.write ≡ false) where
  serve_from_origin-Left :
      (p : Proxy) (w : World)
      → OnlyReads p.world w
      → Left w (accept (some (serve_from_origin cfg calls q o false p)))
  unfolding serve_from_origin
  serve_from_origin-Left p w h = h

  serve_past_middle-Left :
      (p : Proxy) (w : World)
      → OnlyReads p.world w
      → Left w (serve_past_middle cfg calls q o access p)
  unfolding serve_past_middle
  serve_past_middle-Left p w h = rw (no_write, serve_past_middle) (serve_from_origin-Left p w h)

  after_middle-Left :
      (p : Proxy) (found : World × Result CacheError (Option (List Text))) (w : World)
      → OnlyReads found.0 w
      → Left w (after_middle cfg calls q o access p found)
  unfolding reply_chunks
  after_middle-Left p (v, err e) w h = serve_past_middle-Left (middle_missed p v) w h
  after_middle-Left p (v, ok none) w h = serve_past_middle-Left (middle_missed p v) w h
  after_middle-Left p (v, ok (some chunks)) w h = rw no_write h

  serve_middle-Left : (p : Proxy) → Left p.world (serve_middle cfg calls q o access p)
  unfolding serve_middle
  serve_middle-Left p = elim (Bool-cases (access.read && cfg.middle_cache.enabled)) [
    | inr e ↦ rw e (serve_past_middle-Left p p.world (OnlyReads-refl p.world))
    | inl e ↦ rw e (
        after_middle-Left p _ p.world (
          iter_block-OnlyReads (middle_of cfg) o.opens_row q.key q.byte_range cfg.cache.chunk_bytes
            o.now p.world))
  ]

  serve_planned-Left : (p : Proxy) → Left p.world (serve_planned cfg calls q o access p)
  unfolding serve_planned
  serve_planned-Left p = elim (Bool-cases (is_head q.request)) [
    | inl e ↦ simp (e, no_write) (OnlyReads-refl p.world)
    | inr e ↦ simp (e, no_write) (serve_middle-Left p)
  ]

module _ (cfg : ServeConfig) (calls : Calls) (ctx : RequestContext) (r : HttpRequest) (o : Outer)
    (access : CacheAccess) (no_write : access.write ≡ false) (source : MediaSource) where
  Left-trans :
      (u w : World) (answer : Option (Proxy × Result ServeError Reply))
      → OnlyReads u w
      → Left u answer
      → Left w answer
  Left-trans u w none h k = elim k [ ]
  Left-trans u w (some (p, a)) h k = OnlyReads-trans p.world u w k h

  serve_file-Left :
      (meta : SourceMetadata) (p : Proxy)
      → Left p.world (serve_file cfg calls ctx r o access source meta p)
  unfolding serve_file
  serve_file-Left meta p = elim (Result-cases (planned_range cfg ctx r meta)) [
    | inl (byte_range, e) ↦ rw (e, serve_file) (serve_planned-Left cfg calls _ o access no_write p)
    | inr (e, k) ↦ elim (Bool-cases (is_unsatisfiable e)) [
      | inl u ↦ rw (k, serve_file, u) (OnlyReads-refl p.world)
      | inr u ↦ rw (k, serve_file, u) (OnlyReads-refl p.world)
    ]
  ]

  origin-Left :
      (p : Proxy)
      → Left p.world (elim (source_metadata calls o source) [
        | err e ↦ some (p, err (origin_failed e))
        | ok meta ↦ serve_file cfg calls ctx r o access source meta p
      ])
  origin-Left p = elim (Result-cases (source_metadata calls o source)) [
    | inl (meta, e) ↦ rw e (serve_file-Left meta p)
    | inr (e, k) ↦ rw k (OnlyReads-refl p.world)
  ]

  pub serve_authorized_range-Left :
      (p : Proxy) → Left p.world (serve_authorized_range cfg calls ctx r o access source p)
  unfolding serve_authorized_range
  serve_authorized_range-Left p =
      let cached = serve_cached_head_tail_if_available cfg calls ctx r o access.write source p in
      let h : OnlyReads cached.0.world p.world =
        rw no_write (serve_cached_head_tail_if_available-OnlyReads cfg calls ctx r o source p) in
      elim (Bool-cases access.read) [
        | inr e ↦ rw e (origin-Left p)
        | inl e ↦ elim (Result-cases cached.1) [
          | inr (k, f) ↦ rw (e, f) h
          | inl (none, f) ↦ rw (e, f) (Left-trans _ p.world _ h (origin-Left cached.0))
          | inl (some reply, f) ↦ rw (e, f) h
        ]
      ]
