-- ===== src/App/Serve/Sound.antt =====
-- serveAuthorizedRange, from the planned range on, answers with the bytes of the file.
use emby_range_cache_proxy.Base.{
  ℕ, ◌+◌, ◌≤◌, ◌<◌, ◌≡◌, ◌≢◌, refl, Bool, true, false, ◌&&◌, Option, none, some, List, Result, ok,
  err, Bool-cases, Option-cases, inl, inr,
}
use emby_range_cache_proxy.Base.Texts.{Text}
use emby_range_cache_proxy.Base.Slices.{between, IsPrefix}
use emby_range_cache_proxy.Model.{ByteRange}
use emby_range_cache_proxy.Disk.{Disk}
use emby_range_cache_proxy.Disk.Chunks.{concat}
use emby_range_cache_proxy.State.{MiddleBlock}
use emby_range_cache_proxy.HeadTail.{CacheError, iter_block}
use emby_range_cache_proxy.HeadTail.Slices.{
  IsCoherent, IsCoherent-Shrinks, IsSlice, iter_block-IsSlice, iter_block-Shrinks,
}
use emby_range_cache_proxy.Middle.{World}
use emby_range_cache_proxy.Middle
use emby_range_cache_proxy.Middle.Reads.Slices.{iter_block-Answers, Answers}
use emby_range_cache_proxy.Origin.Bodies.{HonestAnswer}
use emby_range_cache_proxy.App.Build.{
  BuildError, insufficient_disk_space, cache_failed, open_failed, read_failed, response_failed,
}
use emby_range_cache_proxy.App.Build.Outcome.{build_head_tail_block-Complete}
use emby_range_cache_proxy.App.Mode.{CacheAccess, is_head}
use emby_range_cache_proxy.App.Serve.{
  ServeConfig, Calls, Proxy, Locked, free, busy, Outer, ServeError, Reply, ranged, unsatisfiable,
  head_tail_bytes, cache_block_for_request,
}
use emby_range_cache_proxy.App.Serve.Cached.{reply_chunks, try_cached}
use emby_range_cache_proxy.App.Serve.Blocks.{
  Planned, serve_from_origin, sizes_of, finish_serving, serve_build, or_next, accept, serve_locked,
  serve_block,
}
use emby_range_cache_proxy.App.Serve.Ranged.{
  middle_of, serve_past_middle, middle_missed, after_middle, serve_middle, serve_planned,
}
use emby_range_cache_proxy.App.Serve.Sent.{
  IsRight, write_chunks-IsRight, stream_origin_range-IsRight, cache_block_for_request-Holds,
}

-- What the other requests leave is coherent if what they found was.
abbrev pub KeepCoherent : Text → Text → Locked → Type 0
KeepCoherent content key free = Unit
KeepCoherent content key (busy others acquired) =
    (w : World) → IsCoherent content key w.disk → IsCoherent content key (others w).disk

-- There is an answer, and its body is right.
abbrev pub IsSound : Text → ByteRange → Option (Proxy × Result ServeError Reply) → Type 0
IsSound content r none = ⊥
IsSound content r (some (p, err e)) = Unit
IsSound content r (some (p, ok (ranged status headers sent failed))) = IsRight content r sent failed
IsSound content r (some (p, ok (unsatisfiable range))) = Unit

module _ (content : Text) (cfg : ServeConfig) (calls : Calls) (q : Planned) (o : Outer)
    (honest : (n : ℕ) → HonestAnswer content (o.origin.answers n)) (pos : 0 < cfg.cache.chunk_bytes)
    (ordered : q.byte_range.start ≤ q.byte_range.end)
    (keep : KeepCoherent content q.key o.locked) where
  abbrev Fine : Option (Proxy × Result ServeError Reply) → Type 0
  Fine r = IsSound content q.byte_range r

  abbrev Coherent : Proxy → Type 0
  Coherent p = IsCoherent content q.key p.world.disk

  serve_from_origin-Fine :
      (record_it : Bool) (p : Proxy)
      → Fine (accept (some (serve_from_origin cfg calls q o record_it p)))
  unfolding serve_from_origin
  serve_from_origin-Fine record_it p =
      stream_origin_range-IsRight content cfg o q.meta q.byte_range (honest 0) pos

  reply_chunks-Fine :
      (record_it : Bool) (chunks : List Text) (p : Proxy)
      → concat chunks ≡ between q.byte_range.start (q.byte_range.end + 1) content
      → let (p', reply) =
          reply_chunks cfg calls q.ctx q.request o record_it q.key q.meta q.byte_range chunks p in
        Fine (some (p', ok reply))
  unfolding reply_chunks
  reply_chunks-Fine record_it chunks p h =
      write_chunks-IsRight content q.byte_range chunks o.client_takes h

  differ : true ≢ false
  differ e = cc

  finish_serving-Fine :
      (p : Proxy) (d : Disk) (sent : Text) (e : Option BuildError)
      → IsPrefix sent (between q.byte_range.start (q.byte_range.end + 1) content)
      → (e ≡ none → sent ≡ between q.byte_range.start (q.byte_range.end + 1) content)
      → Fine (accept (some (finish_serving cfg calls q o.now p (d, sent, e))))
  unfolding finish_serving
  finish_serving-Fine p d sent none h k = (h, λ e. k refl)
  finish_serving-Fine p d sent (some insufficient_disk_space) h k = (h, λ e. absurd (differ e))
  finish_serving-Fine p d sent (some (cache_failed c)) h k = (h, λ e. absurd (differ e))
  finish_serving-Fine p d sent (some (open_failed c)) h k = (h, λ e. absurd (differ e))
  finish_serving-Fine p d sent (some (read_failed c)) h k = (h, λ e. absurd (differ e))
  finish_serving-Fine p d sent (some response_failed) h k = (h, λ e. absurd (differ e))

  serve_build-Fine :
      (name : Text) (block : ByteRange) (p : Proxy)
      → block.start ≤ q.byte_range.start
      → q.byte_range.end ≤ block.end
      → Fine (accept (serve_build cfg calls q o name block p))
  unfolding serve_build
  serve_build-Fine name block p from upto =
      let (d, sent, e, same, right, complete) =
        build_head_tail_block-Complete content block q.byte_range true q.key name o.origin
          (sizes_of cfg q.meta) o.tmp p.world.disk honest pos ordered (λ t. (from, upto)) in
      rw (same, serve_build) (finish_serving-Fine p d sent e right (λ k. (complete k).3 refl))

  or_next-Fine :
      (p : Proxy) (found : Result CacheError (Option (List Text)))
      (next : Proxy → Option (Proxy × Result ServeError Reply))
      → IsSlice content q.byte_range found
      → Coherent p
      → ((p' : Proxy) → Coherent p' → Fine (next p'))
      → Fine (or_next cfg calls q o (p, found) next)
  or_next-Fine p (err e) next s c h = tt
  or_next-Fine p (ok none) next s c h = h p c
  or_next-Fine p (ok (some chunks)) next s c h = reply_chunks-Fine true chunks p s

  -- An attempt on the cache, and what follows it.
  try_next-Fine :
      (name : Text) (p : Proxy) (next : Proxy → Option (Proxy × Result ServeError Reply))
      → Coherent p
      → ((p' : Proxy) → Coherent p' → Fine (next p'))
      → Fine (or_next cfg calls q o (try_cached cfg o q.key name q.byte_range p) next)
  unfolding try_cached
  try_next-Fine name p next c h =
      let d = p.world.disk in
      let found = iter_block o.open_fails cfg.cache.chunk_bytes q.key name q.byte_range o.now d in
      or_next-Fine (record p { world = record p.world { disk = found.0 } }) found.1 next
        (iter_block-IsSlice content o.open_fails cfg.cache.chunk_bytes q.key name q.byte_range o.now
          d c ordered)
        (IsCoherent-Shrinks content q.key d found.0
          (iter_block-Shrinks o.open_fails cfg.cache.chunk_bytes q.key name q.byte_range o.now d) c)
        h

  serve_locked-Fine :
      (locked : Locked) (name : Text) (block : ByteRange) (p : Proxy)
      → KeepCoherent content q.key locked
      → block.start ≤ q.byte_range.start
      → q.byte_range.end ≤ block.end
      → Coherent p
      → Fine (serve_locked cfg calls q o locked name block p)
  serve_locked-Fine free name block p kept from upto c = serve_build-Fine name block p from upto
  serve_locked-Fine (busy others false) name block p kept from upto c =
      try_next-Fine name (record p { world = others p.world }) _ (kept p.world c)
        (λ p' c'. serve_from_origin-Fine true p')
  serve_locked-Fine (busy others true) name block p kept from upto c =
      try_next-Fine name (record p { world = others p.world }) _ (kept p.world c)
        (λ p' c'. try_next-Fine name p' _ c' (λ p'' c''. serve_build-Fine name block p'' from upto))

  serve_block-Fine :
      (name : Text) (block : ByteRange) (p : Proxy)
      → block.start ≤ q.byte_range.start
      → q.byte_range.end ≤ block.end
      → Coherent p
      → Fine (serve_block cfg calls q o name block p)
  unfolding serve_block
  serve_block-Fine name block p from upto c =
      try_next-Fine name p _ c (λ p' c'. serve_locked-Fine o.locked name block p' keep from upto c')

  serve_past_middle-Fine :
      (access : CacheAccess) (p : Proxy)
      → Coherent p
      → Fine (serve_past_middle cfg calls q o access p)
  unfolding serve_past_middle
  serve_past_middle-Fine access p c =
      let (head_size, tail_size) = head_tail_bytes cfg q.meta.size in
      let found = cache_block_for_request cfg.cache q.byte_range q.meta.size head_size tail_size in
      elim (Bool-cases access.write) [
        | inr e ↦ rw e (serve_from_origin-Fine false p)
        | inl e ↦ elim (Option-cases found) [
          | inl f ↦ rw (e, f) (serve_from_origin-Fine true p)
          | inr ((name, block, adaptive), f) ↦
              let (from, upto) =
                cache_block_for_request-Holds cfg.cache q.byte_range q.meta.size head_size tail_size
                  name block adaptive ordered f in
              rw (e, f) (serve_block-Fine name block p from upto c)
        ]
      ]

  after_middle-Fine :
      (access : CacheAccess) (p : Proxy) (found : World × Result CacheError (Option (List Text)))
      → Coherent p
      → Answers content q.byte_range p.world found
      → Fine (after_middle cfg calls q o access p found)
  after_middle-Fine access p (w, err e) c a =
      serve_past_middle-Fine access (middle_missed p w)
        (IsCoherent-Shrinks content q.key p.world.disk w.disk a c)
  after_middle-Fine access p (w, ok none) c a =
      serve_past_middle-Fine access (middle_missed p w)
        (IsCoherent-Shrinks content q.key p.world.disk w.disk a c)
  after_middle-Fine access p (w, ok (some chunks)) c a = reply_chunks-Fine access.write chunks _ a

  serve_middle-Fine :
      (access : CacheAccess) (p : Proxy)
      → ((row : MiddleBlock) → o.opens_row row ≡ true)
      → Coherent p
      → Middle.Reads.Slices.IsCoherent content q.key p.world.disk
      → Fine (serve_middle cfg calls q o access p)
  unfolding serve_middle
  serve_middle-Fine access p opens c m =
      elim (Bool-cases (access.read && cfg.middle_cache.enabled)) [
        | inr e ↦ rw e (serve_past_middle-Fine access p c)
        | inl e ↦ rw e (
            after_middle-Fine access p _ c (
              iter_block-Answers content q.key (middle_of cfg) o.opens_row q.byte_range
                cfg.cache.chunk_bytes o.now p.world opens m))
      ]

  -- Against a server that sends what its headers name, with a buffer that is not empty, with caches whose entries under the key are parts
  -- of the file, also after what other requests do, and whose files can be opened, and for a range that
  -- is not empty: a request that is not a HEAD is answered, by an error or with the first bytes of its
  -- range, wherever they come from; and if nothing fails while they are sent, with all of them.
  pub serve_planned-IsSound :
      (access : CacheAccess) (p : Proxy)
      → is_head q.request ≡ false
      → ((row : MiddleBlock) → o.opens_row row ≡ true)
      → IsCoherent content q.key p.world.disk
      → Middle.Reads.Slices.IsCoherent content q.key p.world.disk
      → IsSound content q.byte_range (serve_planned cfg calls q o access p)
  unfolding serve_planned
  serve_planned-IsSound access p get opens c m = elim (Bool-cases access.write) [
    | inl e ↦ simp (get, e) (serve_middle-Fine access _ opens c m)
    | inr e ↦ simp (get, e) (serve_middle-Fine access p opens c m)
  ]
