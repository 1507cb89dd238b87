-- ===== src/App/Serve/Unwritten.antt =====
-- What the handlers change while the cache mode is not the normal one.
use emby_range_cache_proxy.Base.{
  ◌≡◌, refl, Bool, true, false, not, ◌&&◌, ◌||◌, Option, none, some, Result, ok, err, Bool-cases,
  if◌then◌else◌, inl, inr, Option-cases,
}
use emby_range_cache_proxy.Model.{RequestContext, MediaSource}
use emby_range_cache_proxy.Ranges.{is_empty}
use emby_range_cache_proxy.Config.{in_scope}
use emby_range_cache_proxy.Middle.{World}
use emby_range_cache_proxy.Middle.Reads.Effects.{OnlyReads, OnlyReads-refl, OnlyReads-trans}
use emby_range_cache_proxy.App.Access.{
  request_contains_internal_key, request_contains_direct_open_list_token,
}
use emby_range_cache_proxy.App.Mode.{
  CacheMode, normal, read_only, bypass, CacheAccess, is_eligible, is_normal, mode_access,
  direct_cache_access, reject_disabled_prewarm,
}
use emby_range_cache_proxy.App.Request.{HttpRequest}
use emby_range_cache_proxy.App.Settings.{Settings}
use emby_range_cache_proxy.App.Serve.{Proxy, Outer, ServeError, Reply}
use emby_range_cache_proxy.App.Serve.Cached.{serve_cached_head_tail_if_available}
use emby_range_cache_proxy.App.Serve.Ranged.{serve_authorized_range}
use emby_range_cache_proxy.App.Serve.ReadOnly.{
  Left, serve_cached_head_tail_if_available-OnlyReads, serve_authorized_range-Left,
}
use emby_range_cache_proxy.App.Serve.Handlers.{
  Answer, Authorized, count_error, bad_gateway, granted, refused, unavailable, Handling,
  pre_auth_rollout, can_serve_cached_before_origin_resolution, or_fall_back, or_bad_gateway,
  if_not_served, proxy_granted, proxy_authorized, is_bypass, proxy_handler, with_cached,
  handle_direct_http, handle_direct_open_list,
}

mode_access-read_only : (m : CacheMode) → is_normal m ≡ false → (mode_access m).write ≡ false
unfolding mode_access
mode_access-read_only normal h = h
mode_access-read_only read_only h = refl
mode_access-read_only bypass h = refl

direct_cache_access-read_only :
    (s : Settings) (m : CacheMode) (r : HttpRequest)
    → is_normal m ≡ false
    → (direct_cache_access s m r).write ≡ false
unfolding direct_cache_access
direct_cache_access-read_only s m r h = elim (Bool-cases (is_eligible s r)) [
  | inl e ↦ rw e (mode_access-read_only m h)
  | inr e ↦ rw e refl
]

or_fall_back-Left :
    (w : World) (answer : Option (Proxy × Result ServeError Reply))
    → Left w answer
    → Left w (or_fall_back answer)
or_fall_back-Left w none h = h
or_fall_back-Left w (some (p, ok reply)) h = h
or_fall_back-Left w (some (p, err e)) h = h

or_bad_gateway-Left :
    (w : World) (answer : Option (Proxy × Result ServeError Reply))
    → Left w answer
    → Left w (or_bad_gateway answer)
or_bad_gateway-Left w none h = h
or_bad_gateway-Left w (some (p, ok reply)) h = h
or_bad_gateway-Left w (some (p, err e)) h = h

Left-after :
    (u w : World) (answer : Option (Proxy × Answer)) → OnlyReads u w → Left u answer → Left w answer
Left-after u w none h k = elim k [ ]
Left-after u w (some (p, a)) h k = OnlyReads-trans p.world u w k h

-- What the cached answer left, and what follows it, were read only.
if_not_served-Left :
    (tried : Bool) (p : Proxy) (cached : Proxy × Result ServeError (Option Reply))
    (failed next : Proxy → Option (Proxy × Answer))
    → OnlyReads cached.0.world p.world
    → ((p' : Proxy) → Left p'.world (failed p'))
    → ((p' : Proxy) → Left p'.world (next p'))
    → Left p.world (if_not_served tried p cached failed next)
if_not_served-Left false p cached failed next h f n = n p
if_not_served-Left true p (p', ok (some reply)) failed next h f n = h
if_not_served-Left true p (p', ok none) failed next h f n =
    Left-after p'.world p.world (next p') h (n p')
if_not_served-Left true p (p', err e) failed next h f n =
    Left-after p'.world p.world (failed p') h (f p')

module _ (h : Handling) (not_normal : is_normal h.mode ≡ false) (r : HttpRequest) (o : Outer) where
  cached_is_read :
      (ctx : RequestContext) (write : Bool) (source : MediaSource) (p : Proxy)
      → write ≡ false
      → OnlyReads
          (serve_cached_head_tail_if_available h.cfg h.calls ctx r o write source p).0.world
          p.world
  cached_is_read ctx write source p e =
      rw e (serve_cached_head_tail_if_available-OnlyReads h.cfg h.calls ctx r o source p)

  proxy_granted-Left :
      (ctx : RequestContext) (source : MediaSource) (p : Proxy)
      → Left p.world (proxy_granted h ctx r o source p)
  unfolding proxy_granted
  proxy_granted-Left ctx granted_source p =
      let source = h.resolving.resolve_media_source granted_source in
      let resolved = h.resolving.resolve_open_list source in
      let access : CacheAccess = record { read = true; write = is_normal h.mode } in
      let out_of_scope =
        not (h.resolving.is_http resolved.path)
        || not (in_scope h.rollout ctx.item_id ctx.media_source_id resolved.path) in
      if_not_served-Left (can_serve_cached_before_origin_resolution h ctx source) p _ _ _
        (cached_is_read ctx (is_normal h.mode) source p not_normal) (λ p'. OnlyReads-refl p'.world)
        (λ p'. elim (Bool-cases out_of_scope) [
          | inl e ↦ rw e (OnlyReads-refl p'.world)
          | inr e ↦ rw e (
              or_fall_back-Left p'.world _
                (serve_authorized_range-Left h.cfg h.calls ctx r o access not_normal resolved p'))
        ])

  proxy_authorized-Left :
      (ctx : RequestContext) (answer : Authorized) (p : Proxy)
      → Left p.world (proxy_authorized h ctx r o answer p)
  proxy_authorized-Left ctx (granted source) p = proxy_granted-Left ctx source p
  proxy_authorized-Left ctx refused p = OnlyReads-refl p.world
  proxy_authorized-Left ctx unavailable p = OnlyReads-refl p.world

  proxy_handler-Left :
      (parsed : Option RequestContext) (authorize : RequestContext → Authorized) (p : Proxy)
      → Left p.world (proxy_handler h parsed r o authorize p)
  unfolding proxy_handler
  proxy_handler-Left parsed authorize p =
      let same = OnlyReads-refl p.world in
      let key = h.settings.prewarm_api_key in
      elim (Bool-cases (not (is_empty key) && request_contains_internal_key r key)) [
        | inl e ↦ rw e same
        | inr e ↦ elim (Bool-cases (is_bypass h.mode)) [
          | inl f ↦ rw (e, f) same
          | inr f ↦ elim (Option-cases parsed) [
            | inl g ↦ rw (e, f, g) same
            | inr (ctx, g) ↦ elim (Bool-cases (pre_auth_rollout h.rollout ctx)) [
              | inl k ↦ rw (e, f, g, k) (proxy_authorized-Left ctx (authorize ctx) p)
              | inr k ↦ rw (e, f, g, k) same
            ]
          ]
        ]
      ]

  with_cached-Left :
      (ctx : RequestContext) (access : CacheAccess) (source : MediaSource) (p : Proxy)
      (next : Proxy → Option (Proxy × Answer))
      → access.write ≡ false
      → ((p' : Proxy) → Left p'.world (next p'))
      → Left p.world (with_cached h ctx r o access source p next)
  with_cached-Left ctx access source p next e n =
      if_not_served-Left access.read p _ _ next (cached_is_read ctx access.write source p e)
        (λ p'. OnlyReads-refl p'.world) n

  served-Left :
      (ctx : RequestContext) (source : MediaSource) (p : Proxy)
      → let access = direct_cache_access h.settings h.mode r in
        Left p.world (or_bad_gateway (serve_authorized_range h.cfg h.calls ctx r o access source p))
  served-Left ctx source p = or_bad_gateway-Left p.world _ (
      serve_authorized_range-Left h.cfg h.calls ctx r o (direct_cache_access h.settings h.mode r)
        (direct_cache_access-read_only h.settings h.mode r not_normal) source p)

  handle_direct_http-Left :
      (named : Option (RequestContext × MediaSource)) (p : Proxy)
      → Left p.world (handle_direct_http h named r o p)
  unfolding handle_direct_http
  handle_direct_http-Left named p =
      elim (Bool-cases (reject_disabled_prewarm h.settings h.mode r)) [
        | inl e ↦ rw e (OnlyReads-refl p.world)
        | inr e ↦ elim (Option-cases named) [
          | inl f ↦ rw (e, f) (OnlyReads-refl p.world)
          | inr ((ctx, source), f) ↦
              rw (e, f)
                (with_cached-Left ctx (direct_cache_access h.settings h.mode r) source p _
                  (direct_cache_access-read_only h.settings h.mode r not_normal)
                  (served-Left ctx source))
        ]
      ]

  resolved-Left :
      (ctx : RequestContext) (source : MediaSource) (p : Proxy)
      → let access = direct_cache_access h.settings h.mode r in
        Left p.world (
          if not (h.resolving.is_http source.path)
          then some (count_error p, bad_gateway)
          else or_bad_gateway (serve_authorized_range h.cfg h.calls ctx r o access source p))
  resolved-Left ctx source p = elim (Bool-cases (h.resolving.is_http source.path)) [
    | inl e ↦ rw e (served-Left ctx source p)
    | inr e ↦ rw e (OnlyReads-refl p.world)
  ]

  handle_direct_open_list-Left :
      (named : Option (RequestContext × MediaSource)) (p : Proxy)
      → Left p.world (handle_direct_open_list h named r o p)
  unfolding handle_direct_open_list
  handle_direct_open_list-Left named p =
      let token = h.settings.direct_open_list_token in
      elim (Bool-cases (reject_disabled_prewarm h.settings h.mode r)) [
        | inl e ↦ rw e (OnlyReads-refl p.world)
        | inr e ↦ elim (Bool-cases (request_contains_direct_open_list_token r token)) [
          | inr g ↦ rw (e, g) (OnlyReads-refl p.world)
          | inl g ↦ elim (Option-cases named) [
            | inl f ↦ rw (e, g, f) (OnlyReads-refl p.world)
            | inr ((ctx, source), f) ↦
                rw (e, g, f)
                  (with_cached-Left ctx (direct_cache_access h.settings h.mode r) source p _
                    (direct_cache_access-read_only h.settings h.mode r not_normal)
                    (resolved-Left ctx (h.resolving.resolve_open_list source)))
          ]
        ]
      ]

  -- In the read-only mode and in the bypass, the proxy and both direct handlers always answer. They
  -- leave every table but that of the middle blocks as it was; each middle block that is left was there,
  -- with the same key, range, path, size and creation time; they add no file and change the bytes of none.
  pub handlers-OnlyRead :
      (parsed : Option RequestContext) (authorize : RequestContext → Authorized)
      (named : Option (RequestContext × MediaSource)) (p : Proxy)
      → Left p.world (proxy_handler h parsed r o authorize p)
        × Left p.world (handle_direct_http h named r o p)
        × Left p.world (handle_direct_open_list h named r o p)
  handlers-OnlyRead parsed authorize named p = (
    proxy_handler-Left parsed authorize p,
    handle_direct_http-Left named p,
    handle_direct_open_list-Left named p,
  )
