-- ===== src/App/Serve/Handlers.antt =====
-- The handlers of go/internal/app/server.go that end in serveAuthorizedRange. What the parsers of requests
-- and URLs, the media server and the resolvers of sources answer is an argument.
use emby_range_cache_proxy.Base.{
  ◌+◌, Bool, true, false, not, ◌&&◌, ◌||◌, Option, none, some, Result, ok, err, if◌then◌else◌,
}
use emby_range_cache_proxy.Base.Texts.{Text}
use emby_range_cache_proxy.Config.{RolloutConfig, item_allowed, media_source_allowed, in_scope}
use emby_range_cache_proxy.Model.{RequestContext, MediaSource}
use emby_range_cache_proxy.Ranges.{is_empty}
use emby_range_cache_proxy.App.Access.{
  request_contains_internal_key, request_contains_direct_open_list_token,
}
use emby_range_cache_proxy.App.Mode.{
  CacheMode, normal, read_only, bypass, CacheAccess, is_normal, direct_cache_access,
  reject_disabled_prewarm,
}
use emby_range_cache_proxy.App.Request.{HttpRequest}
use emby_range_cache_proxy.App.Settings.{Settings}
use emby_range_cache_proxy.App.Serve.{ServeConfig, Calls, Proxy, Outer, ServeError, Reply}
use emby_range_cache_proxy.App.Serve.Cached.{serve_cached_head_tail_if_available}
use emby_range_cache_proxy.App.Serve.Ranged.{serve_authorized_range}

-- `fall_back` is streamFallback: the request goes to the server behind the proxy as it came.
pub data Answer : Type 0 where
  served : Reply → Answer
  fall_back forbidden conflict bad_request bad_gateway : Answer

-- What authorizePlayback says.
pub data Authorized : Type 0 where
  granted : MediaSource → Authorized
  refused unavailable : Authorized

-- ResolveMediaSource, the OpenList resolver, isHTTP, and whether a path is one of OpenList.
pub record Resolving : Type 0 where
  pub resolve_media_source : MediaSource → MediaSource
  pub resolve_open_list : MediaSource → MediaSource
  pub is_http : Text → Bool
  pub open_list_enabled : Bool
  pub has_open_list_path : Text → Bool

pub record Handling : Type 0 where
  pub cfg : ServeConfig
  pub calls : Calls
  pub settings : Settings
  pub rollout : RolloutConfig
  pub resolving : Resolving
  pub mode : CacheMode

abbrev pub count_fallback : Proxy → Proxy
count_fallback p = record p { counters = record p.counters { fallback = p.counters.fallback + 1 } }

abbrev pub count_denied : Proxy → Proxy
count_denied p = record p { counters = record p.counters { denied = p.counters.denied + 1 } }

abbrev pub count_error : Proxy → Proxy
count_error p = record p {
  counters = record p.counters { proxy_errors = p.counters.proxy_errors + 1 };
}

unfoldable pub pre_auth_rollout : RolloutConfig → RequestContext → Bool
pre_auth_rollout r ctx =
    r.enabled && (item_allowed r ctx.item_id && media_source_allowed r ctx.media_source_id)

unfoldable pub can_serve_cached_before_origin_resolution :
    Handling → RequestContext → MediaSource → Bool
can_serve_cached_before_origin_resolution h ctx source =
    if h.resolving.is_http source.path
    then in_scope h.rollout ctx.item_id ctx.media_source_id source.path
    else if not h.resolving.open_list_enabled
    then false
    else h.resolving.has_open_list_path source.path

-- An error of serveAuthorizedRange: the proxy counts it and falls back, the direct handlers answer 502.
abbrev pub or_fall_back : Option (Proxy × Result ServeError Reply) → Option (Proxy × Answer)
or_fall_back none = none
or_fall_back (some (p, ok reply)) = some (p, served reply)
or_fall_back (some (p, err e)) = some (count_fallback (count_error p), fall_back)

abbrev pub or_bad_gateway : Option (Proxy × Result ServeError Reply) → Option (Proxy × Answer)
or_bad_gateway none = none
or_bad_gateway (some (p, ok reply)) = some (p, served reply)
or_bad_gateway (some (p, err e)) = some (count_error p, bad_gateway)

-- What the cached answer leaves to do.
abbrev pub if_not_served :
    Bool
    → Proxy
    → Proxy × Result ServeError (Option Reply)
    → (Proxy → Option (Proxy × Answer))
    → (Proxy → Option (Proxy × Answer))
    → Option (Proxy × Answer)
if_not_served false p cached failed next = next p
if_not_served true p (p', ok (some reply)) failed next = some (p', served reply)
if_not_served true p (p', ok none) failed next = next p'
if_not_served true p (p', err e) failed next = failed p'

-- The rest of proxyHandler for a source that the media server granted.
unfoldable pub proxy_granted :
    Handling → RequestContext → HttpRequest → Outer → MediaSource → Proxy → Option (Proxy × Answer)
proxy_granted h ctx r o granted_source p =
    let source = h.resolving.resolve_media_source granted_source in
    let access : CacheAccess = record { read = true; write = is_normal h.mode } in
    let resolved = h.resolving.resolve_open_list source in
    if_not_served (can_serve_cached_before_origin_resolution h ctx source) p
      (serve_cached_head_tail_if_available h.cfg h.calls ctx r o access.write source p)
      (λ p'. some (count_fallback (count_error p'), fall_back))
      (λ p'.
        if not (h.resolving.is_http resolved.path)
          || not (in_scope h.rollout ctx.item_id ctx.media_source_id resolved.path)
        then some (count_fallback p', fall_back)
        else or_fall_back (serve_authorized_range h.cfg h.calls ctx r o access resolved p'))

abbrev pub proxy_authorized :
    Handling → RequestContext → HttpRequest → Outer → Authorized → Proxy → Option (Proxy × Answer)
proxy_authorized h ctx r o (granted source) p = proxy_granted h ctx r o source p
proxy_authorized h ctx r o refused p = some (count_denied p, forbidden)
proxy_authorized h ctx r o unavailable p = some (count_fallback p, fall_back)

abbrev pub is_bypass : CacheMode → Bool
is_bypass normal = false
is_bypass read_only = false
is_bypass bypass = true

-- `parsed` is what ParseOriginal makes of the request.
unfoldable pub proxy_handler :
    Handling
    → Option RequestContext
    → HttpRequest
    → Outer
    → (RequestContext → Authorized)
    → Proxy
    → Option (Proxy × Answer)
proxy_handler h parsed r o authorize p =
    if not (is_empty h.settings.prewarm_api_key)
      && request_contains_internal_key r h.settings.prewarm_api_key
    then some (count_denied p, forbidden)
    else if is_bypass h.mode
    then some (count_fallback p, fall_back)
    else elim parsed [
      | none ↦ some (count_fallback p, fall_back)
      | some ctx ↦
          if not (pre_auth_rollout h.rollout ctx)
          then some (count_fallback p, fall_back)
          else proxy_authorized h ctx r o (authorize ctx) p
    ]

abbrev pub with_cached :
    Handling
    → RequestContext
    → HttpRequest
    → Outer
    → CacheAccess
    → MediaSource
    → Proxy
    → (Proxy → Option (Proxy × Answer))
    → Option (Proxy × Answer)
with_cached h ctx r o access source p next =
    if_not_served access.read p
      (serve_cached_head_tail_if_available h.cfg h.calls ctx r o access.write source p)
      (λ p'. some (count_error p', bad_gateway)) next

-- handleDirectHTTP, on the source that the request names, none where it is refused.
unfoldable pub handle_direct_http :
    Handling
    → Option (RequestContext × MediaSource)
    → HttpRequest
    → Outer
    → Proxy
    → Option (Proxy × Answer)
handle_direct_http h named r o p =
    let access = direct_cache_access h.settings h.mode r in
    if reject_disabled_prewarm h.settings h.mode r then some (p, conflict) else elim named [
      | none ↦ some (count_error p, bad_request)
      | some (ctx, source) ↦
          with_cached h ctx r o access source p
            (λ p'. or_bad_gateway (serve_authorized_range h.cfg h.calls ctx r o access source p'))
    ]

unfoldable pub handle_direct_open_list :
    Handling
    → Option (RequestContext × MediaSource)
    → HttpRequest
    → Outer
    → Proxy
    → Option (Proxy × Answer)
handle_direct_open_list h named r o p =
    let access = direct_cache_access h.settings h.mode r in
    if reject_disabled_prewarm h.settings h.mode r
    then some (p, conflict)
    else if not (request_contains_direct_open_list_token r h.settings.direct_open_list_token)
    then some (count_denied p, forbidden)
    else elim named [
      | none ↦ some (count_error p, bad_request)
      | some (ctx, source) ↦ with_cached h ctx r o access source p (λ p'.
          let resolved = h.resolving.resolve_open_list source in
          if not (h.resolving.is_http resolved.path)
          then some (count_error p', bad_gateway)
          else or_bad_gateway (serve_authorized_range h.cfg h.calls ctx r o access resolved p'))
    ]
