-- ===== src/App/Mode.antt =====
-- The cache mode of go/internal/app/server.go: how it is set, kept over a restart, and what it allows.
pub mod Kept
pub mod Examples
use emby_range_cache_proxy.Base.{
  ℕ, Bool, true, false, not, ◌&&◌, ◌||◌, Option, none, some, List, [], ◌∷◌, if◌then◌else◌,
}
use emby_range_cache_proxy.Base.Texts.{has_prefix, Text, codes, same_text, trim_space}
use emby_range_cache_proxy.Ranges.{is_empty}
use emby_range_cache_proxy.State.{Store}
use emby_range_cache_proxy.State.Sources.{runtime_setting, set_runtime_setting}
use emby_range_cache_proxy.App.Request.{HttpRequest, get, to_lower}
use emby_range_cache_proxy.App.Settings.{Settings}
use emby_range_cache_proxy.App.Access.{
  request_contains_internal_key, request_contains_control_key, is_internal_caller,
}

pub data CacheMode : Type 0 where
  normal read_only bypass : CacheMode

unfoldable pub parse_cache_mode : Text → Option CacheMode
parse_cache_mode value =
    let word = to_lower (trim_space value) in
    if same_text word (codes "normal")
    then some normal
    else if same_text word (codes "read_only") || same_text word (codes "readonly")
    then some read_only
    else if same_text word (codes "bypass") || same_text word (codes "off")
    then some bypass
    else none

-- cacheMode.String
unfoldable pub mode_text : CacheMode → Text
mode_text normal = codes "normal"
mode_text read_only = codes "read_only"
mode_text bypass = codes "bypass"

abbrev pub is_normal : CacheMode → Bool
is_normal normal = true
is_normal read_only = false
is_normal bypass = false

abbrev pub cache_mode_setting_key : Text
cache_mode_setting_key = codes "cache_mode"

-- The atomic value and the database.
pub record Control : Type 0 where
  pub mode : CacheMode
  pub store : Store

-- `fails` says that the database does not take the setting. The answer says whether that was an error.
unfoldable pub set_cache_mode : Bool → ℕ → CacheMode → Control → Control × Bool
set_cache_mode fails now mode c = if fails then (c, true) else (
  record {
    mode = mode;
    store = set_runtime_setting c.store cache_mode_setting_key (mode_text mode) now;
  },
  false,
)

-- The mode with which New starts.
unfoldable pub restore_mode : Store → CacheMode
restore_mode s = elim (runtime_setting s cache_mode_setting_key) [
  | none ↦ normal
  | some value ↦ elim (parse_cache_mode value) [ none ↦ normal | some mode ↦ mode ]
]

-- What an HTTP handler answers: a status, and the mode that a success tells.
pub data ControlAnswer : Type 0 where
  not_found forbidden invalid_json invalid_mode not_persisted : ControlAnswer
  told : CacheMode → ControlAnswer

abbrev pub is_post : HttpRequest → Bool
is_post r = same_text r.method (codes "POST")

-- A POST with this mode, none where the body is no JSON.
unfoldable pub post_cache_mode : Bool → ℕ → Option Text → Control → Control × ControlAnswer
post_cache_mode fails now payload c = elim payload [
  | none ↦ (c, invalid_json)
  | some value ↦ elim (parse_cache_mode value) [
    | none ↦ (c, invalid_mode)
    | some mode ↦
        let (c', failed) = set_cache_mode fails now mode c in
        if failed then (c', not_persisted) else (c', told c'.mode)
  ]
]

pub record CacheAccess : Type 0 where
  pub read : Bool
  pub write : Bool

unfoldable pub is_eligible : Settings → HttpRequest → Bool
is_eligible s r =
    not s.require_eligibility
    || (same_text (trim_space (get (codes "X-Range-Cache-Eligible") r.headers)) (codes "1")
        || (not (is_empty s.prewarm_api_key) && request_contains_internal_key r s.prewarm_api_key))

unfoldable pub mode_access : CacheMode → CacheAccess
mode_access normal = record { read = true; write = true }
mode_access read_only = record { read = true; write = false }
mode_access bypass = record { read = false; write = false }

unfoldable pub direct_cache_access : Settings → CacheMode → HttpRequest → CacheAccess
direct_cache_access s mode r =
    if not (is_eligible s r) then record { read = false; write = false } else mode_access mode

-- rejectDisabledPrewarm; a request that it names is answered with 409.
unfoldable pub reject_disabled_prewarm : Settings → CacheMode → HttpRequest → Bool
reject_disabled_prewarm s mode r =
    if is_normal mode
      || (is_empty s.prewarm_api_key || not (request_contains_internal_key r s.prewarm_api_key))
    then false
    else true

-- What ServeHTTP hands a request to.
pub data Route : Type 0 where
  healthz stats metrics internal_prewarm cache_mode direct_open_list direct_http proxy : Route

abbrev pub is_get : HttpRequest → Bool
is_get r = same_text r.method (codes "GET")

abbrev pub is_head : HttpRequest → Bool
is_head r = same_text r.method (codes "HEAD")

unfoldable pub is_direct_http_request : Settings → HttpRequest → Bool
is_direct_http_request s r =
    if not s.direct_http_enabled
    then false
    else if not (is_get r) && not (is_head r)
    then false
    else has_prefix s.direct_http_prefix r.path

unfoldable pub is_direct_open_list_request : Settings → HttpRequest → Bool
is_direct_open_list_request s r =
    if not s.direct_open_list_enabled
    then false
    else if not (is_get r) && not (is_head r)
    then false
    else has_prefix s.direct_open_list_prefix r.path

unfoldable pub serve_http : Settings → HttpRequest → Route
serve_http s r =
    if is_get r && same_text r.path (codes "/healthz")
    then healthz
    else if is_get r && same_text r.path (codes "/internal/stats")
    then stats
    else if is_get r && same_text r.path (codes "/internal/metrics")
    then metrics
    else if is_post r && same_text r.path (codes "/internal/prewarm")
    then internal_prewarm
    else if (is_get r || is_post r) && same_text r.path (codes "/internal/cache-mode")
    then cache_mode
    else if is_direct_open_list_request s r
    then direct_open_list
    else if is_direct_http_request s r
    then direct_http
    else proxy

module _ (split_host_port : Text → Option Text) (ip_is_loopback : Text → Bool) where
  unfoldable pub handle_cache_mode :
      Settings → Bool → ℕ → HttpRequest → Option Text → Control → Control × ControlAnswer
  handle_cache_mode s fails now r payload c =
      if is_empty s.control_api_key
      then (c, not_found)
      else if not (is_internal_caller split_host_port ip_is_loopback r)
          || not (request_contains_control_key r s.control_api_key)
      then (c, forbidden)
      else if is_post r
      then post_cache_mode fails now payload c
      else (c, told c.mode)
