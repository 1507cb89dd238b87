-- ===== src/App/Mode/Examples.antt =====
-- Tests of the cache mode, and its theorems at concrete requests.
use emby_range_cache_proxy.Base.{◌≡◌, refl, true, false, Bool, Option, some, [], ◌∷◌, if◌then◌else◌}
use emby_range_cache_proxy.Base.Texts.{
  has_prefix, Text, codes, same_text, trim_left, trim_right, trim_space,
}
use emby_range_cache_proxy.State.{Store}
use emby_range_cache_proxy.State.Sources.{runtime_setting, set_runtime_setting}
use emby_range_cache_proxy.App.Request.{HttpRequest, to_lower, equal_fold, cut, before_first}
use emby_range_cache_proxy.App.Settings.{Settings}
use emby_range_cache_proxy.App.Access.{
  subtle_equal, authorization_bearer_matches, request_contains_internal_key,
  request_contains_control_key, is_loopback, is_internal_caller,
}
use emby_range_cache_proxy.App.Mode.{
  normal, read_only, bypass, parse_cache_mode, mode_text, Control, set_cache_mode, restore_mode,
  forbidden, told, post_cache_mode, handle_cache_mode, is_eligible, mode_access,
  direct_cache_access, reject_disabled_prewarm, cache_mode, proxy, direct_http,
  is_direct_http_request, is_direct_open_list_request, serve_http,
}
use emby_range_cache_proxy.App.Mode.Kept.{set_cache_mode-restore_mode}

program : Unit {0}
unfolding same_text trim_left trim_right trim_space runtime_setting set_runtime_setting to_lower
    equal_fold cut before_first has_prefix subtle_equal authorization_bearer_matches
    request_contains_internal_key request_contains_control_key is_loopback is_internal_caller
    parse_cache_mode mode_text set_cache_mode restore_mode post_cache_mode handle_cache_mode
    is_eligible mode_access direct_cache_access reject_disabled_prewarm is_direct_http_request
    is_direct_open_list_request serve_http
program = tt

abbrev pub empty : Store
empty = record {
  playback_sessions = [];
  prefetch_tasks = [];
  middle_blocks = [];
  source_metadata = [];
  runtime_settings = [];
  next_task_id = 1;
}

abbrev control : Control
control = record { mode = normal; store = empty }

abbrev pub settings : Settings
settings = record {
  control_api_key = codes "k1";
  prewarm_api_key = codes "p1";
  require_eligibility = true;
  direct_http_enabled = true;
  direct_http_prefix = codes "/direct/";
  direct_open_list_enabled = false;
  direct_open_list_prefix = codes "/openlist/";
  direct_open_list_token = [];
}

abbrev pub request : Text → Text → Text → Text → HttpRequest
request method path header value = record {
  method = method;
  path = path;
  escaped_path = path;
  request_uri = path;
  raw_query = [];
  query = [];
  headers = (header, value ∷ []) ∷ [];
  remote_addr = codes "127.0.0.1:9";
}

abbrev no_port : Text → Option Text
no_port t = some (before_first b':' t)

abbrev is_local : Text → Bool
is_local host = same_text host (codes "127.0.0.1")

abbrev post : HttpRequest
post =
    request (codes "POST") (codes "/internal/cache-mode") (codes "X-Range-Cache-Control-Key")
      (codes "k1")

routed :
    (serve_http settings post ≡ cache_mode)
    × (serve_http settings (request (codes "GET") (codes "/direct/a") [] []) ≡ direct_http)
    × (serve_http settings (request (codes "POST") (codes "/direct/a") [] []) ≡ proxy)
unfolding program
routed = (refl, refl, refl)

switched :
    (handle_cache_mode no_port is_local settings false 9 post (some (codes " Off ")) control).1
    ≡ told bypass
unfolding program
switched = refl

refused :
    handle_cache_mode no_port is_local settings false 9
      (request (codes "POST") [] (codes "X-Range-Cache-Control-Key") (codes "k2"))
      (some (codes "off"))
      control
    ≡ (control, forbidden)
unfolding program
refused = refl

set_cache_mode-restore_mode_example :
    let (c', failed) = set_cache_mode false 9 read_only control in
    if failed then c' ≡ control else ((c'.mode ≡ read_only) × (restore_mode c'.store ≡ read_only))
set_cache_mode-restore_mode_example = set_cache_mode-restore_mode false 9 read_only control
