-- ===== src/App/Serve/Examples.antt =====
-- A request that is answered by a build, and the theorem there; tests of the block of a request.
use emby_range_cache_proxy.Base.{◌≡◌, refl, true, false, none, some, [], arith}
use emby_range_cache_proxy.Base.Texts.{codes, same_text}
use emby_range_cache_proxy.Model.{RequestContext, MediaSource, SourceMetadata}
use emby_range_cache_proxy.Disk.{content_at}
use emby_range_cache_proxy.HeadTail.{read_entry, block_for_request}
use emby_range_cache_proxy.HeadTail
use emby_range_cache_proxy.Middle.{World}
use emby_range_cache_proxy.Middle
use emby_range_cache_proxy.Origin.Examples.{file}
use emby_range_cache_proxy.App.Build.Examples.{outside, key, range, answers-honest}
use emby_range_cache_proxy.App.Mode.{read_only}
use emby_range_cache_proxy.App.Mode.Examples.{empty, request, settings}
use emby_range_cache_proxy.App.Serve.{
  ServeConfig, Calls, Proxy, free, Outer, cache_block_for_request,
}
use emby_range_cache_proxy.App.Serve.Blocks.{Planned}
use emby_range_cache_proxy.App.Serve.Ranged.{serve_planned}
use emby_range_cache_proxy.App.Serve.Handlers.{
  granted, Handling, proxy_handler, handle_direct_http, handle_direct_open_list,
}
use emby_range_cache_proxy.App.Serve.ReadOnly.{Left}
use emby_range_cache_proxy.App.Serve.Unwritten.{handlers-OnlyRead}
use emby_range_cache_proxy.App.Serve.Sound.{IsSound, serve_planned-IsSound}

abbrev config : ServeConfig
config = record {
  cache = record {
    max_bytes = 100;
    head_bytes = 10;
    tail_bytes = 4;
    adaptive_tail_max_bytes = 6;
    chunk_bytes = 4;
    default_open_range_bytes = 0;
    open_head_response_bytes = none;
    open_head_response_bytes_by_extension = [];
    open_initial_response_bytes_by_extension = [];
    build_wait_seconds = 0;
  };
  middle_cache = record {
    enabled = true;
    max_bytes = 100;
    ttl_seconds = 10;
    segment_bytes = 4;
    min_free_bytes = 0;
  };
  session_enabled = false;
}

abbrev calls : Calls
calls = record { sha256 = λ t. key; content_type_of = λ t. [] }

abbrev context : RequestContext
context = record {
  method = codes "GET";
  raw_path = [];
  item_id = codes "7";
  media_source_id = codes "ms";
  token = [];
  extension = [];
  play_session_id = [];
  device_id = [];
}

abbrev meta : SourceMetadata
meta = record { url = codes "u"; size = 10; content_type = []; etag = []; last_modified = [] }

abbrev planned : Planned
planned = record {
  ctx = context;
  request = request (codes "GET") (codes "/f") (codes "Range") (codes "bytes=3-6");
  key = key;
  meta = meta;
  byte_range = range 3 6;
}

abbrev outer : Outer
outer = record {
  head_answer = none;
  probe_answer = none;
  origin = outside;
  open_fails = false;
  opens_row = λ row. true;
  client_takes = none;
  locked = free;
  tmp = 7;
  now = 5;
}

abbrev proxy : Proxy
proxy = record {
  world = record { store = empty; disk = [] };
  counters = record {
    cache_hit = 0;
    cache_build = 0;
    origin = 0;
    fallback = 0;
    denied = 0;
    middle_hit = 0;
    middle_miss = 0;
    proxy_errors = 0;
  };
}

program : Unit {0}
unfolding cache_block_for_request block_for_request
program = tt

-- The tail of four bytes does not hold the request; one of six would.
adaptive :
    (cache_block_for_request config.cache (range 5 9) 10 3 4 ≡ some (codes "tail", range 5 9, true))
    × (cache_block_for_request config.cache (range 3 9) 10 3 4 ≡ none)
unfolding program
adaptive = (refl, refl)

no_entries : HeadTail.Slices.IsCoherent file key []
unfolding read_entry content_at
no_entries name stored bytes h = cc

no_blocks : Middle.Reads.Slices.IsCoherent file key []
unfolding content_at
no_blocks row bytes k v h size = cc

serve_planned-IsSound_example :
    IsSound file
      (range 3 6)
      (serve_planned config calls planned outer (record { read = true; write = true }) proxy)
unfolding same_text
serve_planned-IsSound_example =
    serve_planned-IsSound file config calls planned outer answers-honest (omega arith) (omega arith)
      tt (record { read = true; write = true }) proxy refl (λ row. refl) no_entries no_blocks

abbrev handling : Handling
handling = record {
  cfg = config;
  calls = calls;
  settings = settings;
  rollout = record {
    enabled = true;
    item_allowlist = [];
    media_source_allowlist = [];
    path_prefix_allowlist = [];
  };
  resolving = record {
    resolve_media_source = λ m. m;
    resolve_open_list = λ m. m;
    is_http = λ t. true;
    open_list_enabled = false;
    has_open_list_path = λ t. false;
  };
  mode = read_only;
}

abbrev source : MediaSource
source = record {
  item_id = codes "7";
  media_source_id = codes "ms";
  path = codes "u";
  protocol = codes "Http";
  container = [];
  bitrate = none;
  size = some 10;
  size_trusted = true;
}

handlers-OnlyRead_example :
    Left proxy.world
      (proxy_handler handling (some context) planned.request outer (λ ctx. granted source) proxy)
    × Left proxy.world
        (handle_direct_http handling (some (context, source)) planned.request outer proxy)
    × Left proxy.world
        (handle_direct_open_list handling (some (context, source)) planned.request outer proxy)
handlers-OnlyRead_example =
    handlers-OnlyRead handling refl planned.request outer (some context) (λ ctx. granted source)
      (some (context, source)) proxy
