-- ===== src/App/Authorize/Examples.antt =====
-- A grant that is kept, found again and then dropped, and the theorem there.
use emby_range_cache_proxy.Base.{ℕ, ◌+◌, ◌≡◌, refl, true, none, [], ◌∷◌, Result, ok, err}
use emby_range_cache_proxy.Base.Texts.{Text, codes, same_text}
use emby_range_cache_proxy.Model.{RequestContext, MediaSource}
use emby_range_cache_proxy.App.Authorize.{
  AuthError, denied, AuthCall, same_key, entry_at, look_up, authorize_playback,
}
use emby_range_cache_proxy.App.Authorize.Granted.{run, Granted}

program : Unit {0}
unfolding same_text same_key entry_at look_up authorize_playback
program = tt

abbrev context : Text → RequestContext
context token = record {
  method = codes "GET";
  raw_path = [];
  item_id = codes "7";
  media_source_id = codes "ms";
  token = token;
  extension = [];
  play_session_id = [];
  device_id = [];
}

abbrev source : MediaSource
source = record {
  item_id = codes "7";
  media_source_id = codes "ms";
  path = codes "u";
  protocol = codes "Http";
  size = none;
  size_trusted = true;
  container = [];
  bitrate = none;
}

abbrev call : Text → ℕ → Result AuthError MediaSource → AuthCall
call token now answer = record { ctx = context token; now = now; later = now + 1; answer = answer }

abbrev first : AuthCall
first = call (codes "t") 100 (ok source)

-- Within ten seconds of the answer the media server is not asked; a second later it is, and so it is
-- for another token.
kept :
    ((authorize_playback 10 (call (codes "t") 110 (err denied)) (run 10 (first ∷ []))).1
      ≡ ok source)
    × ((authorize_playback 10 (call (codes "t") 111 (err denied)) (run 10 (first ∷ []))).1
        ≡ err denied)
    × ((authorize_playback 10 (call (codes "s") 105 (err denied)) (run 10 (first ∷ []))).1
        ≡ err denied)
unfolding program
kept = (refl, refl, refl)
