-- ===== src/App/Authorize/Granted.antt =====
-- Every source that authorizePlayback hands out was granted.
use emby_range_cache_proxy.Base.{ℕ, ◌+◌, ◌≡◌, none, List, [], ◌∷◌, ok, ◌⊎◌}
use emby_range_cache_proxy.Model.{MediaSource}
use emby_range_cache_proxy.App.Authorize.{
  AuthKey, AuthEntry, AuthCall, key_of, look_up, authorize_playback,
}

-- The entries after the calls, the latest call first.
abbrev pub run : ℕ → List AuthCall → List AuthEntry
run ttl [] = []
run ttl (c ∷ cs) = (authorize_playback ttl c (run ttl cs)).0

-- In one of the calls no entry was found, the media server was asked for this key, and it granted the
-- source, at that time.
abbrev pub Granted : ℕ → List AuthCall → AuthKey → MediaSource → ℕ → Type 0
Granted ttl [] key source at = ⊥
Granted ttl (c ∷ cs) key source at =
    ((key_of c.ctx ≡ key)
      × ((look_up ttl c (run ttl cs)).1 ≡ none)
      × (c.answer ≡ ok source)
      × (c.later ≡ at))
    ⊎ Granted ttl cs key source at

-- Each entry is there by a grant, and expires `ttl` after it.
abbrev IsBacked : ℕ → List AuthCall → AuthEntry → Type 0
IsBacked ttl cs entry =
    (at : ℕ) × Granted ttl cs entry.key entry.source at × (entry.expires_at ≡ at + ttl)
