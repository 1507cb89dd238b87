-- ===== src/App/Mode/Kept.antt =====
-- What the cache mode guards, and that it is kept over a restart.
use emby_range_cache_proxy.Base.{ℕ, ◌≡◌, refl, Bool, true, false, some, if◌then◌else◌}
use emby_range_cache_proxy.Base.Texts.{same_text, same_text_refl, trim_left, trim_right, trim_space}
use emby_range_cache_proxy.State.Sources.Latest.{runtime_setting-set_runtime_setting}
use emby_range_cache_proxy.App.Request.{to_lower}
use emby_range_cache_proxy.App.Settings.{Settings}
use emby_range_cache_proxy.App.Mode.{
  CacheMode, normal, read_only, bypass, parse_cache_mode, mode_text, cache_mode_setting_key,
  Control, set_cache_mode, restore_mode,
}

-- A mode's text is read as this mode.
parse_cache_mode-mode_text : (m : CacheMode) → parse_cache_mode (mode_text m) ≡ some m
unfolding parse_cache_mode mode_text trim_space trim_left trim_right same_text to_lower
parse_cache_mode-mode_text normal = refl
parse_cache_mode-mode_text read_only = refl
parse_cache_mode-mode_text bypass = refl

-- A mode that was set without an error is in force, and a start with the database that was left has
-- it again; after an error nothing has changed.
pub set_cache_mode-restore_mode :
    (fails : Bool) (now : ℕ) (m : CacheMode) (c : Control)
    → let (c', failed) = set_cache_mode fails now m c in
      if failed then c' ≡ c else ((c'.mode ≡ m) × (restore_mode c'.store ≡ m))
unfolding set_cache_mode restore_mode
set_cache_mode-restore_mode true now m c = refl
set_cache_mode-restore_mode false now m c =
    let written =
      runtime_setting-set_runtime_setting cache_mode_setting_key cache_mode_setting_key
        (mode_text m) now c.store in
    (
      refl,
      rw (written, restore_mode, same_text_refl cache_mode_setting_key)
          (rw (parse_cache_mode-mode_text m) refl),
    )
