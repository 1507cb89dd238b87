-- ===== src/App/Settings.antt =====
-- The settings that the handlers of go/internal/app/server.go read.
use emby_range_cache_proxy.Base.{Bool}
use emby_range_cache_proxy.Base.Texts.{Text}

pub record Settings : Type 0 where
  pub control_api_key : Text
  pub prewarm_api_key : Text
  pub require_eligibility : Bool
  pub direct_http_enabled : Bool
  pub direct_http_prefix : Text
  pub direct_open_list_enabled : Bool
  pub direct_open_list_prefix : Text
  pub direct_open_list_token : Text
