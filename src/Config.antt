-- ===== src/Config.antt =====
-- go/internal/config/config.go: the settings that the modelled parts read. A setting that the
-- loader keeps at 0 or above is a natural number.
use emby_range_cache_proxy.Base.{
  ℕ, Bool, true, false, ◌&&◌, ◌||◌, Option, List, [], ◌∷◌, if◌then◌else◌,
}
use emby_range_cache_proxy.Base.Texts.{Text, same_text, has_prefix}

pub record CacheConfig : Type 0 where
  pub max_bytes : ℕ
  pub head_bytes : ℕ
  pub tail_bytes : ℕ
  pub adaptive_tail_max_bytes : ℕ
  pub chunk_bytes : ℕ
  pub default_open_range_bytes : ℕ
  pub open_head_response_bytes : Option ℕ
  pub open_head_response_bytes_by_extension : List (Text × ℕ)
  pub open_initial_response_bytes_by_extension : List (Text × ℕ)
  pub build_wait_seconds : ℕ

pub record MiddleCacheConfig : Type 0 where
  pub enabled : Bool
  pub max_bytes : ℕ
  pub ttl_seconds : ℕ
  pub segment_bytes : ℕ
  pub min_free_bytes : ℕ

pub record PrefetchConfig : Type 0 where
  pub enabled : Bool
  pub window_bytes : ℕ
  pub resume_overlap_bytes : ℕ
  pub max_session_bytes : ℕ
  pub resume_back_blocks : ℕ
  pub resume_forward_blocks : ℕ
  pub concurrency : ℕ
  pub per_origin_concurrency : ℕ
  pub max_queue_depth : ℕ
  pub error_backoff_seconds : ℕ

-- A set of strings is a list of them.
pub record RolloutConfig : Type 0 where
  pub enabled : Bool
  pub item_allowlist : List Text
  pub media_source_allowlist : List Text
  pub path_prefix_allowlist : List Text

abbrev pub has_string : List Text → Text → Bool
has_string [] value = false
has_string (v ∷ vs) value = same_text v value || has_string vs value

abbrev pub is_nil : List Text → Bool
is_nil [] = true
is_nil (v ∷ vs) = false

abbrev pub is_blank : Text → Bool
is_blank [] = true
is_blank (c ∷ s) = false

unfoldable pub item_allowed : RolloutConfig → Text → Bool
item_allowed r item_id = is_nil r.item_allowlist || has_string r.item_allowlist item_id

unfoldable pub media_source_allowed : RolloutConfig → Text → Bool
media_source_allowed r media_source_id =
    is_nil r.media_source_allowlist || has_string r.media_source_allowlist media_source_id

abbrev pub starts_with_one : List Text → Text → Bool
starts_with_one [] value = false
starts_with_one (prefix ∷ prefixes) value =
    if has_prefix prefix value then true else starts_with_one prefixes value

unfoldable pub path_allowed : RolloutConfig → Text → Bool
path_allowed r value =
    if is_nil r.path_prefix_allowlist
    then true
    else if is_blank value
    then false
    else starts_with_one r.path_prefix_allowlist value

unfoldable pub in_scope : RolloutConfig → Text → Text → Text → Bool
in_scope r item_id media_source_id path =
    r.enabled
    && (item_allowed r item_id && (media_source_allowed r media_source_id && path_allowed r path))
