-- ===== src/App/Authorize.antt =====
-- authorizePlayback of go/internal/app/server.go: what the media server granted is kept for a while. What
-- the media server answers is an argument. A call is one step; the log is left out.
pub mod Granted
mod Examples
use emby_range_cache_proxy.Base.{
  ℕ, ◌+◌, Bool, true, false, ◌&&◌, Option, none, some, List, [], ◌∷◌, Result, ok, err, ltb, ◌==◌,
  if◌then◌else◌,
}
use emby_range_cache_proxy.Base.Texts.{Text, same_text}
use emby_range_cache_proxy.Base.Tables.{delete_where}
use emby_range_cache_proxy.Model.{RequestContext, MediaSource}

-- authCacheKey
pub record AuthKey : Type 0 where
  pub item_id : Text
  pub media_source_id : Text
  pub token : Text

pub record AuthEntry : Type 0 where
  pub key : AuthKey
  pub source : MediaSource
  pub expires_at : ℕ

-- `denied` is emby.AuthorizationError, `unavailable` any other error.
pub data AuthError : Type 0 where
  denied unavailable : AuthError

-- One call: the times at which it looks up and at which the media server has answered, and that answer.
pub record AuthCall : Type 0 where
  pub ctx : RequestContext
  pub now : ℕ
  pub later : ℕ
  pub answer : Result AuthError MediaSource

abbrev pub key_of : RequestContext → AuthKey
key_of ctx = record {
  item_id = ctx.item_id;
  media_source_id = ctx.media_source_id;
  token = ctx.token;
}

unfoldable pub same_key : AuthKey → AuthKey → Bool
same_key a b =
    same_text a.item_id b.item_id
    && (same_text a.media_source_id b.media_source_id && same_text a.token b.token)

abbrev pub has_key : AuthKey → AuthEntry → Bool
has_key key entry = same_key entry.key key

unfoldable pub entry_at : AuthKey → List AuthEntry → Option AuthEntry
entry_at key [] = none
entry_at key (entry ∷ entries) = if has_key key entry then some entry else entry_at key entries

-- An entry that is there and has not expired; an expired one is removed.
unfoldable pub look_up : ℕ → AuthCall → List AuthEntry → List AuthEntry × Option MediaSource
look_up ttl c entries =
    let key = key_of c.ctx in
    if ttl == 0 then (entries, none) else elim (entry_at key entries) [
      | none ↦ (entries, none)
      | some entry ↦
          if ltb c.now entry.expires_at
          then (entries, some entry.source)
          else (delete_where (has_key key) entries, none)
    ]

-- The answer of the media server, which is kept if it is a grant.
abbrev pub keep_answer :
    ℕ → AuthCall → List AuthEntry → Result AuthError MediaSource → List AuthEntry
keep_answer ttl c entries (err e) = entries
keep_answer ttl c entries (ok source) =
    if ttl == 0
    then entries
    else record { key = key_of c.ctx; source = source; expires_at = c.later + ttl }
      ∷ delete_where (has_key (key_of c.ctx)) entries

abbrev pub after_look_up :
    ℕ
    → AuthCall
    → List AuthEntry × Option MediaSource
    → List AuthEntry × Result AuthError MediaSource
after_look_up ttl c (entries, some source) = (entries, ok source)
after_look_up ttl c (entries, none) = (keep_answer ttl c entries c.answer, c.answer)

-- `ttl` is authCacheTTL, 0 where it is not above 0.
unfoldable pub authorize_playback :
    ℕ → AuthCall → List AuthEntry → List AuthEntry × Result AuthError MediaSource
authorize_playback ttl c entries = after_look_up ttl c (look_up ttl c entries)
