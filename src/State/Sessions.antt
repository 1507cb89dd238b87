-- ===== src/State/Sessions.antt =====
-- The table playback_sessions: what was watched, how far, and whether the viewer is still there.
pub mod History
use emby_range_cache_proxy.Base.{
  ℕ, ◌+◌, max, Bool, true, false, ◌&&◌, ◌||◌, Option, none, some, List, [], ◌∷◌, ◌++◌, ltb, leb,
  ◌==◌, if◌then◌else◌,
}
use emby_range_cache_proxy.Base.Tables.{
  select_where, update_where, count_where, exists_where, first_where, order_by,
}
use emby_range_cache_proxy.Base.Texts.{Text, same_text, text_ltb}
use emby_range_cache_proxy.State.{
  PlaybackSession, PlaybackSessionUpdate, SessionStatus, active, idle, stopped, expired, Store,
}

abbrev pub is_active : PlaybackSession → Bool
is_active r = elim r.status [ active ↦ true | _ ↦ false ]

abbrev pub is_expired : PlaybackSession → Bool
is_expired r = elim r.status [ expired ↦ true | _ ↦ false ]

-- `status IN ('active', 'idle')`
abbrev pub is_present : PlaybackSession → Bool
is_present r = elim r.status [ active ↦ true | idle ↦ true | _ ↦ false ]

-- `status IN ('idle', 'stopped')`
abbrev pub is_resting : PlaybackSession → Bool
is_resting r = elim r.status [ idle ↦ true | stopped ↦ true | _ ↦ false ]

abbrev pub has_hash : Text → PlaybackSession → Bool
has_hash session_hash r = same_text r.session_hash session_hash

abbrev pub new_session : PlaybackSessionUpdate → PlaybackSession
new_session u = record {
  session_hash = u.session_hash;
  device_hash = u.device_hash;
  item_id = u.item_id;
  media_source_id = u.media_source_id;
  cache_key = u.cache_key;
  origin_signature = u.origin_signature;
  media_size = u.media_size;
  last_range_start = u.byte_range.start;
  last_range_end = u.byte_range.end;
  max_observed_offset = u.byte_range.end;
  first_seen_at = u.observed_at;
  last_seen_at = u.observed_at;
  last_emby_observed_at = none;
  status = active;
  queued_until = none;
}

-- `ON CONFLICT(session_hash) DO UPDATE`
abbrev pub seen_again : PlaybackSessionUpdate → PlaybackSession → PlaybackSession
seen_again u r = record r {
  device_hash = u.device_hash;
  item_id = u.item_id;
  media_source_id = u.media_source_id;
  cache_key = u.cache_key;
  origin_signature = u.origin_signature;
  media_size = u.media_size;
  last_range_start = u.byte_range.start;
  last_range_end = u.byte_range.end;
  max_observed_offset = max r.max_observed_offset u.byte_range.end;
  last_seen_at = u.observed_at;
  status = active;
}

abbrev pub on_sessions : (List PlaybackSession → List PlaybackSession) → Store → Store
on_sessions f s = record s { playback_sessions = f s.playback_sessions }

unfoldable pub record_playback : Store → PlaybackSessionUpdate → Store
record_playback s u =
    if exists_where (has_hash u.session_hash) s.playback_sessions
    then on_sessions (update_where (has_hash u.session_hash) (seen_again u)) s
    else on_sessions (λ rows. rows ++ new_session u ∷ []) s

abbrev pub session_in : Text → List PlaybackSession → Option PlaybackSession
session_in session_hash rows = first_where (has_hash session_hash) rows

unfoldable pub get_session : Store → Text → Option PlaybackSession
get_session s session_hash = session_in session_hash s.playback_sessions

-- `last_seen_at ASC, session_hash ASC`, and the other orders of the queries.
unfoldable pub seen_before : PlaybackSession → PlaybackSession → Bool
seen_before a b =
    ltb a.last_seen_at b.last_seen_at
    || (a.last_seen_at == b.last_seen_at && text_ltb a.session_hash b.session_hash)

unfoldable pub seen_later : PlaybackSession → PlaybackSession → Bool
seen_later a b =
    ltb b.last_seen_at a.last_seen_at
    || (a.last_seen_at == b.last_seen_at && text_ltb a.session_hash b.session_hash)

abbrev pub observed_at_or_zero : PlaybackSession → ℕ
observed_at_or_zero r = elim r.last_emby_observed_at [ none ↦ 0 | some at ↦ at ]

unfoldable pub observed_before : PlaybackSession → PlaybackSession → Bool
observed_before a b =
    ltb (observed_at_or_zero a) (observed_at_or_zero b)
    || (observed_at_or_zero a == observed_at_or_zero b && text_ltb a.session_hash b.session_hash)

-- The loop that both sweeps share: each candidate is updated if it still passes the test, and is
-- then reported with its new status.
mark_each :
    (PlaybackSession → Bool)
    → SessionStatus
    → List PlaybackSession
    → List PlaybackSession
    → List PlaybackSession × List PlaybackSession
mark_each test status [] rows = (rows, [])
mark_each test status (c ∷ cs) rows =
    let hit = λ (r : PlaybackSession). has_hash c.session_hash r && test r in
    let marked = update_where hit (λ r. record r { status = status }) rows in
    let (last, out) = mark_each test status cs marked in
    let (last', out') = mark_each test status cs rows in
    if exists_where hit rows then (last, record c { status = status } ∷ out) else (last', out')

-- `last_seen_at <= now - idle` is written as a sum.
abbrev pub is_idle_at : ℕ → ℕ → PlaybackSession → Bool
is_idle_at now idle_seconds r = is_active r && leb (r.last_seen_at + idle_seconds) now

unfoldable pub mark_idle_sessions : Store → ℕ → ℕ → Store × List PlaybackSession
unfolding mark_each seen_before
mark_idle_sessions s now idle_seconds =
    let test = is_idle_at now idle_seconds in
    let candidates = order_by seen_before (select_where test s.playback_sessions) in
    let (rows, out) = mark_each test idle candidates s.playback_sessions in
    (record s { playback_sessions = rows }, out)

unfoldable pub recent_active_sessions : Store → ℕ → ℕ → List PlaybackSession
unfolding seen_later
recent_active_sessions s now active_seconds = order_by seen_later (
    select_where (λ r. is_active r && leb now (r.last_seen_at + active_seconds))
      s.playback_sessions)

abbrev pub is_old_at : ℕ → ℕ → PlaybackSession → Bool
is_old_at now expire_seconds r =
    (if is_expired r then false else true) && leb (r.last_seen_at + expire_seconds) now

unfoldable pub expire_old_sessions : Store → ℕ → ℕ → Store × ℕ
expire_old_sessions s now expire_seconds =
    let old = is_old_at now expire_seconds in
    (
      on_sessions (update_where old (λ r. record r { status = expired })) s,
      count_where old s.playback_sessions,
    )

unfoldable pub record_observed_sessions : Store → List Text → ℕ → Store
record_observed_sessions s [] observed_at = s
record_observed_sessions s (session_hash ∷ hashes) observed_at =
    record_observed_sessions
      (on_sessions
        (update_where (has_hash session_hash)
          (λ r. record r { last_emby_observed_at = some observed_at }))
        s)
      hashes observed_at

abbrev pub is_missing_at : ℕ → ℕ → PlaybackSession → Bool
is_missing_at now stop_grace_seconds r = elim r.last_emby_observed_at [
  | none ↦ false
  | some at ↦ is_present r && leb (at + stop_grace_seconds) now
]

unfoldable pub mark_missing_observed_sessions_stopped : Store → ℕ → ℕ → Store × List PlaybackSession
unfolding mark_each observed_before
mark_missing_observed_sessions_stopped s now stop_grace_seconds =
    let test = is_missing_at now stop_grace_seconds in
    let candidates = order_by observed_before (select_where test s.playback_sessions) in
    let (rows, out) = mark_each test stopped candidates s.playback_sessions in
    (record s { playback_sessions = rows }, out)

unfoldable pub prefetch_candidate_sessions : Store → List PlaybackSession
unfolding seen_before
prefetch_candidate_sessions s = order_by seen_before (select_where is_resting s.playback_sessions)

abbrev pub raise_queued : ℕ → PlaybackSession → PlaybackSession
raise_queued queued_until r = record r {
  queued_until = elim r.queued_until [
    | none ↦ some queued_until
    | some old ↦ if ltb old queued_until then some queued_until else some old
  ];
}

unfoldable pub update_session_queued_until : Store → Text → ℕ → Store
update_session_queued_until s session_hash queued_until =
    on_sessions
      (update_where (λ r. has_hash session_hash r && (if is_expired r then false else true))
        (raise_queued queued_until))
      s
