-- ===== src/State/Sessions/History.antt =====
-- What a session keeps through every history of calls.
use emby_range_cache_proxy.Base.{
  ℕ, ◌≤◌, ◌≡◌, refl, ap, ◌∙◌, subst, inl, inr, Bool, true, ◌&&◌, Option, none, some, List, [], ◌∷◌,
  ◌++◌, arith, ltb, if◌then◌else◌, Bool-cases,
}
use emby_range_cache_proxy.Base.Tables.{update_where, exists_where}
use emby_range_cache_proxy.Base.Texts.{Text, same_text}
use emby_range_cache_proxy.State.{
  PlaybackSession, PlaybackSessionUpdate, SessionStatus, idle, stopped, expired, Store,
}
use emby_range_cache_proxy.State.Sessions.{
  has_hash, session_in, get_session, seen_again, new_session, record_playback, mark_each,
  mark_idle_sessions, expire_old_sessions, record_observed_sessions, is_idle_at, is_missing_at,
  mark_missing_observed_sessions_stopped, update_session_queued_until, raise_queued,
}

-- `none` is before every number.
abbrev pub QueuedLe : Option ℕ → Option ℕ → Type 0
QueuedLe none q = Unit {0}
QueuedLe (some a) none = ⊥
QueuedLe (some a) (some b) = a ≤ b

-- The row is of the same session, its first sight stands, and its marks have not moved back.
pub record Continues (u v : PlaybackSession) : Type 0 where
  pub same_hash : v.session_hash ≡ u.session_hash
  pub first_seen : v.first_seen_at ≡ u.first_seen_at
  pub observed : u.max_observed_offset ≤ v.max_observed_offset
  pub queued : QueuedLe u.queued_until v.queued_until

QueuedLe-refl : (q : Option ℕ) → QueuedLe q q
QueuedLe-refl none = tt
QueuedLe-refl (some a) = omega arith

QueuedLe-trans : (p q r : Option ℕ) → QueuedLe p q → QueuedLe q r → QueuedLe p r
QueuedLe-trans none q r h k = tt
QueuedLe-trans (some a) none r h k = elim h [ ]
QueuedLe-trans (some a) (some b) none h k = k
QueuedLe-trans (some a) (some b) (some c) h k = omega arith

Continues-refl : (u : PlaybackSession) → Continues u u
Continues-refl u = record {
  same_hash = refl;
  first_seen = refl;
  observed = omega arith;
  queued = QueuedLe-refl u.queued_until;
}

Continues-trans : (u v w : PlaybackSession) → Continues u v → Continues v w → Continues u w
Continues-trans u v w h k = record {
  same_hash = k.same_hash ∙ h.same_hash;
  first_seen = k.first_seen ∙ h.first_seen;
  observed = omega arith;
  queued = QueuedLe-trans u.queued_until v.queued_until w.queued_until h.queued k.queued;
}

updated-Continues :
    (p : PlaybackSession → Bool) (f : PlaybackSession → PlaybackSession) (r : PlaybackSession)
    → Continues r (f r)
    → Continues r (if p r then f r else r)
updated-Continues p f r h = elim (Bool-cases (p r)) [
  | inl e ↦ rw e h
  | inr e ↦ rw e (Continues-refl r)
]

first_hit :
    (hash : Text) (r u : PlaybackSession) (rows : List PlaybackSession)
    → has_hash hash r ≡ true
    → session_in hash (r ∷ rows) ≡ some u
    → r ≡ u
first_hit hash r u rows hit h = ground arith

session_in-update :
    (hash : Text) (p : PlaybackSession → Bool) (f : PlaybackSession → PlaybackSession)
    (rows : List PlaybackSession) (u : PlaybackSession)
    → ((r : PlaybackSession) → Continues r (f r))
    → session_in hash rows ≡ some u
    → (v : PlaybackSession) × (session_in hash (update_where p f rows) ≡ some v) × Continues u v
session_in-update hash p f [] u keep h = cc
session_in-update hash p f (r ∷ rows) u keep h =
    let c = updated-Continues p f r (keep r) in
    let e = ap (λ t. same_text t hash) c.same_hash in
    elim (Bool-cases (has_hash hash r)) [
      | inl hit ↦
          let same : r ≡ u = first_hit hash r u rows hit h in
          (
            if p r then f r else r,
            rw (e ∙ hit),
            subst (λ x. Continues x (if p r then f r else r)) same c,
          )
      | inr miss ↦ rw (e ∙ miss) (session_in-update hash p f rows u keep (rw miss at h))
    ]

session_in-append :
    (hash : Text) (rows : List PlaybackSession) (n u : PlaybackSession)
    → session_in hash rows ≡ some u
    → session_in hash (rows ++ n ∷ []) ≡ some u
session_in-append hash [] n u h = cc
session_in-append hash (r ∷ rows) n u h = ground (arith, session_in-append hash rows n u)

-- What one statement does to the rows.
abbrev Keeps : (List PlaybackSession → List PlaybackSession) → Type 0
Keeps f =
    (hash : Text) (rows : List PlaybackSession) (u : PlaybackSession)
    → session_in hash rows ≡ some u
    → (v : PlaybackSession) × (session_in hash (f rows) ≡ some v) × Continues u v

update-Keeps :
    (p : PlaybackSession → Bool) (f : PlaybackSession → PlaybackSession)
    → ((r : PlaybackSession) → Continues r (f r))
    → Keeps (update_where p f)
update-Keeps p f keep hash rows u h = session_in-update hash p f rows u keep h

status-Continues :
    (status : SessionStatus) (r : PlaybackSession) → Continues r (record r { status = status })
status-Continues status r = record {
  same_hash = refl;
  first_seen = refl;
  observed = omega arith;
  queued = QueuedLe-refl r.queued_until;
}

seen_again-Continues :
    (w : PlaybackSessionUpdate) (r : PlaybackSession) → Continues r (seen_again w r)
seen_again-Continues w r = record {
  same_hash = refl;
  first_seen = refl;
  observed = omega arith;
  queued = QueuedLe-refl r.queued_until;
}

observed-Continues :
    (at : ℕ) (r : PlaybackSession) → Continues r (record r { last_emby_observed_at = some at })
observed-Continues at r = record {
  same_hash = refl;
  first_seen = refl;
  observed = omega arith;
  queued = QueuedLe-refl r.queued_until;
}

raised-QueuedLe :
    (n : ℕ) (q : Option ℕ)
    → QueuedLe q (elim q [ none ↦ some n | some old ↦ if ltb old n then some n else some old ])
raised-QueuedLe n none = tt
raised-QueuedLe n (some old) = elim (Bool-cases (ltb old n)) [
  | inl e ↦ rw e (ground arith)
  | inr e ↦ rw e (omega arith)
]

raise_queued-Continues : (n : ℕ) (r : PlaybackSession) → Continues r (raise_queued n r)
raise_queued-Continues n r = record {
  same_hash = refl;
  first_seen = refl;
  observed = omega arith;
  queued = raised-QueuedLe n r.queued_until;
}

mark_each-Keeps :
    (test : PlaybackSession → Bool) (status : SessionStatus) (cs : List PlaybackSession)
    → Keeps (λ rows. (mark_each test status cs rows).0)
unfolding mark_each
mark_each-Keeps test status [] hash rows u h = (u, h, Continues-refl u)
mark_each-Keeps test status (c ∷ cs) hash rows u h =
    let hit = λ (r : PlaybackSession). has_hash c.session_hash r && test r in
    let mark = λ (r : PlaybackSession). record r { status = status } in
    elim (Bool-cases (exists_where hit rows)) [
      | inl e ↦
          let (v, found, first) =
            session_in-update hash hit mark rows u (status-Continues status) h in
          let (w, found', last) =
            mark_each-Keeps test status cs hash (update_where hit mark rows) v found in
          rw e (w, found', Continues-trans u v w first last)
      | inr e ↦ rw e (mark_each-Keeps test status cs hash rows u h)
    ]

pub data Call : Type 0 where
  play : PlaybackSessionUpdate → Call
  mark_idle : ℕ → ℕ → Call
  expire : ℕ → ℕ → Call
  observe : List Text → ℕ → Call
  stop_missing : ℕ → ℕ → Call
  queue_until : Text → ℕ → Call

unfoldable pub step : Store → Call → Store
step s (play u) = record_playback s u
step s (mark_idle now seconds) = (mark_idle_sessions s now seconds).0
step s (expire now seconds) = (expire_old_sessions s now seconds).0
step s (observe hashes at) = record_observed_sessions s hashes at
step s (stop_missing now seconds) = (mark_missing_observed_sessions_stopped s now seconds).0
step s (queue_until hash n) = update_session_queued_until s hash n

unfoldable pub run : Store → List Call → Store
run s [] = s
run s (c ∷ cs) = run (step s c) cs

-- The session is in the store, as a continuation of `u`.
abbrev pub IsContinued : Text → PlaybackSession → Store → Type 0
IsContinued hash u s = (v : PlaybackSession) × (get_session s hash ≡ some v) × Continues u v

observe-IsContinued :
    (hashes : List Text) (at : ℕ) (s : Store) (hash : Text) (u : PlaybackSession)
    → session_in hash s.playback_sessions ≡ some u
    → (v : PlaybackSession) × (session_in hash
          (record_observed_sessions s hashes at).playback_sessions
        ≡ some v)
      × Continues u v
unfolding record_observed_sessions
observe-IsContinued [] at s hash u h = (u, h, Continues-refl u)
observe-IsContinued (x ∷ hashes) at s hash u h =
    let (v, found, first) =
      session_in-update hash (has_hash x) (λ r. record r { last_emby_observed_at = some at })
        s.playback_sessions u (observed-Continues at) h in
    let (w, found', last) = observe-IsContinued hashes at _ hash v found in
    (w, found', Continues-trans u v w first last)

play-IsContinued :
    (w : PlaybackSessionUpdate) (s : Store) (hash : Text) (u : PlaybackSession)
    → session_in hash s.playback_sessions ≡ some u
    → (v : PlaybackSession) × (session_in hash (record_playback s w).playback_sessions ≡ some v)
      × Continues u v
unfolding record_playback
play-IsContinued w s hash u h =
    elim (Bool-cases (exists_where (has_hash w.session_hash) s.playback_sessions)) [
      | inl old ↦ rw old (
          session_in-update hash (has_hash w.session_hash) (seen_again w) s.playback_sessions u
            (seen_again-Continues w) h)
      | inr new ↦
          rw new
            (u, session_in-append hash s.playback_sessions (new_session w) u h, Continues-refl u)
    ]

step-IsContinued :
    (s : Store) (c : Call) (hash : Text) (u : PlaybackSession)
    → get_session s hash ≡ some u
    → IsContinued hash u (step s c)
unfolding step get_session mark_idle_sessions expire_old_sessions
    mark_missing_observed_sessions_stopped update_session_queued_until
step-IsContinued s (play w) hash u h = play-IsContinued w s hash u h
step-IsContinued s (mark_idle now seconds) hash u h =
    mark_each-Keeps (is_idle_at now seconds) idle _ hash s.playback_sessions u h
step-IsContinued s (expire now seconds) hash u h =
    session_in-update hash _ _ s.playback_sessions u (status-Continues expired) h
step-IsContinued s (observe hashes at) hash u h = observe-IsContinued hashes at s hash u h
step-IsContinued s (stop_missing now seconds) hash u h =
    mark_each-Keeps (is_missing_at now seconds) stopped _ hash s.playback_sessions u h
step-IsContinued s (queue_until x n) hash u h =
    session_in-update hash _ (raise_queued n) s.playback_sessions u (raise_queued-Continues n) h

-- Through every history of calls a session that is on record stays on record with its first sight;
-- the furthest offset that was seen and the mark of what is queued never move back.
pub run-IsContinued :
    (s : Store) (cs : List Call) (hash : Text) (u : PlaybackSession)
    → get_session s hash ≡ some u
    → IsContinued hash u (run s cs)
unfolding run
run-IsContinued s [] hash u h = (u, h, Continues-refl u)
run-IsContinued s (c ∷ cs) hash u h =
    let (v, found, first) = step-IsContinued s c hash u h in
    let (w, found', last) = run-IsContinued (step s c) cs hash v found in
    (w, found', Continues-trans u v w first last)
