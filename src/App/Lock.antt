-- ===== src/App/Lock.antt =====
-- cacheBuildLock of go/internal/app/server.go, and the order in which serveAuthorizedRange calls it for
-- one block.
pub mod Exclusion
mod Examples
use emby_range_cache_proxy.Base.{Bool, true, false, ◌≡◌, List, [], ◌∷◌, ◌++◌}

-- `has_token` says whether the channel holds its one token.
pub record BuildLock : Type 0 where
  pub has_token : Bool

unfoldable pub new_cache_build_lock : BuildLock
new_cache_build_lock = record { has_token = true }

-- Whether a token was taken.
unfoldable pub try_acquire : BuildLock → BuildLock × Bool
try_acquire l = (record { has_token = false }, l.has_token)

-- A second token is dropped.
unfoldable pub release : BuildLock → BuildLock
release l = record { has_token = true }

-- Where a request stands: before the first tryAcquire; in wait, without the token; in wait, with the
-- token it is about to put back; before the second tryAcquire; with the lock; and past it.
pub data Phase : Type 0 where
  trying waiting passing retrying building past : Phase

-- What one request does next, and what it makes of the lock. A request that retries may find the block
-- in the cache; one that builds releases the lock on every return.
pub data Move : BuildLock → Phase → BuildLock → Phase → Type 0 where
  acquires : (l : BuildLock) → (try_acquire l).1 ≡ true → Move l trying (try_acquire l).0 building
  must_wait : (l : BuildLock) → (try_acquire l).1 ≡ false → Move l trying (try_acquire l).0 waiting
  takes : (l : BuildLock) → (try_acquire l).1 ≡ true → Move l waiting (try_acquire l).0 passing
  puts_back : (l : BuildLock) → Move l passing (release l) retrying
  times_out : (l : BuildLock) → Move l waiting l retrying
  finds : (l : BuildLock) → Move l retrying l past
  acquires_late :
      (l : BuildLock) → (try_acquire l).1 ≡ true → Move l retrying (try_acquire l).0 building
  gives_up : (l : BuildLock) → (try_acquire l).1 ≡ false → Move l retrying (try_acquire l).0 past
  finishes : (l : BuildLock) → Move l building (release l) past

-- The states that any number of requests reach: one arrives, or one of them moves.
pub data Reachable : BuildLock → List Phase → Type 0 where
  start : Reachable new_cache_build_lock []
  arrives : (l : BuildLock) (ps : List Phase) → Reachable l ps → Reachable l (trying ∷ ps)
  moves :
      (l l' : BuildLock) (p p' : Phase) (before after : List Phase)
      → Move l p l' p'
      → Reachable l (before ++ p ∷ after)
      → Reachable l' (before ++ p' ∷ after)
