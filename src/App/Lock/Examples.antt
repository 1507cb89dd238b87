-- ===== src/App/Lock/Examples.antt =====
-- Two requests for a block, of which one builds it and one waits, and the theorem there.
use emby_range_cache_proxy.Base.{◌≡◌, ◌≤◌, refl, true, false, [], ◌∷◌}
use emby_range_cache_proxy.App.Lock.{
  BuildLock, new_cache_build_lock, try_acquire, release, trying, waiting, building, acquires,
  must_wait, Reachable, start, arrives, moves,
}
use emby_range_cache_proxy.App.Lock.Exclusion.{builders, holders, Reachable-exclusion}

program : Unit {0}
unfolding new_cache_build_lock try_acquire release
program = tt

abbrev fresh : BuildLock
fresh = record { has_token = true }

abbrev taken : BuildLock
taken = record { has_token = false }

one_builds : Reachable taken (building ∷ [])
unfolding program
one_builds = moves fresh taken trying building [] [] (acquires fresh refl) (arrives fresh [] start)

one_waits : Reachable taken (waiting ∷ building ∷ [])
unfolding program
one_waits =
    moves taken taken trying waiting [] (building ∷ []) (must_wait taken refl)
      (arrives taken (building ∷ []) one_builds)

Reachable-exclusion_example :
    (builders (waiting ∷ building ∷ []) ≤ 1)
    × (builders (waiting ∷ building ∷ []) ≡ 1 → taken.has_token ≡ false)
    × (holders (waiting ∷ building ∷ []) ≡ 0 → taken.has_token ≡ true)
Reachable-exclusion_example = Reachable-exclusion taken (waiting ∷ building ∷ []) one_waits
