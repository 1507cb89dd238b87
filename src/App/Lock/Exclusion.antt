-- ===== src/App/Lock/Exclusion.antt =====
-- One block is built by one request at a time.
use emby_range_cache_proxy.Base.{
  ℕ, ◌+◌, ◌≤◌, ◌≡◌, refl, true, false, List, [], ◌∷◌, ◌++◌, arith, if◌then◌else◌,
}
use emby_range_cache_proxy.App.Lock.{
  BuildLock, new_cache_build_lock, try_acquire, release, Phase, trying, waiting, passing, retrying,
  building, past, Move, acquires, must_wait, takes, puts_back, times_out, finds, acquires_late,
  gives_up, finishes, Reachable, start, arrives, moves,
}

abbrev tokens : BuildLock → ℕ
tokens l = if l.has_token then 1 else 0

abbrev holds : Phase → ℕ
holds passing = 1
holds building = 1
holds trying = 0
holds waiting = 0
holds retrying = 0
holds past = 0

-- The requests that have taken the token.
abbrev pub holders : List Phase → ℕ
holders [] = 0
holders (p ∷ ps) = holds p + holders ps

abbrev builds : Phase → ℕ
builds building = 1
builds passing = 0
builds trying = 0
builds waiting = 0
builds retrying = 0
builds past = 0

-- The requests that build.
abbrev pub builders : List Phase → ℕ
builders [] = 0
builders (p ∷ ps) = builds p + builders ps

holders-append :
    (before after : List Phase) → holders (before ++ after) ≡ holders before + holders after
holders-append [] after = omega arith
holders-append (p ∷ before) after = ground (arith, holders-append before after)

builds-le : (p : Phase) → builds p ≤ holds p
builds-le building = omega arith
builds-le passing = omega arith
builds-le trying = omega arith
builds-le waiting = omega arith
builds-le retrying = omega arith
builds-le past = omega arith

builders-le : (ps : List Phase) → builders ps ≤ holders ps
builders-le [] = omega arith
builders-le (p ∷ ps) = ground (arith, builds-le p, builders-le ps)

-- A move keeps the number of tokens, those in hands included, if there is one at most.
Move-tokens :
    {l l' : BuildLock} {p p' : Phase}
    → Move l p l' p'
    → tokens l + holds p ≤ 1
    → tokens l' + holds p' ≡ tokens l + holds p
unfolding try_acquire release
Move-tokens (acquires l h) k = ground (arith, h, k)
Move-tokens (must_wait l h) k = ground (arith, h, k)
Move-tokens (takes l h) k = ground (arith, h, k)
Move-tokens (puts_back l) k = ground (arith, k)
Move-tokens (times_out l) k = ground (arith, k)
Move-tokens (finds l) k = ground (arith, k)
Move-tokens (acquires_late l h) k = ground (arith, h, k)
Move-tokens (gives_up l h) k = ground (arith, h, k)
Move-tokens (finishes l) k = ground (arith, k)

Reachable-tokens : {l : BuildLock} {ps : List Phase} → Reachable l ps → tokens l + holders ps ≡ 1
unfolding new_cache_build_lock
Reachable-tokens start = refl
Reachable-tokens (arrives l qs r) = ground (arith, Reachable-tokens r)
Reachable-tokens (moves l0 l1 p p' before after m r) =
    let one = Reachable-tokens r in
    let was = holders-append before (p ∷ after) in
    let is = holders-append before (p' ∷ after) in
    let few : tokens l0 + holds p ≤ 1 = ground (arith, one, was) in
    ground (arith, one, was, is, Move-tokens m few)

-- However many requests ask for a block, and however their steps interleave: one of them builds it at
-- most, and while one does, the lock has no token; and while none has taken the token, it is there.
pub Reachable-exclusion :
    (l : BuildLock) (ps : List Phase)
    → Reachable l ps
    → (builders ps ≤ 1)
      × (builders ps ≡ 1 → l.has_token ≡ false)
      × (holders ps ≡ 0 → l.has_token ≡ true)
Reachable-exclusion l ps r =
    let one = Reachable-tokens r in
    let less = builders-le ps in
    (ground (arith, one, less), λ e. ground (arith, one, less, e), λ e. ground (arith, one, e))
