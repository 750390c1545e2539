-- ===== src/Pools/Cooldown.antt =====
-- `enforceSelectWinnerCloseCooldown`: a map from pool and caller to the time of the last accepted
-- attempt, in the order of insertion. `now - lastAttempt` below zero is refused like zero is.
pub mod Holds
use diaspora_equb_product.Common.{
  ℕ, ◌+◌, ◌-◌, ◌*◌, Bool, true, false, not, ◌&&◌, Option, none, some, List, [], ◌∷◌, ◌++◌, Text,
  codes, ltb, ◌==◌, length, filter_by, if◌then◌else◌, text_eq, to_lower, ok, err, Action, Fault,
}

abbrev pub Guard : Type 0
Guard = List (Text × ℕ)

-- `selectWinnerCloseCooldownMs`
abbrev pub cooldown_ms : ℕ
cooldown_ms = 8000

abbrev pub lookup : Text → Guard → Option ℕ
lookup k [] = none
lookup k ((j, t) ∷ g) = if text_eq j k then some t else lookup k g

abbrev pub insert : Text → ℕ → Guard → Guard
insert k t [] = (k, t) ∷ []
insert k t ((j, u) ∷ g) = if text_eq j k then (k, t) ∷ g else (j, u) ∷ insert k t g

-- `${poolId}:${caller.toLowerCase()}`
unfoldable pub guard_key : Text → Text → Text
guard_key pool_id caller = pool_id ++ (b':' ∷ to_lower caller)

-- The test of `if (lastAttempt)` and the one within it; a time of 0 counts as none.
unfoldable pub is_cooling : ℕ → Option ℕ → Bool
is_cooling now none = false
is_cooling now (some last) = ltb 0 last && ltb (now - last) cooldown_ms

-- The pruning of a large map: entries older than two cooldowns go.
unfoldable pub prune : ℕ → Guard → Guard
prune now g =
    if ltb 1000 (length g) then filter_by (λ e. not (ltb e.1 (now - cooldown_ms * 2))) g else g

unfoldable pub enforce_cooldown : ℕ → Text → Action Guard (Unit {0})
enforce_cooldown now key guard =
    if is_cooling now (lookup key guard)
    then (err Fault.too_many_requests, guard)
    else (ok tt, prune now (insert key now guard))
