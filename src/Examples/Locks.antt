-- ===== src/Examples/Locks.antt =====
-- Two writers and a lock file (live/source-lock.mjs).
use agent_bus.Locking.Waiting.{IsSettled, wait_for_lock, wait_for_lock-IsSettled}
use agent_bus.Locking.{
  LockFile, Run, World, contents_stale, create, fill, idle, inside, judges_stale, opens, put, runs,
  unlink, writes,
}
use agent_bus.Locking.Exclusion.{Orderly, source_lock-exclusive, begins, goes}
use agent_bus.Shared.{
  arith, if◌then◌else◌, leb, none, not, refl, some, true, ℕ, ◌+◌, ◌==◌, ◌≡◌, ap, is_some, sym, ◌≢◌,
}
use agent_bus.Locking.Exclusion.{clears}
use agent_bus.Locking.Sweepers.{sweepers_share}
use mathlib.Core.Bool.{false≢true}

abbrev pid_of : ℕ → ℕ
pid_of n = n + 100

abbrev stale_lock : LockFile
stale_lock = record {
  creator = 7;
  mtime = 0;
  contents = some (record { token = 7; pid = some 107 });
}

-- The process 107 has died with its lock in place.
abbrev crashed : World
crashed = record { now = 5; alive = λ n. not (n == 107); file = some stale_lock; phase = λ p. idle }

wait_for_lock-IsSettled_example :
    IsSettled
      (λ t. if leb 20 t then none else some stale_lock)
      30
      (wait_for_lock (λ t. if leb 20 t then none else some stale_lock) (λ t. 1) 5 30 31 0)
wait_for_lock-IsSettled_example =
    wait_for_lock-IsSettled (λ t. if leb 20 t then none else some stale_lock) (λ t. 1) 5 30 31 0
      (omega arith)

-- The first call clears the lock and is in its critical section.
abbrev first_in : World
first_in = fill pid_of 1 (create 1 (unlink 1 crashed))

first-Orderly : Orderly pid_of crashed first_in
unfolding unlink create fill put contents_stale
first-Orderly =
    goes
      (goes (clears begins 1 stale_lock refl refl refl (λ e. absurd (some_not_none e)))
        (opens 1 refl refl refl))
      (writes 1 refl refl)
  where
    some_not_none : stale_lock.contents ≡ none → ⊥
    some_not_none e = false≢true (sym (ap is_some e))

source_lock-exclusive_example : first_in.phase 2 ≢ inside
unfolding unlink create fill put
source_lock-exclusive_example =
    source_lock-exclusive pid_of crashed first_in (λ p. refl) (refl, refl) first-Orderly 1 2 refl
      refl refl refl

sweepers_share_example :
    (v : World) × Run pid_of crashed v
    × (v.phase 1 ≡ inside)
    × (v.phase 2 ≡ inside)
    × (runs pid_of v 1 ≡ true)
    × (runs pid_of v 2 ≡ true)
sweepers_share_example =
    sweepers_share pid_of crashed 1 2 refl refl refl refl refl
      (unfold judges_stale contents_stale in refl)
