-- ===== src/Locking/Waiting.antt =====
-- How long withSourceLockSync waits for a lock (live/source-lock.mjs).
use agent_bus.Locking.{LockFile}
use agent_bus.Shared.{
  Option, arith, if◌then◌else◌, is_some, leb, max, min, none, some, suc, true, zero, ℕ, ◌+◌, ◌-◌,
  ◌<◌, ◌==◌, ◌≡◌, ◌≤◌, Bool-cases, inl, inr, leb→le, refl, ap,
}

-- How a wait ends, and when; `waiting` if it goes on.
pub data Ended : Type 0 where
  acquired : ℕ → Ended
  source_locked : ℕ → Ended
  waiting : Ended

-- What a sleep lasts: `Math.max(1, Math.min(Number(retryMs) || 5, deadline - Date.now()))`
abbrev pub sleep_ms : ℕ → ℕ → ℕ → ℕ
sleep_ms retry deadline now = max 1 (min (if retry == 0 then 5 else retry) (deadline - now))

-- An attempt on what is behind clearStaleLock.
abbrev pub attempt : ℕ → ℕ → Option LockFile → Ended → Ended
attempt deadline now none again = acquired now
attempt deadline now (some f) again = if leb deadline now then source_locked now else again

-- The lock file that the attempt at a time finds behind clearStaleLock, and what a sleep lasts over
-- its time.
module _ (seen : ℕ → Option LockFile) (late : ℕ → ℕ) (retry deadline : ℕ) where
  -- The loop, for so many attempts.
  unfoldable pub wait_for_lock : ℕ → ℕ → Ended
  wait_for_lock zero now = waiting
  wait_for_lock (suc n) now =
      let again = wait_for_lock n (now + sleep_ms retry deadline now + late now) in
      attempt deadline now (seen now) again

-- A lock is acquired at a time at which there is none, and refused at one that is not before the
-- deadline and at which there is one.
abbrev pub IsSettled : (ℕ → Option LockFile) → ℕ → Ended → Type 0
IsSettled seen deadline (acquired t) = seen t ≡ none
IsSettled seen deadline (source_locked t) = (deadline ≤ t) × (is_some (seen t) ≡ true)
IsSettled seen deadline waiting = ⊥

attempt-IsSettled :
    (seen : ℕ → Option LockFile) (deadline now : ℕ) (o : Option LockFile)
    → seen now ≡ o
    → (again : Ended) → (now < deadline → IsSettled seen deadline again)
    → IsSettled seen deadline (attempt deadline now o again)
attempt-IsSettled seen deadline now none e again h = e
attempt-IsSettled seen deadline now (some f) e again h = elim (Bool-cases (leb deadline now)) [
  | inl t ↦ rw t (leb→le deadline now t, ap is_some e)
  | inr t ↦ rw t (h (ground arith))
]

sleep_ms-positive : (retry deadline now : ℕ) → 1 ≤ sleep_ms retry deadline now
sleep_ms-positive retry deadline now = omega arith

sooner :
    (now deadline sleep extra n : ℕ)
    → deadline - now < suc n
    → now < deadline
    → 1 ≤ sleep
    → deadline - (now + sleep + extra) < n
sooner now deadline sleep extra n h k l = omega arith

-- The loop of withSourceLockSync ends, whatever the other writers do: after as many attempts as it
-- has milliseconds to wait, and one more, it has the lock, which was free then, or has given up,
-- at the deadline or later, on a lock that was held then.
pub wait_for_lock-IsSettled :
    (seen : ℕ → Option LockFile) (late : ℕ → ℕ) (retry deadline attempts now : ℕ)
    → deadline - now < attempts
    → IsSettled seen deadline (wait_for_lock seen late retry deadline attempts now)
unfolding wait_for_lock
wait_for_lock-IsSettled seen late retry deadline zero now h = absurd (omega arith)
wait_for_lock-IsSettled seen late retry deadline (suc n) now h =
    attempt-IsSettled seen deadline now (seen now) refl
      (wait_for_lock seen late retry deadline n (now + sleep_ms retry deadline now + late now))
      (λ k.
        wait_for_lock-IsSettled seen late retry deadline n
          (now + sleep_ms retry deadline now + late now)
          (sooner now deadline (sleep_ms retry deadline now) (late now) n h k
            (sleep_ms-positive retry deadline now)))
