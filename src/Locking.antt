-- ===== src/Locking.antt =====
-- live/source-lock.mjs: the lock file that keeps two writers off one source file. A call of
-- withSourceLockSync is a number, which also stands for its random token; `pid_of` is the process
-- that makes the call.
pub mod Waiting
pub mod Exclusion
pub mod Sweepers
use agent_bus.Shared.{
  Bool, Option, false, if◌then◌else◌, leb, none, not, some, true, ℕ, ◌+◌, ◌-◌, ◌==◌, ◌≡◌,
}

-- The contents of a lock file, as far as they are read again.
pub record Held : Type 0 where
  pub token : ℕ
  pub pid : Option ℕ

-- A lock file: the call that created it, so that a write to a file that is unlinked in the meantime
-- goes nowhere, its time, and its contents, `none` where they are no JSON.
pub record LockFile : Type 0 where
  pub creator : ℕ
  pub mtime : ℕ
  pub contents : Option Held

-- Where a call stands: before or behind the test of clearStaleLock, with the unlink ahead of it,
-- between openSync and writeFileSync, in its critical section, or through.
pub data Phase : Type 0 where
  idle : Phase
  condemning : Phase
  ready : Phase
  opened : Phase
  inside : Phase
  through : Phase

pub record World : Type 0 where
  pub now : ℕ
  pub alive : ℕ → Bool
  pub file : Option LockFile
  pub phase : ℕ → Phase

-- UNREADABLE_LOCK_STALE_MS
abbrev pub unreadable_lock_stale_ms : ℕ
unreadable_lock_stale_ms = 60000

-- `typeof held.pid === 'number' && isLiveServerPidReachable(held.pid)`
abbrev pub is_reachable : (ℕ → Bool) → Option ℕ → Bool
is_reachable alive none = false
is_reachable alive (some pid) = alive pid

-- What clearStaleLock makes of the contents.
unfoldable pub contents_stale : World → LockFile → Option Held → Bool
contents_stale w f none = leb (unreadable_lock_stale_ms + 1) (w.now - f.mtime)
contents_stale w f (some held) = not (is_reachable w.alive held.pid)

-- The judgement of clearStaleLock: whether it unlinks the file.
unfoldable pub judges_stale : World → Option LockFile → Bool
unfolding contents_stale
judges_stale w none = false
judges_stale w (some f) = contents_stale w f f.contents

unfoldable pub put : ℕ → Phase → (ℕ → Phase) → ℕ → Phase
put p x phase q = if q == p then x else phase q

-- The unlink of clearStaleLock, which takes whatever file is there.
unfoldable pub unlink : ℕ → World → World
unfolding put
unlink p w = record w { file = none; phase = put p ready w.phase }

-- openSync with the flag wx
unfoldable pub create : ℕ → World → World
unfolding put
create p w = record w {
  file = some (record { creator = p; mtime = w.now; contents = none });
  phase = put p opened w.phase;
}

-- What writeFileSync makes of the file that is there.
unfoldable pub written : ℕ → ℕ → ℕ → Option LockFile → Option LockFile
written p pid now none = none
written p pid now (some f) =
    if f.creator == p
    then some (record {
      creator = f.creator;
      mtime = now;
      contents = some (record { token = p; pid = some pid });
    })
    else some f

-- releaseOwnLock: the file stays if it can be read and has another token.
abbrev pub is_foreign : ℕ → Option Held → Bool
is_foreign p none = false
is_foreign p (some held) = not (held.token == p)

unfoldable pub after_release : ℕ → Option LockFile → Option LockFile
after_release p none = none
after_release p (some f) = if is_foreign p f.contents then some f else none

-- The end of the critical section: the read and the unlink of releaseOwnLock are one step.
unfoldable pub leave : ℕ → World → World
unfolding after_release put
leave p w = record w { file = after_release p w.file; phase = put p through w.phase }

module _ (pid_of : ℕ → ℕ) where
  -- The write of the contents, and the start of the critical section.
  unfoldable pub fill : ℕ → World → World
  unfolding written put
  fill p w = record w { file = written p (pid_of p) w.now w.file; phase = put p inside w.phase }

  abbrev pub runs : World → ℕ → Bool
  runs w p = w.alive (pid_of p)

  -- A step that does not unlink a lock that is judged stale: time passes, a process dies, a call
  -- finds no stale lock, is refused with EEXIST and starts anew, creates, writes or releases. The
  -- write of the contents and the start of the section are one step, as nothing of the call is
  -- between them.
  pub data Step (w : World) : World → Type 0 where
    tick : (ms : ℕ) → Step w (record w { now = w.now + ms })
    crash : (pid : ℕ) → Step w (record w { alive = λ n. if n == pid then false else w.alive n })
    pass :
        (p : ℕ)
        → runs w p ≡ true
        → w.phase p ≡ idle
        → judges_stale w w.file ≡ false
        → Step w (record w { phase = put p ready w.phase })
    refused :
        (p : ℕ) (f : LockFile)
        → runs w p ≡ true
        → w.phase p ≡ ready
        → w.file ≡ some f
        → Step w (record w { phase = put p idle w.phase })
    opens : (p : ℕ) → runs w p ≡ true → w.phase p ≡ ready → w.file ≡ none → Step w (create p w)
    writes : (p : ℕ) → runs w p ≡ true → w.phase p ≡ opened → Step w (fill p w)
    ends : (p : ℕ) → runs w p ≡ true → w.phase p ≡ inside → Step w (leave p w)

  -- The two halves of clearStaleLock on a stale lock: readLock with the judgement, and unlinkSync.
  pub data Sweep (w : World) : World → Type 0 where
    judges :
        (p : ℕ)
        → runs w p ≡ true
        → w.phase p ≡ idle
        → judges_stale w w.file ≡ true
        → Sweep w (record w { phase = put p condemning w.phase })
    unlinks : (p : ℕ) → runs w p ≡ true → w.phase p ≡ condemning → Sweep w (unlink p w)

  -- Any interleaving of the steps of the calls.
  pub data Run (w : World) : World → Type 0 where
    start : Run w w
    step : {u v : World} → Run w u → Step u v → Run w v
    sweep : {u v : World} → Run w u → Sweep u v → Run w v
