-- ===== src/Locking/Sweepers.antt =====
-- Two calls that both judge a lock stale before one of them unlinks it (live/source-lock.mjs,
-- clearStaleLock): readLock and unlinkSync are two system calls, and the unlink takes whatever lock
-- is there.
use agent_bus.Locking.{
  step, start, World, create, fill, unlink, put, Held, LockFile, Phase, Run, condemning,
  contents_stale, idle, inside, judges, judges_stale, opened, opens, ready, runs, sweep, unlinks,
  writes,
}
use agent_bus.Shared.{Option, arith, false, none, refl, some, true, ℕ, ◌==◌, ◌∙◌, ◌≡◌}
use agent_bus.Locking.Exclusion.{put_other, put_same}

-- The judgement reads the time, the processes and the file.
judges_stale-phase :
    (w : World) (phase : ℕ → Phase) (o : Option LockFile)
    → judges_stale (record w { phase = phase }) o ≡ judges_stale w o
unfolding judges_stale contents_stale
judges_stale-phase w phase none = refl
judges_stale-phase w phase (some f) = by_contents f.contents
  where
    by_contents :
        (c : Option Held) → contents_stale (record w { phase = phase }) f c ≡ contents_stale w f c
    by_contents none = refl
    by_contents (some held) = refl

module _ (pid_of : ℕ → ℕ) (w : World) (p q : ℕ) where
  abbrev both_judge : World
  both_judge = record w { phase = put q condemning (put p condemning w.phase) }

  -- The first call unlinks the stale lock and takes its own.
  abbrev first_inside : World
  first_inside = fill pid_of p (create p (unlink p both_judge))

  -- The second call unlinks that one, and takes its own.
  abbrev both_inside : World
  both_inside = fill pid_of q (create q (unlink q first_inside))

  -- Where a lock is stale and two calls are about to clear it, both can end up in their critical
  -- section at once, both in processes that run: the second call judges the stale lock, and then
  -- unlinks the lock that the first call has put in its place.
  pub sweepers_share :
      (p == q) ≡ false
      → runs pid_of w p ≡ true
      → runs pid_of w q ≡ true
      → w.phase p ≡ idle
      → w.phase q ≡ idle
      → judges_stale w w.file ≡ true
      → (v : World) × Run pid_of w v
        × (v.phase p ≡ inside)
        × (v.phase q ≡ inside)
        × (runs pid_of v p ≡ true)
        × (runs pid_of v q ≡ true)
  unfolding unlink create fill
  sweepers_share e rp rq ip iq stale =
      let e' : (q == p) ≡ false = ground arith in
      let one = put p condemning w.phase in
      let two = put q condemning one in
      let three = put p ready two in
      let four = put p opened three in
      let five = put p inside four in
      let six = put q ready five in
      let seven = put q opened six in
      let eight = put q inside seven in
      let q_waits : five q ≡ condemning =
        put_other p q inside four e'
        ∙ put_other p q opened three e'
        ∙ put_other p q ready two e'
        ∙ put_same q condemning one in
      let p_stays : eight p ≡ inside =
        put_other q p inside seven e
        ∙ put_other q p opened six e
        ∙ put_other q p ready five e
        ∙ put_same p inside four in
      let judged : Run pid_of w both_judge = sweep (sweep start (judges p rp ip stale)) (
        judges q rq (put_other p q condemning w.phase e' ∙ iq)
          (judges_stale-phase w one w.file ∙ stale)) in
      let first : Run pid_of w first_inside =
        step
          (step
            (sweep judged
              (unlinks p rp (put_other q p condemning one e ∙ put_same p condemning w.phase)))
            (opens p rp (put_same p ready two) refl))
          (writes p rp (put_same p opened three)) in
      let both : Run pid_of w both_inside =
        step (step (sweep first (unlinks q rq q_waits)) (opens q rq (put_same q ready five) refl))
          (writes q rq (put_same q opened six)) in
      (both_inside, both, p_stays, put_same q inside seven, rp, rq)
