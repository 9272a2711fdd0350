-- ===== src/Locking/Exclusion.antt =====
-- Two calls that run are never in the critical section at once, as long as a stale lock is judged
-- and unlinked in one go (live/source-lock.mjs).
use agent_bus.Shared.{
  Bool, Bool-cases, Option, ap, false, inl, inr, none, some, sym, true, ℕ, ◌==◌, ◌∙◌, ◌≡◌, arith,
  refl, ==_iff, if◌then◌else◌, not, value_or, is_some, not-false, ◌≢◌,
}
use agent_bus.Locking.{
  Held, LockFile, Phase, Step, contents_stale, create, idle, inside, opened, put, runs, unlink,
  fill, crash, ends, is_foreign, opens, pass, ready, refused, through, tick, writes, written,
  after_release, is_reachable, leave,
}
use mathlib.Core.Bool.{false≢true}
use agent_bus.Locking.{
  World, fill, crash, ends, is_foreign, opens, pass, ready, refused, through, tick, writes, written,
  after_release, is_reachable, leave,
}
use mathlib.Core.Path.{subst}

-- Whether the lock is the call's, from openSync to releaseOwnLock.
abbrev pub is_holding : Phase → Bool
is_holding opened = true
is_holding inside = true
is_holding other_phase = false

abbrev pub owner : Option LockFile → Option ℕ
owner none = none
owner (some f) = some f.creator

same_number : (a b : ℕ) → (a == b) ≡ true → a ≡ b
same_number a b h = ground arith

pub put_same : (p : ℕ) (x : Phase) (f : ℕ → Phase) → put p x f p ≡ x
unfolding put
put_same p x f = rw (itself p) refl
  where
    itself : (n : ℕ) → (n == n) ≡ true
    itself n = ground arith

pub put_other : (p q : ℕ) (x : Phase) (f : ℕ → Phase) → (q == p) ≡ false → put p x f q ≡ f q
unfolding put
put_other p q x f e = rw e refl

owner-written : (p pid now : ℕ) (o : Option LockFile) → owner (written p pid now o) ≡ owner o
unfolding written
owner-written p pid now none = refl
owner-written p pid now (some f) = elim (Bool-cases (f.creator == p)) [
  | inl e ↦ rw e refl
  | inr e ↦ rw e refl
]

still_alive : (a b : Bool) → (if b then false else a) ≡ true → a ≡ true
still_alive a true h = absurd (false≢true h)
still_alive a false h = h

none_is_not_some : {a : ℕ} → none ≡ some a → ⊥
none_is_not_some h = false≢true (ap is_some h)

some_injective : {a b : ℕ} → some a ≡ some b → a ≡ b
some_injective {a = a} {b = b} h = ap (λ o. value_or o 0) h

module _ (pid_of : ℕ → ℕ) where
  -- The runs in which nothing comes between the judgement of a stale lock and its unlink, and in
  -- which a call that runs writes its lock within the minute that an unreadable lock is given.
  pub data Orderly (w : World) : World → Type 0 where
    begins : Orderly w w
    goes : {u v : World} → Orderly w u → Step pid_of u v → Orderly w v
    clears :
        {u : World}
        → Orderly w u
        → (p : ℕ) (f : LockFile) → u.phase p ≡ idle
        → u.file ≡ some f
        → contents_stale u f f.contents ≡ true
        → (f.contents ≡ none → runs pid_of u f.creator ≡ false)
        → Orderly w (unlink p u)

  -- What is read in a lock file is what its creator wrote.
  abbrev pub IsHonestContents : ℕ → Option Held → Type 0
  IsHonestContents p none = Unit
  IsHonestContents p (some h) = (h.token ≡ p) × (h.pid ≡ some (pid_of p))

  abbrev pub IsHonest : Option LockFile → Type 0
  IsHonest none = Unit
  IsHonest (some f) = IsHonestContents f.creator f.contents

  abbrev pub Owns : World → ℕ → Type 0
  Owns w p = is_holding (w.phase p) ≡ true → runs pid_of w p ≡ true → owner w.file ≡ some p

  pub record IsLocked (w : World) : Type 0 where
    pub owns : (p : ℕ) → Owns w p
    pub honest : IsHonest w.file

  IsHonest-written :
      (p now : ℕ) (o : Option LockFile) → IsHonest o → IsHonest (written p (pid_of p) now o)
  unfolding written
  IsHonest-written p now none h = tt
  IsHonest-written p now (some f) h = elim (Bool-cases (f.creator == p)) [
    | inl e ↦
        let same = same_number f.creator p e in
        rw e (sym same, ap (λ x. some (pid_of x)) (sym same))
    | inr e ↦ rw e h
  ]

  after_release-own :
      (p : ℕ) (o : Option LockFile) → owner o ≡ some p → IsHonest o → after_release p o ≡ none
  unfolding after_release
  after_release-own p none e h = refl
  after_release-own p (some f) e h = rw (own_contents f.contents h) refl
    where
      own_contents : (c : Option Held) → IsHonestContents f.creator c → is_foreign p c ≡ false
      own_contents none k = refl
      own_contents (some held) k =
          let same : f.creator ≡ p = cc in rw ((==_iff held.token p).1 (k.0 ∙ same)) refl

  -- A step of the call p changes its own standing, and that of no other call.
  IsLocked-of_step :
      (w : World) (p : ℕ)
      → Owns w p
      → ((q : ℕ) → (q == p) ≡ false → Owns w q)
      → IsHonest w.file
      → IsLocked w
  IsLocked-of_step w p own others honest = record {
    owns = λ q. elim (Bool-cases (q == p)) [
      | inl e ↦ subst (λ x. Owns w x) (sym (same_number q p e)) own
      | inr e ↦ others q e
    ];
    honest = honest;
  }

  -- A call that no longer holds the lock, whatever it is of the file.
  not_holding :
      (w : World) (p : ℕ) (x : Phase) (f : ℕ → Phase)
      → w.phase ≡ put p x f
      → is_holding x ≡ false
      → Owns w p
  not_holding w p x f e n k r =
      absurd (false≢true (sym n ∙ sym (ap is_holding (ap (λ g. g p) e ∙ put_same p x f)) ∙ k))

  put-IsLocked :
      (w : World) (p : ℕ) (x : Phase)
      → is_holding x ≡ false
      → IsLocked w
      → IsLocked (record w { phase = put p x w.phase })
  put-IsLocked w p x n h =
      IsLocked-of_step (record w { phase = put p x w.phase }) p
        (not_holding (record w { phase = put p x w.phase }) p x w.phase refl n)
        (λ q e k r. h.owns q (ap is_holding (sym (put_other p q x w.phase e)) ∙ k) r) h.honest

  create-IsLocked : (w : World) (p : ℕ) → w.file ≡ none → IsLocked w → IsLocked (create p w)
  unfolding create
  create-IsLocked w p e h =
      IsLocked-of_step (create p w) p (λ k r. refl)
        (λ q n k r. absurd (
          none_is_not_some (
            sym (ap owner e)
            ∙ h.owns q (ap is_holding (sym (put_other p q opened w.phase n)) ∙ k) r)))
        tt

  fill-IsLocked :
      (w : World) (p : ℕ)
      → runs pid_of w p ≡ true
      → w.phase p ≡ opened
      → IsLocked w
      → IsLocked (fill pid_of p w)
  unfolding fill
  fill-IsLocked w p r e h =
      IsLocked-of_step (fill pid_of p w) p
        (λ k r'. owner-written p (pid_of p) w.now w.file ∙ h.owns p (ap is_holding e) r)
        (λ q n k r'.
          owner-written p (pid_of p) w.now w.file
          ∙ h.owns q (ap is_holding (sym (put_other p q inside w.phase n)) ∙ k) r')
        (IsHonest-written p w.now w.file h.honest)

  -- Where the lock is taken away, nobody who runs may have it.
  unlink-IsLocked :
      (w : World) (p : ℕ)
      → ((q : ℕ) → owner w.file ≡ some q → runs pid_of w q ≡ true → (q == p) ≡ true)
      → (x : Phase) → is_holding x ≡ false
      → IsLocked w
      → IsLocked (record w { file = none; phase = put p x w.phase })
  unlink-IsLocked w p only x n h =
      let after = record w { file = none; phase = put p x w.phase } in
      IsLocked-of_step after p (not_holding after p x w.phase refl n)
        (λ q e k r. absurd (
          false≢true
            (sym e ∙ only q (h.owns q (ap is_holding (sym (put_other p q x w.phase e)) ∙ k) r) r)))
        tt

  leave-IsLocked :
      (w : World) (p : ℕ)
      → runs pid_of w p ≡ true
      → w.phase p ≡ inside
      → IsLocked w
      → IsLocked (leave p w)
  unfolding leave
  leave-IsLocked w p r e h =
      let own = h.owns p (ap is_holding e) r in
      subst (λ o. IsLocked (record w { file = o; phase = put p through w.phase }))
        (sym (after_release-own p w.file own h.honest))
        (unlink-IsLocked w p (λ q k l. (==_iff q p).1 (sym (some_injective (sym own ∙ k)))) through
          refl h)

  dead_creator :
      (w : World) (f : LockFile) (c : Option Held)
      → IsHonestContents f.creator c
      → contents_stale w f c ≡ true
      → (c ≡ none → runs pid_of w f.creator ≡ false)
      → runs pid_of w f.creator ≡ false
  unfolding contents_stale
  dead_creator w f none h stale late = late refl
  dead_creator w f (some held) h stale late =
      not-false (runs pid_of w f.creator) (ap (λ o. not (is_reachable w.alive o)) (sym h.1) ∙ stale)

  clears-IsLocked :
      (w : World) (p : ℕ) (f : LockFile)
      → w.file ≡ some f
      → contents_stale w f f.contents ≡ true
      → (f.contents ≡ none → runs pid_of w f.creator ≡ false)
      → IsLocked w
      → IsLocked (unlink p w)
  unfolding unlink contents_stale
  clears-IsLocked w p f e stale late h =
      unlink-IsLocked w p
        (λ q k l.
          let same : f.creator ≡ q = some_injective (sym (ap owner e) ∙ k) in
          let known : IsHonest (some f) = subst IsHonest e h.honest in
          absurd (
            false≢true
              (sym (dead_creator w f f.contents known stale late) ∙ ap (runs pid_of w) same ∙ l)))
        ready refl h

  Step-IsLocked : {w v : World} → Step pid_of w v → IsLocked w → IsLocked v
  Step-IsLocked (tick ms) h = record { owns = h.owns; honest = h.honest }
  Step-IsLocked {w = w} (crash pid) h = record {
    owns = λ p k r. h.owns p k (still_alive (w.alive (pid_of p)) (pid_of p == pid) r);
    honest = h.honest;
  }
  Step-IsLocked {w = w} (pass p r e s) h = put-IsLocked w p ready refl h
  Step-IsLocked {w = w} (refused p f r e s) h = put-IsLocked w p idle refl h
  Step-IsLocked {w = w} (opens p r e s) h = create-IsLocked w p s h
  Step-IsLocked {w = w} (writes p r e) h = fill-IsLocked w p r e h
  Step-IsLocked {w = w} (ends p r e) h = leave-IsLocked w p r e h

  run-IsLocked : {w v : World} → Orderly w v → IsLocked w → IsLocked v
  run-IsLocked begins h = h
  run-IsLocked (goes o s) h = Step-IsLocked s (run-IsLocked o h)
  run-IsLocked (clears {u = u} o p f e s stale late) h =
      clears-IsLocked u p f s stale late (run-IsLocked o h)

  -- From a state in which no call has begun and any lock file holds what its creator wrote: after
  -- every run in which a stale lock is judged and unlinked in one go, and in which an unreadable lock
  -- is unlinked only when its creator no longer runs, where one call is in its critical section no
  -- other is, as far as their processes run.
  pub source_lock-exclusive :
      (w v : World)
      → ((p : ℕ) → w.phase p ≡ idle)
      → IsHonest w.file
      → Orderly w v
      → (p q : ℕ) → (p == q) ≡ false
      → v.phase p ≡ inside
      → runs pid_of v p ≡ true
      → runs pid_of v q ≡ true
      → v.phase q ≢ inside
  source_lock-exclusive w v idle_at honest o p q n i r s j =
      let locked = run-IsLocked o (record {
        owns = λ x k l. absurd (false≢true (ap is_holding (sym (idle_at x)) ∙ k));
        honest = honest;
      }) in
      let same : p ≡ q =
        some_injective
          (sym (locked.owns p (ap is_holding i) r) ∙ locked.owns q (ap is_holding j) s) in
      false≢true (sym n ∙ (==_iff p q).1 same)
