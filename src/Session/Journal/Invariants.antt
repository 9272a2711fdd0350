-- ===== src/Session/Journal/Invariants.antt =====
-- What holds of the snapshot that a journal replays to, whatever lines it has
-- (live/session-store.mjs).
use agent_bus.Session.{Clock, Entry, Snapshot}
use agent_bus.Session.Apply.Render.{IsRendered, IsRendered-apply_event, IsRendered-base}
use agent_bus.Session.Journal.{
  entry, blank, Line, Rebuilt, corrupt, rebuild, rebuilt_base, replay_lines, step_line,
}
use agent_bus.Shared.{
  List, Option, String, [], arith, is_some, length, none, some, true, ℕ, ◌++◌, ◌+◌, ◌<◌, ◌∷◌, ◌≡◌,
  ◌≤◌,
}
use agent_bus.Session.Apply.{apply_event}
use agent_bus.Session.Apply.Monotone.{
  canceled-apply_event, completed-apply_event, revisions-apply_event,
}
use agent_bus.Session.Journal.Replay.{replay_lines-append, replay_lines-keeps}

-- Every sequence number in the lines is below n.
abbrev pub SeqsBelow : ℕ → List Line → Type 0
SeqsBelow n [] = Unit
SeqsBelow n (entry en ∷ ls) = ((q : ℕ) → en.seq ≡ some q → q < n) × SeqsBelow n ls
SeqsBelow n (_ ∷ ls) = SeqsBelow n ls

-- What a later snapshot of a session keeps of an earlier one.
pub record Grows (s t : Snapshot) : Type 0 where
  pub canceled : s.generation_canceled ≡ true → t.generation_canceled ≡ true
  pub completed :
      is_some s.generation_completed_at ≡ true → is_some t.generation_completed_at ≡ true
  pub browser : s.browser_checkpoint_revision ≤ t.browser_checkpoint_revision
  pub publication : s.publication_checkpoint_revision ≤ t.publication_checkpoint_revision

Grows-refl : (s : Snapshot) → Grows s s
Grows-refl s = record {
  canceled = λ h. h;
  completed = λ h. h;
  browser = omega arith;
  publication = omega arith;
}

Grows-trans : {s t u : Snapshot} → Grows s t → Grows t u → Grows s u
Grows-trans h k = record {
  canceled = λ x. k.canceled (h.canceled x);
  completed = λ x. k.completed (h.completed x);
  browser = omega arith;
  publication = omega arith;
}

module _ (c : Clock) where
  Grows-apply_event : (s : Snapshot) (en : Entry) → Grows s (apply_event c s en)
  Grows-apply_event s en = record {
    canceled = canceled-apply_event c s en;
    completed = completed-apply_event c s en;
    browser = (revisions-apply_event c s en).0;
    publication = (revisions-apply_event c s en).1;
  }

  Grows-replay_lines :
      (i : ℕ) (r : Rebuilt) (ls : List Line) → Grows r.snapshot (replay_lines c i r ls).snapshot
  Grows-replay_lines i r ls =
      replay_lines-keeps c (λ (s : Snapshot). Grows r.snapshot s)
        (λ s en h. Grows-trans h (Grows-apply_event s en)) i r ls (Grows-refl r.snapshot)

  -- As lines are appended to a journal, a cancellation and a completion mark stay, and neither
  -- checkpoint revision goes back: whatever the lines are, corrupt ones included.
  pub rebuild-Grows :
      (id : String) (xs ys : List Line)
      → Grows (rebuild c id (some xs)).snapshot (rebuild c id (some (xs ++ ys))).snapshot
  unfolding rebuild
  rebuild-Grows id xs ys =
      let r = replay_lines c 0 (rebuilt_base id) xs in
      let h : Grows r.snapshot (replay_lines c 0 (rebuilt_base id) (xs ++ ys)).snapshot =
        rw (replay_lines-append c 0 (rebuilt_base id) xs ys)
          (Grows-replay_lines (0 + length xs) r ys) in
      record {
        canceled = h.canceled;
        completed = h.completed;
        browser = h.browser;
        publication = h.publication;
      }

  -- The render truth of every snapshot that a journal replays to: the mounted variants are distinct
  -- positive numbers in increasing order, at most five mount failures are kept, the render state is
  -- `mounted` exactly if a variant is mounted, and `failed` only if a failure is kept.
  pub rebuild-IsRendered :
      (id : String) (ls : Option (List Line)) → IsRendered (rebuild c id ls).snapshot
  unfolding rebuild
  rebuild-IsRendered id none = IsRendered-base id
  rebuild-IsRendered id (some ls) =
      let h =
        replay_lines-keeps c IsRendered (IsRendered-apply_event c) 0 (rebuilt_base id) ls
          (IsRendered-base id) in
      record {
        capped = h.capped;
        increasing = h.increasing;
        positive = h.positive;
        mounted_iff = h.mounted_iff;
        failed_of = h.failed_of;
      }

  next_seq-grows :
      (i : ℕ) (r : Rebuilt) (ls : List Line) → r.next_seq ≤ (replay_lines c i r ls).next_seq
  unfolding replay_lines
  next_seq-grows i r [] = omega arith
  next_seq-grows i r (entry en ∷ ls) =
      ground (arith, next_seq-grows (i + 1) (step_line c i r (entry en)) ls)
  next_seq-grows i r (blank ∷ ls) = next_seq-grows (i + 1) r ls
  next_seq-grows i r (corrupt m ∷ ls) = next_seq-grows (i + 1) (step_line c i r (corrupt m)) ls

  replay_lines-SeqsBelow :
      (i : ℕ) (r : Rebuilt) (ls : List Line) → SeqsBelow (replay_lines c i r ls).next_seq ls
  unfolding replay_lines
  replay_lines-SeqsBelow i r [] = tt
  replay_lines-SeqsBelow i r (entry en ∷ ls) = (
    (λ q e. ground (arith, next_seq-grows (i + 1) (step_line c i r (entry en)) ls)),
    replay_lines-SeqsBelow (i + 1) (step_line c i r (entry en)) ls,
  )
  replay_lines-SeqsBelow i r (blank ∷ ls) = replay_lines-SeqsBelow (i + 1) r ls
  replay_lines-SeqsBelow i r (corrupt m ∷ ls) =
      replay_lines-SeqsBelow (i + 1) (step_line c i r (corrupt m)) ls

  -- The next sequence number that a replay gives is above every one that the journal holds, corrupt
  -- lines or not.
  pub rebuild-SeqsBelow :
      (id : String) (ls : List Line) → SeqsBelow (rebuild c id (some ls)).next_seq ls
  unfolding rebuild
  rebuild-SeqsBelow id ls = replay_lines-SeqsBelow 0 (rebuilt_base id) ls
