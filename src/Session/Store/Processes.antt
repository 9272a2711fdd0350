-- ===== src/Session/Store/Processes.antt =====
-- Several processes on one store: each has its own map `derived`, and they share the files. Every
-- call is one step; Race says what happens when an append is not.
use mathlib.Core.Path.{subst}
use agent_bus.Shared.{
  Option, String, ap, none, some, sym, ℕ, ◌≤◌, Bool, Bool-cases, if◌then◌else◌, inl, inr, ◌==◌, ◌≡◌,
  not, true, ◌&&◌,
}
use agent_bus.Session.{Clock, Snapshot, Event}
use agent_bus.Session.Store.Coherence.{Covers, IsCoherent, root_journal, Covers-append}
use agent_bus.Session.Store.{
  JournalFile, Root, Slot, legacy, primary, readable_journal, Derived, SnapshotFile, adopt_legacy,
  append_normalized, finish_append, flush, prepare_append, read_snapshot, file_lines, is_completed,
}
use agent_bus.Session.Journal.{Line, rebuild}
use agent_bus.Session.Store.Writes.{IsDated, append-IsCoherent, flush-IsCoherent}
use agent_bus.Session.Store.Dates.{IsCoherent-now, at}
use agent_bus.Session.Store.Reads.{read_state-IsCoherent, read_state-SoundEntry}

module _ (bytes : Line → ℕ) (bytes_positive : (l : Line) → 1 ≤ bytes l) (c : Clock) where
  pub record World : Type 0 where
    pub slot : Slot
    pub maps : ℕ → Option Derived

  -- The store as the process p sees it.
  abbrev pub view : World → ℕ → Slot
  view w p = record w.slot { derived = w.maps p }

  -- The world after a call of the process p that left its view as s.
  abbrev pub after : World → ℕ → Slot → World
  after w p s = record { slot = s; maps = λ q. if q == p then s.derived else w.maps q }

  -- The calls on the session id: an append of an event, a read, a flush, each by a process p at a
  -- time t.
  pub data Call (id : String) (w : World) : World → Type 0 where
    append :
        (p t : ℕ) (e : Event)
        → e.id ≡ id
        → IsDated bytes bytes_positive (at c t)
        → Call id w (after w p (append_normalized bytes (at c t) e (view w p)).1)
    read :
        (p t : ℕ) (include_completed : Bool)
        → Call id w (after w p (read_snapshot bytes (at c t) id include_completed (view w p)).1)
    write : (p t : ℕ) → Call id w (after w p (flush bytes (at c t) id (view w p)).1)

  pub data Calls (id : String) (w : World) : World → Type 0 where
    here : Calls id w w
    next : {u v : World} → Calls id w u → Call id u v → Calls id w v

  pub record IsCoherentWorld (id : String) (w : World) : Type 0 where
    pub views : (p : ℕ) → IsCoherent bytes bytes_positive c id (view w p)

  -- What an entry of another process covers goes on being covered.
  abbrev Extends : String → Slot → Slot → Type 0
  Extends id s s' =
      (r : Root) (size : Option ℕ) (snapshot : Snapshot) (n : ℕ)
      → Covers bytes bytes_positive c id (root_journal s r) size snapshot n
      → Covers bytes bytes_positive c id (root_journal s' r) size snapshot n

  after-IsCoherentWorld :
      (id : String) (w : World) (p : ℕ) (s : Slot)
      → IsCoherentWorld id w
      → IsCoherent bytes bytes_positive c id s
      → Extends id (view w p) s
      → IsCoherentWorld id (after w p s)
  after-IsCoherentWorld id w p s h k x = record {
    views = λ q. elim (Bool-cases (q == p)) [
      | inl e ↦ record {
        clean_primary = k.clean_primary;
        clean_legacy = k.clean_legacy;
        cached = λ d m. k.cached d (rw e at m);
        filed = k.filed;
      }
      | inr e ↦ record {
        clean_primary = k.clean_primary;
        clean_legacy = k.clean_legacy;
        cached =
            λ d m. x d.journal_path d.size d.snapshot d.next_seq ((h.views q).cached d (rw e at m));
        filed = k.filed;
      }
    ];
  }

  adopt-Extends :
      (id : String) (p l : Option JournalFile) (f : Option SnapshotFile) (d : Option Derived)
      (t : ℕ)
      → Extends id
          (record { primary_journal = p; legacy_journal = l; snapshot_file = f; derived = d })
          (adopt_legacy bytes
            (at c t)
            (record { primary_journal = p; legacy_journal = l; snapshot_file = f; derived = d }))
  unfolding adopt_legacy
  adopt-Extends id (some j) l f d t r size snapshot n h = h
  adopt-Extends id none none f d t r size snapshot n h = h
  adopt-Extends id none (some j) f d t legacy size snapshot n h = h
  adopt-Extends id none (some j) f d t primary size snapshot n h = λ k e. cc (h.0)

  append-Extends :
      (id : String) (s : Slot) (e : Event) (t : ℕ)
      → Extends id s (append_normalized bytes (at c t) e s).1
  unfolding append_normalized prepare_append finish_append
  append-Extends id s e t legacy size snapshot n h =
      adopt-Extends id s.primary_journal s.legacy_journal s.snapshot_file s.derived t legacy size
        snapshot n h
  append-Extends id s e t primary size snapshot n h =
      Covers-append bytes bytes_positive c id (adopt_legacy bytes (at c t) s).primary_journal t _
        size snapshot n
        (adopt-Extends id s.primary_journal s.legacy_journal s.snapshot_file s.derived t primary
          size snapshot n h)

  read-Extends :
      (id : String) (b : Bool) (s : Slot) (t : ℕ)
      → Extends id s (read_snapshot bytes (at c t) id b s).1
  unfolding read_snapshot
  read-Extends id b s t legacy size snapshot n h = h
  read-Extends id b s t primary size snapshot n h = h

  flush-Extends : (id : String) (s : Slot) (t : ℕ) → Extends id s (flush bytes (at c t) id s).1
  unfolding flush
  flush-Extends id s t legacy size snapshot n h = h
  flush-Extends id s t primary size snapshot n h = h

  back :
      (t : ℕ) (id : String) (s : Slot)
      → IsCoherent bytes bytes_positive (at c t) id s
      → IsCoherent bytes bytes_positive c id s
  back t id s h = IsCoherent-now bytes bytes_positive (at c t) c.now id s h

  Call-IsCoherentWorld :
      (id : String) {w v : World} → Call id w v → IsCoherentWorld id w → IsCoherentWorld id v
  Call-IsCoherentWorld id {w} (append p t e i d) h =
      let k =
        subst (λ (x : String). IsCoherent bytes bytes_positive (at c t) x (view w p)) (sym i)
          (IsCoherent-now bytes bytes_positive c t id (view w p) (h.views p)) in
      let s = (append_normalized bytes (at c t) e (view w p)).1 in
      after-IsCoherentWorld id w p s h
        (back t id s (
          subst (λ (x : String). IsCoherent bytes bytes_positive (at c t) x s) i
            (append-IsCoherent bytes bytes_positive (at c t) (view w p) e d k)))
        (append-Extends id (view w p) e t)
  Call-IsCoherentWorld id {w} (read p t b) h =
      let k = IsCoherent-now bytes bytes_positive c t id (view w p) (h.views p) in
      let s = (read_snapshot bytes (at c t) id b (view w p)).1 in
      after-IsCoherentWorld id w p s h
        (back t id s (
          unfold read_snapshot in
          read_state-IsCoherent bytes bytes_positive (at c t) id true (view w p) k))
        (read-Extends id b (view w p) t)
  Call-IsCoherentWorld id {w} (write p t) h =
      let k = IsCoherent-now bytes bytes_positive c t id (view w p) (h.views p) in
      let s = (flush bytes (at c t) id (view w p)).1 in
      after-IsCoherentWorld id w p s h
        (back t id s (flush-IsCoherent bytes bytes_positive (at c t) id (view w p) k))
        (flush-Extends id (view w p) t)

  pub Calls-IsCoherentWorld :
      (id : String) {w v : World} → Calls id w v → IsCoherentWorld id w → IsCoherentWorld id v
  Calls-IsCoherentWorld id here h = h
  Calls-IsCoherentWorld id (next r s) h = Call-IsCoherentWorld id s (Calls-IsCoherentWorld id r h)

  -- Before the first call: no file, and nothing in any map.
  abbrev pub fresh_world : World
  fresh_world = record {
    slot = record {
      primary_journal = none;
      legacy_journal = none;
      snapshot_file = none;
      derived = none;
    };
    maps = λ p. none;
  }

  pub fresh-IsCoherentWorld : (id : String) → IsCoherentWorld id fresh_world
  fresh-IsCoherentWorld id = record {
    views = λ p. record {
      clean_primary = tt;
      clean_legacy = tt;
      cached = λ d e. cc;
      filed = λ f n e q i. cc;
    };
  }

  -- What getSnapshot answers for the state of a session.
  abbrev pub answer : Bool → Snapshot → Option Snapshot
  answer include_completed s =
      if not include_completed && is_completed bytes c s then none else some s

  -- From a coherent world, whatever calls of whatever processes came before, each made as one step,
  -- the appends at times that `Date` can read back: getSnapshot of any process answers by the
  -- replay of the whole journal as it is now, and not from something older.
  pub get_snapshot-replay :
      (id : String) {w v : World} (p : ℕ) (include_completed : Bool)
      → Calls id w v
      → IsCoherentWorld id w
      → (read_snapshot bytes c id include_completed (view v p)).0
        ≡ answer include_completed
            (rebuild c id (file_lines bytes (readable_journal v.slot))).snapshot
  unfolding read_snapshot
  get_snapshot-replay id {v = v} p b r h =
      ap (answer b)
        (read_state-SoundEntry bytes bytes_positive c id true (view v p)
          ((Calls-IsCoherentWorld id r h).views p)).0
