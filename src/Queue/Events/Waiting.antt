-- ===== src/Queue/Events/Waiting.antt =====
-- What becomes of a message that is taken (live-server.mjs, POST /events): it waits in the queue of
-- the agent, or it is in the journal.
use agent_bus.Queue.Phases.{Site, put_slot}
use agent_bus.Queue.Events.{
  Message, Answer, Handled, answer_with, append_and_forward, append_failed, appended_then,
  end_orphan, forward, handle_event, is_for_agent, journal_progress, missed_completion, offer,
  report_phase, retire, taken, phase_then, reported_phase,
}
use agent_bus.Shared.{
  ==_iff, Bool, Bool-cases, List, Option-cases, [], any, arith, eq_iff, inl, inr, refl, some,
  str_eq, suc, sym, true, zero, ℕ, ◌&&◌, ◌++◌, ◌+◌, ◌==◌, ◌∙◌, ◌∷◌, ◌≡◌, Option, String, ap, false,
  if◌then◌else◌, length, none, not, ◌⊎◌,
}
use agent_bus.Session.{Event, Clock, Snapshot}
use agent_bus.Queue.{Queued}
use agent_bus.Queue.Server.{
  Server, claim, enqueue_event, find_poll, flush_pending_polls, flush_rounds, has_duplicate,
  is_duplicate, matches, push_event, set_lease,
}
use agent_bus.Vocabulary.{other_text, type_eq, type_number}
use agent_bus.Generation.{Done}
use agent_bus.Session.Journal.{Line, StoreError}
use agent_bus.Session.Store.{Slot, append_event}
use mathlib.Core.Bool.{false≢true}
use agent_bus.Queue.Events.Cases.{is_refusal, of_gate, of_handler}
use agent_bus.Queue.Phases.Elsewhere.{journal_pickups-server}

-- Whether an event of this session and type is in the queue.
abbrev pub is_waiting : Event → Server → Bool
is_waiting e s = any (matches e.id (some e.type)) s.pending_events

any-set_lease :
    (e : Event) (seq t : ℕ) (qs : List Queued)
    → any (matches e.id (some e.type)) (set_lease seq t qs) ≡ any (matches e.id (some e.type)) qs
unfolding set_lease
any-set_lease e seq t [] = refl
any-set_lease e seq t (q ∷ qs) = elim (Bool-cases (q.seq == seq)) [
  | inl k ↦ rw k (rw (any-set_lease e seq t qs) refl)
  | inr k ↦ rw k (rw (any-set_lease e seq t qs) refl)
]

flush_rounds-is_waiting :
    (e : Event) (n now : ℕ) (s : Server) → is_waiting e (flush_rounds n now s).1 ≡ is_waiting e s
unfolding flush_rounds claim
flush_rounds-is_waiting e zero now s = refl
flush_rounds-is_waiting e (suc n) now s =
    elim (Option-cases (find_poll now s.pending_events s.pending_polls)) [
      | inl k ↦ rw (flush_rounds, k) refl
      | inr ((d, left), k) ↦
          rw (flush_rounds, k)
            (flush_rounds-is_waiting e n now
                (claim now d.poll.lease_ms d.entry (record s { pending_polls = left }))
              ∙ any-set_lease e d.entry.seq (now + d.poll.lease_ms) s.pending_events)
    ]

any-last :
    (p : Queued → Bool) (qs : List Queued) (q : Queued) → p q ≡ true → any p (qs ++ q ∷ []) ≡ true
any-last p [] q h = rw h refl
any-last p (x ∷ qs) q h = elim (Bool-cases (p x)) [
  | inl k ↦ rw k refl
  | inr k ↦ rw k (any-last p qs q h)
]

any_weaker :
    (p r : Queued → Bool) (qs : List Queued)
    → ((q : Queued) → p q ≡ true → r q ≡ true)
    → any p qs ≡ true
    → any r qs ≡ true
any_weaker p r [] h k = k
any_weaker p r (x ∷ qs) h k = elim (Bool-cases (p x)) [
  | inl e ↦ rw (h x e) refl
  | inr e ↦ elim (Bool-cases (r x)) [
    | inl f ↦ rw f refl
    | inr f ↦ rw f (any_weaker p r qs h (sym (rw e refl) ∙ k))
  ]
]

and_right : (a b : Bool) → (a && b) ≡ true → b ≡ true
and_right a b h = ground arith

duplicate_matches :
    (e : Event) (q : Queued) → is_duplicate e q ≡ true → matches e.id (some e.type) q ≡ true
duplicate_matches e q h = ground arith

matches_own : (e : Event) → (str_eq e.id e.id && type_eq e.type e.type) ≡ true
matches_own e = rw ((eq_iff e.id e.id).1 refl) (
    rw ((==_iff (type_number e.type) (type_number e.type)).1 refl)
      ((eq_iff (other_text e.type) (other_text e.type)).1 refl))

enqueue_event-is_waiting :
    (now : ℕ) (e : Event) (s : Server) → is_waiting e (enqueue_event now e s).1 ≡ true
unfolding enqueue_event flush_pending_polls push_event
enqueue_event-is_waiting now e s = elim (Bool-cases (has_duplicate e s.pending_events)) [
  | inl d ↦ rw d (
      any_weaker (is_duplicate e) (matches e.id (some e.type)) s.pending_events
        (duplicate_matches e)
        (and_right (not (str_eq e.id "")) (any (is_duplicate e) s.pending_events) d))
  | inr d ↦
      let q : Queued = record {
        event = e;
        scaffold_attempted = false;
        generation_ready_at = none;
        lease_until = 0;
        seq = s.next_event_seq;
      } in
      rw d (
        flush_rounds-is_waiting e (length s.pending_polls) now (record s {
          pending_events = s.pending_events ++ q ∷ [];
          next_event_seq = s.next_event_seq + 1;
        })
        ∙ any-last (matches e.id (some e.type)) s.pending_events q (matches_own e))
]

abbrev is_taken : Answer → Bool
is_taken taken = true
is_taken _ = false

module _ (bytes : Line → ℕ) (c : Clock) where
  abbrev IsTaken : Message → Handled → Type 0
  IsTaken m o = o.answer ≡ taken → is_for_agent m ≡ true → is_waiting m.event o.site.server ≡ true

  refused-IsTaken :
      (m : Message) (a : Answer) (site : Site)
      → is_refusal a ≡ true
      → IsTaken m (answer_with a site)
  refused-IsTaken m a site r h k = absurd (false≢true (sym (ap is_refusal h) ∙ r))

  forward-IsTaken :
      (m : Message) (missed : Option Done) (site : Site) → IsTaken m (forward bytes c m missed site)
  unfolding forward offer
  forward-IsTaken m missed site h k =
      let next =
        end_orphan bytes c m (journal_progress bytes c m.event (retire bytes c m.event site)) in
      let (ds, server) = enqueue_event c.now m.event next.server in
      rw k (
        ap (is_waiting m.event)
          (journal_pickups-server bytes c ds (record next { server = server }))
        ∙ enqueue_event-is_waiting c.now m.event next.server)

  appended_then-IsTaken :
      (m : Message) (missed : Option Done) (site : Site) (r : (Snapshot × Slot) ⊎ StoreError)
      → IsTaken m (appended_then bytes c m missed site r)
  appended_then-IsTaken m missed site (inl (snapshot, slot)) =
      forward-IsTaken m missed (put_slot m.event.id slot site)
  appended_then-IsTaken m missed site (inr x) = refused-IsTaken m append_failed site refl

  append_and_forward-IsTaken :
      (m : Message) (r : Option Done × Site) → IsTaken m (append_and_forward bytes c m r)
  unfolding append_and_forward
  append_and_forward-IsTaken m (missed, site) = by_id (str_eq m.event.id "")
    where
      by_id :
          (b : Bool)
          → IsTaken m (
              if b
              then forward bytes c m missed site
              else appended_then bytes c m missed site
                  (append_event bytes c m.event none (site.slots m.event.id)))
      by_id true = forward-IsTaken m missed site
      by_id false =
          appended_then-IsTaken m missed site
            (append_event bytes c m.event none (site.slots m.event.id))

  phase_then-is_taken :
      (id : String) (site : Site) (r : (Snapshot × Slot) ⊎ StoreError)
      → is_taken (phase_then bytes c id site r).answer ≡ false
  phase_then-is_taken id site (inl (snapshot, slot)) = refl
  phase_then-is_taken id site (inr x) = refl

  report_phase-is_taken :
      (e : Event) (site : Site) → is_taken (report_phase bytes c e site).answer ≡ false
  unfolding report_phase
  report_phase-is_taken e site = elim (Bool-cases (str_eq e.id "")) [
    | inl k ↦ rw k refl
    | inr k ↦ rw k (
        phase_then-is_taken e.id site
          (append_event bytes c (reported_phase c.now e) none (site.slots e.id)))
  ]

  -- A message that is answered as taken, and is for the agent (no checkpoint, no variant_mounted and
  -- no discard of an orphan), leaves an event of its session and type in the queue, whether or not a
  -- parked poll has got it.
  pub taken-is_waiting :
      (token : String) (m : Message) (site : Site)
      → (handle_event bytes c token (some m) site).answer ≡ taken
      → is_for_agent m ≡ true
      → is_waiting m.event (handle_event bytes c token (some m) site).site.server ≡ true
  taken-is_waiting token m site =
      of_handler bytes c token m site (IsTaken m) (λ a r. refused-IsTaken m a site r)
        (λ t.
          of_gate bytes c m site (IsTaken m) (λ a r. refused-IsTaken m a site r)
            (append_and_forward-IsTaken m (missed_completion bytes c m.event site)))
        (λ t h k. absurd (false≢true (sym (report_phase-is_taken m.event site) ∙ ap is_taken h)))
