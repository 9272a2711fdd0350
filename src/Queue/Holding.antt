-- ===== src/Queue/Holding.antt =====
-- What the handlers do to the queue leaves a claimed entry under its lease (live-server.mjs).
use agent_bus.Queue.{Queued, select_available}
use agent_bus.Shared.{
  ==_iff, All, All-append, All-filter, All-map_pred, Bool, Bool-cases, List, Option, Option-cases,
  [], ap, arith, false, filter, find, inl, inr, none, refl, some, suc, sym, true, value_or, zero, ℕ,
  ◌+◌, ◌<◌, ◌==◌, ◌∙◌, ◌∷◌, ◌≡◌, ◌≢◌, ◌≤◌,
}
use agent_bus.Queue.Distinct.{Apart, Distinct, IsQueue, All-take_first}
use agent_bus.Queue.Server.{
  Delivery, Poll, Server, claim, find_poll, flush_rounds, has_duplicate, push_event, set_lease,
  take_first,
}
use agent_bus.Session.{Event}
use agent_bus.Vocabulary.{EventType}
use mathlib.Core.List.{Memᴰ}
use mathlib.Core.Bool.{false≢true}
use agent_bus.Queue.Selection.{select_available-first}
use mathlib.Core.Path.{subst}

All-at {κ} : (P : Queued → Type κ) (x : Queued) (xs : List Queued) → All P xs → Memᴰ x xs → P x
All-at P x [] h m = elim m [ ]
All-at P x (y ∷ ys) h (Memᴰ.head e) = subst P (sym e) (h.0)
All-at P x (y ∷ ys) h (Memᴰ.tail m) = All-at P x ys h.1 m

pub All-found {κ} :
    (P : Queued → Type κ) (p : Queued → Bool) (x : Queued) (xs : List Queued)
    → find p xs ≡ some x
    → All P xs
    → P x × (p x ≡ true)
All-found P p x [] e h = cc
All-found P p x (y ∷ ys) e h = elim (Bool-cases (p y)) [
  | inl k ↦
      let same : some y ≡ some x = sym (rw k refl) ∙ e in
      let equal : y ≡ x = ap (λ o. value_or o y) same in (subst P equal h.0, ap p (sym equal) ∙ k)
  | inr k ↦ All-found P p x ys (sym (rw k refl) ∙ e) h.1
]

-- An entry of this number is the claimed event, under a lease to this time at least.
abbrev pub IsHeld : Queued → ℕ → Queued → Type 0
IsHeld q until x = x.seq ≡ q.seq → (x.event ≡ q.event) × (until ≤ x.lease_until)

pub record Leased (q : Queued) (until : ℕ) (s : Server) : Type 0 where
  pub entries : All (IsHeld q until) s.pending_events
  pub next : q.seq < s.next_event_seq

module _ (q : Queued) (until : ℕ) where
  pub Leased-set_lease :
      (n t : ℕ) (xs : List Queued)
      → (n ≡ q.seq → until ≤ t)
      → All (IsHeld q until) xs
      → All (IsHeld q until) (set_lease n t xs)
  unfolding set_lease
  Leased-set_lease n t [] f h = tt
  Leased-set_lease n t (x ∷ xs) f h = elim (Bool-cases (x.seq == n)) [
    | inl e ↦
        let same : x.seq ≡ n = (==_iff x.seq n).0 e in
        rw e ((λ k. ((h.0 k).0, f (sym same ∙ k))), Leased-set_lease n t xs f h.1)
    | inr e ↦ rw e (h.0, Leased-set_lease n t xs f h.1)
  ]

  -- No poll is handed a held entry before its time is over.
  pub held_unavailable :
      (t : ℕ) (types : Option (List EventType)) (xs : List Queued) (x : Queued)
      → t < until
      → All (IsHeld q until) xs
      → select_available t types xs ≡ some x
      → x.seq ≢ q.seq
  held_unavailable t types xs x h a e k =
      let (m, free, allowed, rest) = select_available-first t types xs x e in
      let lease = (All-at (IsHeld q until) x xs a m k).1 in ground (arith, lease, free)

  find_poll-apart :
      (now : ℕ) (xs : List Queued) (ps left : List Poll) (d : Delivery)
      → now < until
      → All (IsHeld q until) xs
      → find_poll now xs ps ≡ some (d, left)
      → d.entry.seq ≢ q.seq
  unfolding find_poll
  find_poll-apart now xs [] left d h a e = cc
  find_poll-apart now xs (p ∷ ps) left d h a e =
      elim (Option-cases (select_available now p.types xs)) [
        | inr (x, k) ↦
            let found : some (record { poll = p; entry = x }, ps) ≡ some (d, left) =
              sym (rw (find_poll, k) refl) ∙ e in
            let same : x ≡ d.entry = ap (λ o. entry_or x o) found in
            subst (λ y. y.seq ≢ q.seq) same (held_unavailable now p.types xs x h a k)
        | inl k ↦ elim (Option-cases (find_poll now xs ps)) [
          | inl f ↦ cc
          | inr ((d', left'), f) ↦
              let found : some (d', p ∷ left') ≡ some (d, left) =
                sym (rw (find_poll, k) (rw (find_poll, f) refl)) ∙ e in
              let same : d'.entry ≡ d.entry = ap (λ o. entry_or d'.entry o) found in
              subst (λ y. y.seq ≢ q.seq) same (find_poll-apart now xs ps left' d' h a f)
        ]
      ]
    where
      entry_or : Queued → Option (Delivery × List Poll) → Queued
      entry_or x none = x
      entry_or x (some r) = r.0.entry

  pub flush_rounds-Leased :
      (n now : ℕ) (s : Server)
      → now < until
      → Leased q until s
      → Leased q until (flush_rounds n now s).1
  unfolding flush_rounds claim
  flush_rounds-Leased zero now s h k = k
  flush_rounds-Leased (suc n) now s h k =
      elim (Option-cases (find_poll now s.pending_events s.pending_polls)) [
        | inl e ↦ rw (flush_rounds, e) k
        | inr ((d, left), e) ↦
            let apart = find_poll-apart now s.pending_events s.pending_polls left d h k.entries e in
            rw (flush_rounds, e)
              (flush_rounds-Leased n now
                (claim now d.poll.lease_ms d.entry (record s { pending_polls = left })) h
                (record {
                  entries =
                      Leased-set_lease d.entry.seq (now + d.poll.lease_ms) s.pending_events
                        (λ same. absurd (apart same)) k.entries;
                  next = k.next;
                }))
      ]

  pub push_event-Leased :
      (e : Event) (s : Server) → Leased q until s → Leased q until (push_event e s)
  unfolding push_event
  push_event-Leased e s h = elim (Bool-cases (has_duplicate e s.pending_events)) [
    | inl d ↦ rw d h
    | inr d ↦ rw d (record {
      entries =
          All-append (IsHeld q until) s.pending_events
            (record {
              event = e;
              scaffold_attempted = false;
              generation_ready_at = none;
              lease_until = 0;
              seq = s.next_event_seq;
            }
              ∷ [])
            h.entries ((λ k. absurd (omega (arith, h.next, k))), tt);
      next = omega (arith, h.next);
    })
  ]

  pub Leased-filter :
      (p : Queued → Bool) (s : Server)
      → Leased q until s
      → Leased q until (record s { pending_events = filter p s.pending_events })
  Leased-filter p s h = record {
    entries = All-filter (IsHeld q until) p s.pending_events h.entries;
    next = h.next;
  }

  pub Leased-take_first :
      (p : Queued → Bool) (s : Server)
      → Leased q until s
      → Leased q until (record s { pending_events = take_first p s.pending_events })
  Leased-take_first p s h = record {
    entries = All-take_first (IsHeld q until) p s.pending_events h.entries;
    next = h.next;
  }

-- In a queue of distinct entries those of one number are one.
same_number_same :
    (q : Queued) (xs : List Queued)
    → Distinct xs
    → Memᴰ q xs
    → All (λ x. x.seq ≡ q.seq → x.event ≡ q.event) xs
same_number_same q [] h m = tt
same_number_same q (y ∷ ys) h (Memᴰ.head e) = (
  λ k. ap (λ (x : Queued). x.event) (sym e),
  All-map_pred (Apart y) (λ x. x.seq ≡ q.seq → x.event ≡ q.event) ys
      (λ x a k. absurd (omega (arith, a.1, k, ap (λ (z : Queued). z.seq) e))) h.0,
)
same_number_same q (y ∷ ys) h (Memᴰ.tail m) =
    (λ k. absurd (omega (arith, (All-at (Apart y) q ys h.0 m).1, k)), same_number_same q ys h.1 m)

stamped :
    (q : Queued) (until : ℕ) (xs : List Queued)
    → All (λ x. x.seq ≡ q.seq → x.event ≡ q.event) xs
    → All (IsHeld q until) (set_lease q.seq until xs)
unfolding set_lease
stamped q until [] h = tt
stamped q until (x ∷ xs) h = elim (Bool-cases (x.seq == q.seq)) [
  | inl e ↦ rw e ((λ k. (h.0 k, omega arith)), stamped q until xs h.1)
  | inr e ↦
      rw e ((λ k. absurd (false≢true (sym e ∙ (==_iff x.seq q.seq).1 k))), stamped q until xs h.1)
]

-- The claim itself.
pub claim-Leased :
    (now ms : ℕ) (q : Queued) (s : Server)
    → IsQueue s
    → Memᴰ q s.pending_events
    → Leased q (now + ms) (claim now ms q s)
unfolding claim
claim-Leased now ms q s k m = record {
  entries =
      stamped q (now + ms) s.pending_events (same_number_same q s.pending_events k.distinct m);
  next = All-at (λ x. x.seq < s.next_event_seq) q s.pending_events k.below m;
}
