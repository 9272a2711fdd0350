-- ===== src/Queue/Sites.antt =====
-- The server and the store of live-server.mjs together: what a step of one session keeps.
use agent_bus.Queue.{Queued}
use agent_bus.Shared.{refl, ◌∷◌, List, []}
use agent_bus.Queue.Server.{Delivery}
use agent_bus.Queue.Phases.{
  Site, put_appended, put_slot, is_pickup, journal, journal_pickup, journal_pickups, phase_event,
}
use agent_bus.Shared.{String, inl, inr, ◌≡◌, ◌≤◌, sym, eq_iff, Bool-cases, none, str_eq, ℕ}
use agent_bus.Session.Journal.{Line, normalize_event}
use agent_bus.Session.{Clock, Event}
use agent_bus.Queue.Distinct.{IsQueue}
use agent_bus.Queue.Server.{Server}
use agent_bus.Session.Store.{append_event, Slot, safe_session_id, append_normalized}
use agent_bus.Session.Store.Coherence.{IsCoherent}
use agent_bus.Session.Store.Writes.{IsDated, append-IsCoherent}
use mathlib.Core.Path.{subst}
use agent_bus.Vocabulary.{type_eq, other}

module _ (bytes : Line → ℕ) (bytes_positive : (l : Line) → 1 ≤ bytes l) (c : Clock) where
  -- The queue has no duplicates and fresh numbers, and every session reads as a replay of its journal.
  pub record IsSound (site : Site) : Type 0 where
    pub queue : IsQueue site.server
    pub store : (id : String) → IsCoherent bytes bytes_positive c id (site.slots id)

  pub put_slot-IsSound :
      (id : String) (s : Slot) (site : Site)
      → IsCoherent bytes bytes_positive c id s
      → IsSound site
      → IsSound (put_slot id s site)
  put_slot-IsSound id s site k h = record {
    queue = h.queue;
    store = λ x. elim (Bool-cases (str_eq x id)) [
      | inl e ↦
          rw e (subst (λ y. IsCoherent bytes bytes_positive c y s) (sym ((eq_iff x id).0 e)) k)
      | inr e ↦ rw e (h.store x)
    ];
  }

  pub with_server-IsSound :
      (site : Site) (s : Server) → IsQueue s → IsSound site → IsSound (record site { server = s })
  with_server-IsSound site s k h = record { queue = k; store = h.store }

  pub append_event-IsSound :
      (id : String) (e : Event) (site : Site)
      → e.id ≡ id
      → IsDated bytes bytes_positive c
      → IsSound site
      → IsSound (put_appended id (append_event bytes c e none (site.slots id)) site)
  unfolding append_event normalize_event
  append_event-IsSound id e site same d h = elim (Bool-cases (str_eq e.id "")) [
    | inl k ↦ rw (put_appended, k) h
    | inr k ↦ elim (Bool-cases (type_eq e.type (other ""))) [
      | inl t ↦ rw (put_appended, k) (rw (put_appended, k) (rw (put_appended, t) h))
      | inr t ↦ elim (Bool-cases (safe_session_id e.id)) [
        | inl x ↦
            rw (put_appended, k)
              (rw (put_appended, k)
                (rw (put_appended, t)
                  (rw (put_appended, x)
                    (put_slot-IsSound id (append_normalized bytes c e (site.slots id)).1 site
                      (subst
                        (λ y.
                          IsCoherent bytes bytes_positive c y
                            (append_normalized bytes c e (site.slots id)).1)
                        same
                        (append-IsCoherent bytes bytes_positive c (site.slots id) e d (
                          subst (λ y. IsCoherent bytes bytes_positive c y (site.slots id))
                            (sym same) (h.store id))))
                      h))))
        | inr x ↦
            rw (put_appended, k)
              (rw (put_appended, k) (rw (put_appended, t) (rw (put_appended, x) h)))
      ]
    ]
  ]

  pub journal-IsSound :
      (e : Event) (site : Site)
      → IsDated bytes bytes_positive c
      → IsSound site
      → IsSound (journal bytes c e.id e site)
  unfolding journal
  journal-IsSound e site d h = append_event-IsSound e.id e site refl d h

  journal_pickup-IsSound :
      (q : Queued) (site : Site)
      → IsDated bytes bytes_positive c
      → IsSound site
      → IsSound (journal_pickup bytes c q site)
  unfolding journal_pickup
  journal_pickup-IsSound q site d h = elim (Bool-cases (is_pickup q)) [
    | inr e ↦ rw e h
    | inl e ↦
        let id = q.event.id in
        let next = journal bytes c id (phase_event c.now id "picked_up") site in
        rw e (
          journal-IsSound (phase_event c.now id "scaffolding") next d
            (journal-IsSound (phase_event c.now id "picked_up") site d h))
  ]

  pub journal_pickups-IsSound :
      (ds : List Delivery) (site : Site)
      → IsDated bytes bytes_positive c
      → IsSound site
      → IsSound (journal_pickups bytes c ds site)
  unfolding journal_pickups
  journal_pickups-IsSound [] site d h = h
  journal_pickups-IsSound (x ∷ ds) site d h =
      journal_pickups-IsSound ds (journal_pickup bytes c x.entry site) d
        (journal_pickup-IsSound x.entry site d h)
