-- ===== src/Queue/Phases/Elsewhere.antt =====
-- What the phases of a delivery leave alone (live-server.mjs, prepareGenerateEventForLease): the queue
-- and the sessions that are not picked up.
use agent_bus.Queue.Phases.{
  Site, is_pickup, journal, journal_pickup, journal_pickups, phase_event, put_appended,
}
use agent_bus.Shared.{
  Bool, Bool-cases, List, String, [], any, false, inl, inr, none, refl, str_eq, sym, ℕ, ◌&&◌, ◌∙◌,
  ◌∷◌, ◌≡◌, ◌⊎◌,
}
use agent_bus.Session.{Clock, Event, Snapshot}
use agent_bus.Queue.Server.{Delivery}
use agent_bus.Session.Journal.{Line, StoreError}
use agent_bus.Queue.{Queued}
use agent_bus.Session.Store.{Slot, append_event}
use mathlib.Core.Bool.{false≢true}
use agent_bus.Queue.Phases.Lines.{journal_elsewhere}

module _ (bytes : Line → ℕ) (c : Clock) where
  -- Whether this delivery journals phases of the session.
  abbrev pub picks_up : String → Delivery → Bool
  picks_up x d = is_pickup d.entry && str_eq x d.entry.event.id

  journal_pickup-elsewhere :
      (q : Queued) (x : String) (site : Site)
      → (is_pickup q && str_eq x q.event.id) ≡ false
      → (journal_pickup bytes c q site).slots x ≡ site.slots x
  unfolding journal_pickup
  journal_pickup-elsewhere q x site h = elim (Bool-cases (is_pickup q)) [
    | inr e ↦ rw e refl
    | inl e ↦
        let apart : str_eq x q.event.id ≡ false = sym (rw e refl) ∙ h in
        let next = journal bytes c q.event.id (phase_event c.now q.event.id "picked_up") site in
        rw e (
          journal_elsewhere bytes c q.event.id x (phase_event c.now q.event.id "scaffolding") next
            apart
          ∙ journal_elsewhere bytes c q.event.id x (phase_event c.now q.event.id "picked_up") site
              apart)
  ]

  -- It leaves the files and the map of a session alone that none of its deliveries picks up.
  pub journal_pickups-elsewhere :
      (ds : List Delivery) (x : String) (site : Site)
      → any (picks_up x) ds ≡ false
      → (journal_pickups bytes c ds site).slots x ≡ site.slots x
  unfolding journal_pickups
  journal_pickups-elsewhere [] x site h = refl
  journal_pickups-elsewhere (d ∷ ds) x site h = elim (Bool-cases (picks_up x d)) [
    | inl e ↦ absurd (false≢true (sym h ∙ rw e refl))
    | inr e ↦
        journal_pickups-elsewhere ds x (journal_pickup bytes c d.entry site) (sym (rw e refl) ∙ h)
        ∙ journal_pickup-elsewhere d.entry x site e
  ]

  journal-server :
      (id : String) (e : Event) (site : Site) → (journal bytes c id e site).server ≡ site.server
  unfolding journal
  journal-server id e site = by_result (append_event bytes c e none (site.slots id))
    where
      by_result :
          (r : (Snapshot × Slot) ⊎ StoreError) → (put_appended id r site).server ≡ site.server
      by_result (inl (snapshot, slot)) = refl
      by_result (inr error) = refl

  journal_pickup-server :
      (q : Queued) (site : Site) → (journal_pickup bytes c q site).server ≡ site.server
  unfolding journal_pickup
  journal_pickup-server q site = elim (Bool-cases (is_pickup q)) [
    | inr e ↦ rw e refl
    | inl e ↦
        let next = journal bytes c q.event.id (phase_event c.now q.event.id "picked_up") site in
        rw e (
          journal-server q.event.id (phase_event c.now q.event.id "scaffolding") next
          ∙ journal-server q.event.id (phase_event c.now q.event.id "picked_up") site)
  ]

  pub journal_pickups-server :
      (ds : List Delivery) (site : Site) → (journal_pickups bytes c ds site).server ≡ site.server
  unfolding journal_pickups
  journal_pickups-server [] site = refl
  journal_pickups-server (d ∷ ds) site =
      journal_pickups-server ds (journal_pickup bytes c d.entry site)
      ∙ journal_pickup-server d.entry site
