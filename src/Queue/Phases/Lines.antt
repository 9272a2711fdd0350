-- ===== src/Queue/Phases/Lines.antt =====
-- What the phases of a delivery leave in the journals (live-server.mjs, recordAgentPhase and
-- prepareGenerateEventForLease).
use agent_bus.Queue.Phases.{
  Site, is_pickup, journal, journal_pickup, journal_pickups, phase_event, put_appended, put_slot,
}
use agent_bus.Shared.{
  All, All-append, Bool-cases, List, Option-cases, String, [], ap, eq_iff, eq_refl, false, inl, inr,
  none, refl, str_eq, sym, true, value_or, ℕ, ◌++◌, ◌∙◌, ◌∷◌, ◌≡◌, ◌⊎◌,
}
use agent_bus.Session.{Clock, Event, Snapshot}
use agent_bus.Queue.Server.{Delivery}
use agent_bus.Session.Journal.{Line, StoreError, normalize_event, entry}
use agent_bus.Queue.{Queued}
use agent_bus.Session.Store.{
  Slot, adopt_legacy, append_event, append_line, append_normalized, file_lines, finish_append,
  new_entry, persist, prepare_append, read_state, readable_journal, safe_session_id,
}
use mathlib.Core.List.{append-nil, append_assoc}
use agent_bus.Vocabulary.{other, type_eq}
use mathlib.Core.Path.{subst}

module _ (bytes : Line → ℕ) (c : Clock) where
  -- The lines of the journal that is read.
  abbrev pub journal_lines : Slot → List Line
  journal_lines s = value_or (file_lines bytes (readable_journal s)) []

  adopted_lines :
      (s : Slot)
      → value_or (file_lines bytes (adopt_legacy bytes c s).primary_journal) [] ≡ journal_lines s
  unfolding adopt_legacy
  adopted_lines s = elim (Option-cases s.primary_journal) [
    | inl e ↦ elim (Option-cases s.legacy_journal) [
      | inl k ↦ rw e (rw k (rw e refl))
      | inr (f, k) ↦ rw e (rw k refl)
    ]
    | inr (f, e) ↦ rw e refl
  ]

  pub appended_lines :
      (e : Event) (s : Slot)
      → (n : ℕ) × (journal_lines (append_normalized bytes c e s).1
          ≡ journal_lines s ++ entry (new_entry bytes c e n) ∷ [])
  unfolding append_normalized prepare_append finish_append persist append_line read_state
  appended_lines e s =
      let n = (prepare_append bytes c e.id s).0.next_seq in
      (n, ap (λ ls. ls ++ entry (new_entry bytes c e n) ∷ []) (adopted_lines s))

  pub put_slot_same : (id : String) (s : Slot) (site : Site) → (put_slot id s site).slots id ≡ s
  put_slot_same id s site = rw (eq_refl id) refl

  pub append_event_lem :
      (e : Event) (s : Slot)
      → str_eq e.id "" ≡ false
      → type_eq e.type (other "") ≡ false
      → safe_session_id e.id ≡ true
      → append_event bytes c e none s ≡ inl (append_normalized bytes c e s)
  unfolding append_event normalize_event
  append_event_lem e s i t k =
      rw (append_event, i) (rw (append_event, i) (rw (append_event, t) (rw (append_event, k) refl)))

  -- A line of the journal of this session that holds one of the two phases of a delivery.
  abbrev pub IsPhaseLine : String → Line → Type 0
  IsPhaseLine id line =
      (phase : String) × (n : ℕ) × ((phase ≡ "picked_up") ⊎ (phase ≡ "scaffolding"))
      × (line ≡ entry (new_entry bytes c (phase_event c.now id phase) n))

  -- The journal of this session is as it was, with any number of such lines behind.
  abbrev pub GrowsByPhases : String → Slot → Slot → Type 0
  GrowsByPhases id s t =
      (more : List Line) × (journal_lines t ≡ journal_lines s ++ more) × All (IsPhaseLine id) more

  pub grows_same : (id : String) (s t : Slot) → t ≡ s → GrowsByPhases id s t
  grows_same id s t e = ([], ap journal_lines e ∙ sym (append-nil (journal_lines s)), tt)

  pub grows_trans :
      (id : String) (s t u : Slot)
      → GrowsByPhases id s t
      → GrowsByPhases id t u
      → GrowsByPhases id s u
  grows_trans id s t u (more, e, h) (rest, k, j) = (
    more ++ rest,
    k ∙ ap (λ ls. ls ++ rest) e ∙ append_assoc (journal_lines s) more rest,
    All-append (IsPhaseLine id) more rest h j,
  )

  append-grows :
      (id phase : String) (site : Site)
      → (phase ≡ "picked_up") ⊎ (phase ≡ "scaffolding")
      → GrowsByPhases id
          (site.slots id)
          ((journal bytes c id (phase_event c.now id phase) site).slots id)
  unfolding journal append_event normalize_event
  append-grows id phase site p =
      let e = phase_event c.now id phase in
      let s = site.slots id in
      let t = (journal bytes c id e site).slots id in
      elim (Bool-cases (str_eq id "")) [
        | inl i ↦ grows_same id s t (rw (put_appended, i) refl)
        | inr i ↦ elim (Bool-cases (safe_session_id id)) [
          | inl k ↦
              let (n, lines) = appended_lines e s in
              (
                entry (new_entry bytes c e n) ∷ [],
                ap (λ r. journal_lines ((put_appended id r site).slots id))
                      (append_event_lem e s i refl k)
                    ∙ ap journal_lines (put_slot_same id (append_normalized bytes c e s).1 site)
                    ∙ lines,
                ((phase, n, p, refl), tt),
              )
          | inr k ↦
              grows_same id s t
                (rw (put_appended, i) (rw (put_appended, i) (rw (put_appended, k) refl)))
        ]
      ]

  pub journal_elsewhere :
      (id x : String) (e : Event) (site : Site)
      → str_eq x id ≡ false
      → (journal bytes c id e site).slots x ≡ site.slots x
  unfolding journal
  journal_elsewhere id x e site h = by_result (append_event bytes c e none (site.slots id))
    where
      by_result :
          (r : (Snapshot × Slot) ⊎ StoreError) → (put_appended id r site).slots x ≡ site.slots x
      by_result (inl (snapshot, slot)) = rw h refl
      by_result (inr error) = refl

  journal-grows :
      (id x phase : String) (site : Site)
      → (phase ≡ "picked_up") ⊎ (phase ≡ "scaffolding")
      → GrowsByPhases x
          (site.slots x)
          ((journal bytes c id (phase_event c.now id phase) site).slots x)
  journal-grows id x phase site p = elim (Bool-cases (str_eq x id)) [
    | inl e ↦
        subst
          (λ y.
            GrowsByPhases y (site.slots y)
              ((journal bytes c id (phase_event c.now id phase) site).slots y))
          (sym ((eq_iff x id).0 e)) (append-grows id phase site p)
    | inr e ↦
        grows_same x (site.slots x) ((journal bytes c id (phase_event c.now id phase) site).slots x)
          (journal_elsewhere id x (phase_event c.now id phase) site e)
  ]

  journal_pickup-grows :
      (q : Queued) (x : String) (site : Site)
      → GrowsByPhases x (site.slots x) ((journal_pickup bytes c q site).slots x)
  unfolding journal_pickup
  journal_pickup-grows q x site = elim (Bool-cases (is_pickup q)) [
    | inr e ↦ rw e (grows_same x (site.slots x) (site.slots x) refl)
    | inl e ↦
        let next = journal bytes c q.event.id (phase_event c.now q.event.id "picked_up") site in
        rw e (
          grows_trans x (site.slots x) (next.slots x)
            ((journal bytes c q.event.id (phase_event c.now q.event.id "scaffolding") next).slots x)
            (journal-grows q.event.id x "picked_up" site (inl refl))
            (journal-grows q.event.id x "scaffolding" next (inr refl)))
  ]

  -- What a flush hands out adds only phases to a journal, whatever the session.
  pub journal_pickups-grows :
      (ds : List Delivery) (x : String) (site : Site)
      → GrowsByPhases x (site.slots x) ((journal_pickups bytes c ds site).slots x)
  unfolding journal_pickups
  journal_pickups-grows [] x site = grows_same x (site.slots x) (site.slots x) refl
  journal_pickups-grows (d ∷ ds) x site =
      let next = journal_pickup bytes c d.entry site in
      grows_trans x (site.slots x) (next.slots x) ((journal_pickups bytes c ds next).slots x)
        (journal_pickup-grows d.entry x site) (journal_pickups-grows ds x next)
