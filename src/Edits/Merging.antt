-- ===== src/Edits/Merging.antt =====
-- What the two ways to stage an operation do to the operations of a page and a ref
-- (live/manual-edits-buffer.mjs, stageEntry).
use agent_bus.Shared.{
  Bool, Bool-cases, List, Option-cases, String, [], ap, arith, eq_iff, eq_refl, false, filter, inl,
  inr, none, refl, some, str_eq, sym, true, ◌&&◌, ◌++◌, ◌∙◌, ◌∷◌, ◌≡◌, ◌≢◌,
}
use agent_bus.Edits.{Edit, Op, add_op, has_ref, merge_entries, refresh}
use agent_bus.Edits.Keys.{
  append-ne_nil, append-nil_of, filter-append, filter-has_ref, filter-merge_op,
  filter-merge_op_other, filter-no_ref, filter-one_apart, merge_first, merge_first-append, ops_at,
  ops_in,
}
use mathlib.Core.List.{append-nil}

abbrev pub takes : Edit → Op → Edit → Bool
takes new op e = str_eq e.page_url new.page_url && has_ref op.ref e.ops

pub ops_in-refresh :
    (now : String) (new : Edit) (op : Op) (e : Edit)
    → takes new op e ≡ true
    → (ops_in new.page_url op.ref (refresh now new op e)
        ≡ merge_first op (ops_in new.page_url op.ref e))
      × (ops_in new.page_url op.ref e ≢ [])
unfolding refresh
ops_in-refresh now new op e h =
    let page : str_eq e.page_url new.page_url ≡ true = ground arith in
    let ref : has_ref op.ref e.ops ≡ true = ground arith in
    (rw page (filter-merge_op op e.ops ref), rw page (filter-has_ref op.ref e.ops ref))

pub ops_in-untaken :
    (new : Edit) (op : Op) (e : Edit) → takes new op e ≡ false → ops_in new.page_url op.ref e ≡ []
ops_in-untaken new op e h = elim (Bool-cases (str_eq e.page_url new.page_url)) [
  | inl page ↦ rw page (filter-no_ref op.ref e.ops (ground arith))
  | inr apart ↦ rw apart refl
]

pub ops_at-merge_entries :
    (now : String) (new : Edit) (op : Op) (es es' : List Edit)
    → merge_entries now new op es ≡ some es'
    → (ops_at new.page_url op.ref es' ≡ merge_first op (ops_at new.page_url op.ref es))
      × (ops_at new.page_url op.ref es ≢ [])
unfolding merge_entries
ops_at-merge_entries now new op [] es' h = cc
ops_at-merge_entries now new op (e ∷ es) es' h = elim (Bool-cases (takes new op e)) [
  | inl t ↦
      let same : es' ≡ refresh now new op e ∷ es = ground arith in
      let (merged, full) = ops_in-refresh now new op e t in
      let mine = ops_in new.page_url op.ref e in
      let others = ops_at new.page_url op.ref es in
      (
        ap (ops_at new.page_url op.ref) same
            ∙ ap (λ (xs : List Op). xs ++ others) merged
            ∙ sym (merge_first-append op mine others full),
        append-ne_nil mine others full,
      )
  | inr f ↦
      let empty = ops_in-untaken new op e f in
      elim (Option-cases (merge_entries now new op es)) [
        | inl n ↦ ground arith
        | inr (rest, m) ↦
            let same : es' ≡ e ∷ rest = ground arith in
            let (merged, full) = ops_at-merge_entries now new op es rest m in
            rw same (rw empty (merged, full))
      ]
]

pub ops_at-unmerged :
    (now : String) (new : Edit) (op : Op) (es : List Edit)
    → merge_entries now new op es ≡ none
    → ops_at new.page_url op.ref es ≡ []
unfolding merge_entries
ops_at-unmerged now new op [] h = refl
ops_at-unmerged now new op (e ∷ es) h = elim (Bool-cases (takes new op e)) [
  | inl t ↦ ground arith
  | inr f ↦ elim (Option-cases (merge_entries now new op es)) [
    | inl n ↦ rw (ops_in-untaken new op e f) (ops_at-unmerged now new op es n)
    | inr (rest, m) ↦ ground arith
  ]
]

pub ops_at-add_op :
    (now : String) (new : Edit) (op : Op) (es : List Edit)
    → ops_at new.page_url op.ref es ≡ []
    → ops_at new.page_url op.ref (add_op now new op es) ≡ op ∷ []
unfolding add_op
ops_at-add_op now new op [] h = rw (eq_refl new.page_url) (rw (eq_refl op.ref) refl)
ops_at-add_op now new op (e ∷ es) h =
    let (mine, others) =
      append-nil_of (ops_in new.page_url op.ref e) (ops_at new.page_url op.ref es) h in
    elim (Bool-cases (str_eq e.page_url new.page_url && str_eq e.id new.id)) [
      | inl t ↦
          let page : str_eq e.page_url new.page_url ≡ true = ground arith in
          let none_here : filter (λ o. str_eq o.ref op.ref) e.ops ≡ [] = ground arith in
          rw t (
            rw page (
              rw (filter-append op.ref e.ops (op ∷ []))
                (rw none_here (rw (eq_refl op.ref) (rw others refl)))))
      | inr f ↦ rw f (rw mine (ops_at-add_op now new op es others))
    ]

-- The operations of a page and a ref that are not those of the staged operation.
abbrev pub IsApart : Edit → Op → String → String → Type 0
IsApart new op page ref = (str_eq new.page_url page && str_eq op.ref ref) ≡ false

pub ops_in-refresh_apart :
    (now : String) (new : Edit) (op : Op) (e : Edit) (page ref : String)
    → IsApart new op page ref
    → str_eq e.page_url new.page_url ≡ true
    → ops_in page ref (refresh now new op e) ≡ ops_in page ref e
unfolding refresh
ops_in-refresh_apart now new op e page ref h p = elim (Bool-cases (str_eq e.page_url page)) [
  | inr k ↦ rw k refl
  | inl k ↦
      let same : str_eq new.page_url page ≡ true =
        ap (λ (x : String). str_eq x page) (sym ((eq_iff e.page_url new.page_url).0 p)) ∙ k in
      rw k (filter-merge_op_other op ref e.ops (ground (arith, h, same)))
]

pub ops_at-merge_entries_apart :
    (now : String) (new : Edit) (op : Op) (es es' : List Edit) (page ref : String)
    → IsApart new op page ref
    → merge_entries now new op es ≡ some es'
    → ops_at page ref es' ≡ ops_at page ref es
unfolding merge_entries
ops_at-merge_entries_apart now new op [] es' page ref h m = cc
ops_at-merge_entries_apart now new op (e ∷ es) es' page ref h m =
    elim (Bool-cases (takes new op e)) [
      | inl t ↦
          let same : es' ≡ refresh now new op e ∷ es = ground arith in
          ap (ops_at page ref) same
          ∙ ap (λ (xs : List Op). xs ++ ops_at page ref es)
              (ops_in-refresh_apart now new op e page ref h (ground arith))
      | inr f ↦ elim (Option-cases (merge_entries now new op es)) [
        | inl n ↦ ground arith
        | inr (rest, k) ↦
            let same : es' ≡ e ∷ rest = ground arith in
            ap (ops_at page ref) same
            ∙ ap (λ (xs : List Op). ops_in page ref e ++ xs)
                (ops_at-merge_entries_apart now new op es rest page ref h k)
      ]
    ]

pub ops_at-add_op_apart :
    (now : String) (new : Edit) (op : Op) (es : List Edit) (page ref : String)
    → IsApart new op page ref
    → ops_at page ref (add_op now new op es) ≡ ops_at page ref es
unfolding add_op
ops_at-add_op_apart now new op [] page ref h = ground arith
ops_at-add_op_apart now new op (e ∷ es) page ref h =
    elim (Bool-cases (str_eq e.page_url new.page_url && str_eq e.id new.id)) [
      | inl t ↦ rw t (ap (λ (xs : List Op). xs ++ ops_at page ref es) (in_entry (ground arith)))
      | inr f ↦ rw f (
          ap (λ (xs : List Op). ops_in page ref e ++ xs)
            (ops_at-add_op_apart now new op es page ref h))
    ]
  where
    in_entry :
        str_eq e.page_url new.page_url ≡ true
        → ops_in page ref (record e { ops = e.ops ++ op ∷ []; staged_at = now }) ≡ ops_in page ref e
    in_entry p = elim (Bool-cases (str_eq e.page_url page)) [
      | inr k ↦ rw k refl
      | inl k ↦
          let same : str_eq new.page_url page ≡ true =
            ap (λ (x : String). str_eq x page) (sym ((eq_iff e.page_url new.page_url).0 p)) ∙ k in
          rw k (
            filter-append ref e.ops (op ∷ [])
            ∙ ap (λ (xs : List Op). filter (λ o. str_eq o.ref ref) e.ops ++ xs)
                (filter-one_apart op ref (ground (arith, h, same)))
            ∙ append-nil (filter (λ o. str_eq o.ref ref) e.ops))
    ]
