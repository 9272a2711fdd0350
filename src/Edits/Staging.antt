-- ===== src/Edits/Staging.antt =====
-- Staging an edit in the buffer, seen as a map from pages and refs to operations
-- (live/manual-edits-buffer.mjs, stageEntry).
use agent_bus.Shared.{
  Bool-cases, List, Option-cases, String, [], ap, arith, eq_iff, filter, if◌then◌else◌, inl, inr,
  length, refl, some, str_eq, sym, ◌&&◌, ◌∙◌, ◌∷◌, ◌≡◌, ◌≤◌,
}
use agent_bus.Edits.{
  BufferFile, Edit, Op, absent, entries_of, merge_entries, read_buffer, stage_entry, stage_op,
  stage_ops,
}
use agent_bus.Edits.Merging.{
  IsApart, ops_at-add_op, ops_at-add_op_apart, ops_at-merge_entries, ops_at-merge_entries_apart,
  ops_at-unmerged,
}
use agent_bus.Edits.Keys.{merge_first, ops_at}
use mathlib.Core.Path.{subst}

-- One staged operation: at its own key, and at any other.
stage_op-same :
    (now : String) (new : Edit) (op : Op) (es : List Edit)
    → ops_at new.page_url op.ref (stage_op now new es op)
      ≡ merge_first op (ops_at new.page_url op.ref es)
unfolding stage_op
stage_op-same now new op es = elim (Option-cases (merge_entries now new op es)) [
  | inl n ↦
      let empty = ops_at-unmerged now new op es n in
      rw n (ops_at-add_op now new op es empty ∙ ap (merge_first op) (sym empty))
  | inr (es', m) ↦ rw m ((ops_at-merge_entries now new op es es' m).0)
]

stage_op-apart :
    (now : String) (new : Edit) (op : Op) (es : List Edit) (page ref : String)
    → IsApart new op page ref
    → ops_at page ref (stage_op now new es op) ≡ ops_at page ref es
unfolding stage_op
stage_op-apart now new op es page ref h = elim (Option-cases (merge_entries now new op es)) [
  | inl n ↦ rw n (ops_at-add_op_apart now new op es page ref h)
  | inr (es', m) ↦ rw m (ops_at-merge_entries_apart now new op es es' page ref h m)
]

-- A buffer that is a map: the operations of a Save are merged one after another.
abbrev pub merge_all : List Op → List Op → List Op
merge_all [] before = before
merge_all (op ∷ ops) before = merge_all ops (merge_first op before)

stage_ops-ops_at :
    (now : String) (new : Edit) (es : List Edit) (ops : List Op) (page ref : String)
    → ops_at page ref (stage_ops now new es ops) ≡ (
        if str_eq new.page_url page
        then merge_all (filter (λ o. str_eq o.ref ref) ops) (ops_at page ref es)
        else ops_at page ref es)
unfolding stage_ops
stage_ops-ops_at now new es [] page ref = ground arith
stage_ops-ops_at now new es (op ∷ ops) page ref =
    let ih = stage_ops-ops_at now new (stage_op now new es op) ops page ref in
    elim (Bool-cases (str_eq new.page_url page && str_eq op.ref ref)) [
      | inr f ↦ ground (arith, ih, stage_op-apart now new op es page ref f)
      | inl t ↦
          let one : ops_at page ref (stage_op now new es op) ≡ merge_first op (ops_at page ref es) =
            subst
              (λ (x : String).
                ops_at x ref (stage_op now new es op) ≡ merge_first op (ops_at x ref es))
              ((eq_iff new.page_url page).0 (ground arith))
              (subst
                (λ (y : String).
                  ops_at new.page_url y (stage_op now new es op)
                  ≡ merge_first op (ops_at new.page_url y es))
                ((eq_iff op.ref ref).0 (ground arith)) (stage_op-same now new op es)) in
          ground (arith, ih, one)
    ]

-- A Save that is staged merges its operations, in their order, into those that the buffer has of
-- the same page and ref, and leaves those of every other page and ref as they are. A merge puts the
-- new operation in the place of the first, whose original text it keeps.
pub stage_entry-ops_at :
    (now : String) (new : Edit) (file file' : BufferFile) (page ref : String)
    → stage_entry now new file ≡ some file'
    → ops_at page ref (read_buffer file') ≡ (
        if str_eq new.page_url page
        then merge_all (filter (λ o. str_eq o.ref ref) new.ops) (ops_at page ref (read_buffer file))
        else ops_at page ref (read_buffer file))
unfolding stage_entry read_buffer
stage_entry-ops_at now new absent file' page ref h =
    ap (λ (f : BufferFile). ops_at page ref (read_buffer f)) (written h)
    ∙ stage_ops-ops_at now new [] new.ops page ref
  where
    written :
        some (entries_of (stage_ops now new [] new.ops)) ≡ some file'
        → file' ≡ entries_of (stage_ops now new [] new.ops)
    written k = cc k
stage_entry-ops_at now new (entries_of es) file' page ref h =
    ap (λ (f : BufferFile). ops_at page ref (read_buffer f)) (written h)
    ∙ stage_ops-ops_at now new es new.ops page ref
  where
    written :
        some (entries_of (stage_ops now new es new.ops)) ≡ some file'
        → file' ≡ entries_of (stage_ops now new es new.ops)
    written k = cc k
stage_entry-ops_at now new _ file' page ref h = cc

-- The buffer has at most one operation for a page and a ref.
abbrev pub IsUnique : List Edit → Type 0
IsUnique es = (page ref : String) → length (ops_at page ref es) ≤ 1

merge_all-short : (ops before : List Op) → length before ≤ 1 → length (merge_all ops before) ≤ 1
merge_all-short [] before h = h
merge_all-short (op ∷ ops) [] h = merge_all-short ops (op ∷ []) (omega arith)
merge_all-short (op ∷ ops) (x ∷ xs) h = merge_all-short ops (merge_first op (x ∷ xs)) h

-- Staging keeps at most one operation for each page and ref.
pub stage_entry-IsUnique :
    (now : String) (new : Edit) (file file' : BufferFile)
    → stage_entry now new file ≡ some file'
    → IsUnique (read_buffer file)
    → IsUnique (read_buffer file')
stage_entry-IsUnique now new file file' h u page ref =
    let before = ops_at page ref (read_buffer file) in
    rw (stage_entry-ops_at now new file file' page ref h)
      (elim (Bool-cases (str_eq new.page_url page)) [
        | inl e ↦
            rw e (merge_all-short (filter (λ o. str_eq o.ref ref) new.ops) before (u page ref))
        | inr e ↦ rw e (u page ref)
      ])

merge_all-original :
    (ops : List Op) (x : Op) (xs : List Op)
    → (y : Op) × (merge_all ops (x ∷ xs) ≡ y ∷ xs) × (y.original_text ≡ x.original_text)
merge_all-original [] x xs = (x, refl, refl)
merge_all-original (op ∷ ops) x xs =
    merge_all-original ops (record op { original_text = x.original_text }) xs

-- Staging never loses the original text of a buffered operation, however often it is edited again.
pub stage_entry-keeps_original :
    (now : String) (new : Edit) (file file' : BufferFile) (page ref : String) (x : Op)
    (xs : List Op)
    → stage_entry now new file ≡ some file'
    → ops_at page ref (read_buffer file) ≡ x ∷ xs
    → (y : Op) × (ops_at page ref (read_buffer file') ≡ y ∷ xs)
      × (y.original_text ≡ x.original_text)
stage_entry-keeps_original now new file file' page ref x xs h e =
    elim (Bool-cases (str_eq new.page_url page)) [
      | inl p ↦
          let (y, m, o) = merge_all-original (filter (λ o. str_eq o.ref ref) new.ops) x xs in
          (y, stage_entry-ops_at now new file file' page ref h ∙ rw p (rw e m), o)
      | inr p ↦ (x, stage_entry-ops_at now new file file' page ref h ∙ rw p e, refl)
    ]
