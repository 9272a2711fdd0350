-- ===== src/Edits/Keys.antt =====
-- The operations of a page and a ref in the buffer of manual edits
-- (live/manual-edits-buffer.mjs).
use agent_bus.Shared.{
  Bool-cases, List, String, [], ap, arith, eq_iff, eq_refl, false, filter, if◌then◌else◌, inl, inr,
  refl, str_eq, true, ◌++◌, ◌∙◌, ◌∷◌, ◌≡◌, ◌≢◌,
}
use agent_bus.Edits.{Edit, Op, has_ref, merge_op}

-- The operations of a page and a ref, in the order of the buffer.
abbrev pub ops_at : String → String → List Edit → List Op
ops_at page ref [] = []
ops_at page ref (e ∷ es) =
    (if str_eq e.page_url page then filter (λ o. str_eq o.ref ref) e.ops else [])
    ++ ops_at page ref es

-- The operation in the place of the first, whose original text it keeps.
abbrev pub merge_first : Op → List Op → List Op
merge_first new [] = new ∷ []
merge_first new (o ∷ os) = record new { original_text = o.original_text } ∷ os

pub merge_first-append :
    (op : Op) (xs ys : List Op) → xs ≢ [] → merge_first op (xs ++ ys) ≡ merge_first op xs ++ ys
merge_first-append op [] ys h = absurd (h refl)
merge_first-append op (x ∷ xs) ys h = refl

pub filter-has_ref :
    (ref : String) (ops : List Op)
    → has_ref ref ops ≡ true
    → filter (λ o. str_eq o.ref ref) ops ≢ []
filter-has_ref ref [] h = cc
filter-has_ref ref (o ∷ os) h = elim (Bool-cases (str_eq o.ref ref)) [
  | inl e ↦ rw e (λ k. cc)
  | inr e ↦ rw e (filter-has_ref ref os (ground arith))
]

pub filter-no_ref :
    (ref : String) (ops : List Op)
    → has_ref ref ops ≡ false
    → filter (λ o. str_eq o.ref ref) ops ≡ []
filter-no_ref ref [] h = refl
filter-no_ref ref (o ∷ os) h = elim (Bool-cases (str_eq o.ref ref)) [
  | inl e ↦ ground (arith, e)
  | inr e ↦ rw e (filter-no_ref ref os (ground arith))
]

pub filter-merge_op :
    (op : Op) (ops : List Op)
    → has_ref op.ref ops ≡ true
    → filter (λ o. str_eq o.ref op.ref) (merge_op op ops)
      ≡ merge_first op (filter (λ o. str_eq o.ref op.ref) ops)
unfolding merge_op
filter-merge_op op [] h = cc
filter-merge_op op (o ∷ os) h = elim (Bool-cases (str_eq o.ref op.ref)) [
  | inl e ↦ rw e (rw (eq_refl op.ref) refl)
  | inr e ↦ rw e (rw e (filter-merge_op op os (ground arith)))
]

pub filter-merge_op_other :
    (op : Op) (ref : String) (ops : List Op)
    → str_eq op.ref ref ≡ false
    → filter (λ o. str_eq o.ref ref) (merge_op op ops) ≡ filter (λ o. str_eq o.ref ref) ops
unfolding merge_op
filter-merge_op_other op ref [] h = refl
filter-merge_op_other op ref (o ∷ os) h = elim (Bool-cases (str_eq o.ref op.ref)) [
  | inl e ↦
      let apart : str_eq o.ref ref ≡ false =
        ap (λ (s : String). str_eq s ref) ((eq_iff o.ref op.ref).0 e) ∙ h in
      rw e (ground (arith, apart, h))
  | inr e ↦ rw e (ground (arith, filter-merge_op_other op ref os h))
]

pub append-ne_nil : (xs ys : List Op) → xs ≢ [] → xs ++ ys ≢ []
append-ne_nil [] ys h k = h refl
append-ne_nil (x ∷ xs) ys h k = cc

-- What one entry has of a page and a ref.
abbrev pub ops_in : String → String → Edit → List Op
ops_in page ref e = if str_eq e.page_url page then filter (λ o. str_eq o.ref ref) e.ops else []

pub filter-append :
    (ref : String) (xs ys : List Op)
    → filter (λ o. str_eq o.ref ref) (xs ++ ys)
      ≡ filter (λ o. str_eq o.ref ref) xs ++ filter (λ o. str_eq o.ref ref) ys
filter-append ref [] ys = refl
filter-append ref (x ∷ xs) ys = elim (Bool-cases (str_eq x.ref ref)) [
  | inl e ↦ rw e (rw (filter-append ref xs ys) refl)
  | inr e ↦ rw e (filter-append ref xs ys)
]

pub append-nil_of : (xs ys : List Op) → xs ++ ys ≡ [] → (xs ≡ []) × (ys ≡ [])
append-nil_of [] ys h = (refl, h)
append-nil_of (x ∷ xs) ys h = cc

pub filter-one_apart :
    (op : Op) (ref : String)
    → str_eq op.ref ref ≡ false
    → filter (λ o. str_eq o.ref ref) (op ∷ []) ≡ []
filter-one_apart op ref h = rw h refl
