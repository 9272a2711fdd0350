-- ===== src/Edits/Counts.antt =====
-- How many operations the buffer of manual edits has, and what a removal takes away
-- (live/manual-edits-buffer.mjs).
use agent_bus.Shared.{
  All, Bool, Bool-cases, List, String, [], ap, arith, eq_iff, false, if◌then◌else◌, inl, inr,
  length, ltb, ltb→lt, refl, str_eq, sym, true, ℕ, ◌+◌, ◌<◌, ◌∙◌, ◌∷◌, ◌≡◌,
}
use agent_bus.Edits.{
  BufferFile, Edit, add_count, count_by_page, count_from, op_count, read_buffer, remove_entries,
  remove_from, truncate_buffer,
}
use mathlib.Core.Bool.{false≢true}

-- `perPage[page]`, 0 for a page that is not there
abbrev pub count_of : String → List (String × ℕ) → ℕ
count_of page [] = 0
count_of page ((p, n) ∷ rest) = if str_eq p page then n else count_of page rest

-- The operations of the entries of a page.
abbrev pub page_count : String → List Edit → ℕ
page_count page [] = 0
page_count page (e ∷ es) = (if str_eq e.page_url page then length e.ops else 0) + page_count page es

count_of-add_count :
    (page p : String) (n : ℕ) (counts : List (String × ℕ))
    → count_of page (add_count p n counts) ≡ count_of page counts + (if str_eq p page then n else 0)
unfolding add_count
count_of-add_count page p n [] = ground arith
count_of-add_count page p n ((q, m) ∷ rest) = elim (Bool-cases (str_eq q p)) [
  | inl e ↦
      let same : str_eq q page ≡ str_eq p page =
        ap (λ (x : String). str_eq x page) ((eq_iff q p).0 e) in
      rw e (ground (arith, same))
  | inr e ↦ elim (Bool-cases (str_eq q page)) [
    | inl k ↦
        let apart : str_eq p page ≡ false = differs k e in rw e (rw k (rw apart (omega arith)))
    | inr k ↦ rw e (rw k (count_of-add_count page p n rest))
  ]
]
  where
    differs : str_eq q page ≡ true → str_eq q p ≡ false → str_eq p page ≡ false
    differs k e = elim (Bool-cases (str_eq p page)) [
      | inr f ↦ f
      | inl t ↦
          absurd
            (false≢true (sym e ∙ (eq_iff q p).1 ((eq_iff q page).0 k ∙ sym ((eq_iff p page).0 t))))
    ]

count_from-count_of :
    (page : String) (total : ℕ) (counts : List (String × ℕ)) (es : List Edit)
    → count_of page (count_from (total, counts) es).1 ≡ count_of page counts + page_count page es
unfolding count_from
count_from-count_of page total counts [] = omega arith
count_from-count_of page total counts (e ∷ es) = omega (
  arith,
  count_from-count_of page (total + length e.ops) (add_count e.page_url (length e.ops) counts) es,
  count_of-add_count page e.page_url (length e.ops) counts,
)

count_from_total :
    (total : ℕ) (counts : List (String × ℕ)) (es : List Edit)
    → (count_from (total, counts) es).0 ≡ total + op_count es
unfolding count_from op_count
count_from_total total counts [] = omega arith
count_from_total total counts (e ∷ es) =
    omega (
      arith,
      count_from_total (total + length e.ops) (add_count e.page_url (length e.ops) counts) es,
    )

-- The counts by page: the count of every page is the number of operations in the entries of that
-- page, and the total is what a truncation of the buffer reports as removed.
pub count_by_page_lem :
    (file : BufferFile) (page : String)
    → (count_of page (count_by_page file).1 ≡ page_count page (read_buffer file))
      × ((count_by_page file).0 ≡ (truncate_buffer file).0)
unfolding count_by_page truncate_buffer
count_by_page_lem file page = (
  omega (arith, count_from-count_of page 0 [] (read_buffer file)),
  omega (arith, count_from_total 0 [] (read_buffer file)),
)

remove_from-op_count :
    (test : Edit → Bool) (es : List Edit)
    → (remove_from test es).0 + op_count (remove_from test es).1 ≡ op_count es
unfolding remove_from op_count
remove_from-op_count test [] = refl
remove_from-op_count test (e ∷ es) = ground (arith, remove_from-op_count test es)

remove_from_kept :
    (test : Edit → Bool) (es : List Edit)
    → All (λ e. (test e ≡ false) × (0 < length e.ops)) (remove_from test es).1
unfolding remove_from
remove_from_kept test [] = tt
remove_from_kept test (e ∷ es) = elim (Bool-cases (test e)) [
  | inl t ↦ rw t (remove_from_kept test es)
  | inr f ↦ elim (Bool-cases (ltb 0 (length e.ops))) [
    | inl k ↦ rw f (rw k ((f, ltb→lt 0 (length e.ops) k), remove_from_kept test es))
    | inr k ↦ rw f (rw k (remove_from_kept test es))
  ]
]

-- A removal accounts for every operation: those that it reports as removed and those that stay are
-- all that there were. What stays fails the test and is not empty.
pub remove_entries_lem :
    (test : Edit → Bool) (file : BufferFile)
    → ((remove_entries test file).0 + op_count (read_buffer (remove_entries test file).1)
        ≡ op_count (read_buffer file))
      × All (λ e. (test e ≡ false) × (0 < length e.ops)) (read_buffer (remove_entries test file).1)
unfolding remove_entries read_buffer
remove_entries_lem test file =
    (remove_from-op_count test (read_buffer file), remove_from_kept test (read_buffer file))
