-- ===== src/Browser/Revisions.antt =====
-- The revisions that a page hands out, over any calls and whatever its storage refuses
-- (live-browser-session.js).
use agent_bus.Browser.{
  Access, Page, clear_handled, clear_scroll_y, clear_session, has_session_id, load_parsed,
  load_session, mark_handled, next_checkpoint_revision, raise_revision, safe_read, save_existing,
  save_session, seed_checkpoint_revision, write_scroll_y,
}
use agent_bus.Shared.{
  Bool-cases, List, Num, Option, String, Value, [], arith, inl, inr, none, refl, some, ℕ, ◌++◌, ◌+◌,
  ◌<◌, ◌∷◌, ◌≡◌, ◌≤◌, str_eq,
}
use agent_bus.Validation.{get}
use mathlib.Core.Path.{subst}

-- A call of the overlay, with what the storage lets it do.
pub data Call : Type 0 where
  saves : Access → Value → Call
  loads : Access → Call
  clears : Access → Call
  nexts : Access → Call
  seeds : Option Value → Call
  marks : Access → String → Call
  unmarks : Access → Call
  scrolls : Access → String → Call
  unscrolls : Access → Call

-- The revision that a call hands out, and the page.
unfoldable pub perform : Call → Page → List ℕ × Page
perform (saves a v) p = ([], save_session a v p)
perform (loads a) p = ([], (load_session a p).1)
perform (clears a) p = ([], clear_session a p)
perform (nexts a) p = let (n, q) = next_checkpoint_revision a p in (n ∷ [], q)
perform (seeds v) p = ([], seed_checkpoint_revision v p)
perform (marks a id) p = ([], mark_handled a id p)
perform (unmarks a) p = ([], clear_handled a p)
perform (scrolls a y) p = ([], write_scroll_y a y p)
perform (unscrolls a) p = ([], clear_scroll_y a p)

unfoldable pub perform_all : List Call → Page → List ℕ × Page
unfolding perform
perform_all [] p = ([], p)
perform_all (c ∷ cs) p =
    let (ns, q) = perform c p in let (ms, s) = perform_all cs q in (ns ++ ms, s)

-- Every number is greater than the one before it, and than the bound.
abbrev pub IsAscending : ℕ → List ℕ → Type 0
IsAscending n [] = Unit
IsAscending n (m ∷ ms) = (n < m) × IsAscending m ms

raise_revision-le : (v : Option Value) (n : ℕ) → n ≤ raise_revision v n
unfolding raise_revision
raise_revision-le none n = omega arith
raise_revision-le (some (Value.num (Num.nat m))) n = omega arith
raise_revision-le (some (Value.num (Num.frac m))) n = omega arith
raise_revision-le (some (Value.num (Num.below_zero b))) n = omega arith
raise_revision-le (some (Value.num Num.infinity)) n = omega arith
raise_revision-le (some (Value.num Num.minus_infinity)) n = omega arith
raise_revision-le (some (Value.num Num.nan)) n = omega arith
raise_revision-le (some (Value.obj fields)) n = omega arith
raise_revision-le (some (Value.arr items)) n = omega arith
raise_revision-le (some (Value.str s)) n = omega arith
raise_revision-le (some (Value.bool b)) n = omega arith
raise_revision-le (some Value.null) n = omega arith

IsAscending-le : (m n : ℕ) (xs : List ℕ) → m ≤ n → IsAscending n xs → IsAscending m xs
IsAscending-le m n [] h k = tt
IsAscending-le m n (x ∷ xs) h k = (le_lt m n x h k.0, k.1)
  where
    le_lt : (a b c : ℕ) → a ≤ b → b < c → a < c
    le_lt a b c r t = omega arith

load_parsed-le :
    (v : Value) (p : Page) → p.checkpoint_revision ≤ (load_parsed v p).1.checkpoint_revision
unfolding load_parsed
load_parsed-le Value.null p = omega arith
load_parsed-le (Value.obj fields) p =
    raise_revision-le (get "checkpointRevision" (Value.obj fields)) p.checkpoint_revision
load_parsed-le (Value.arr items) p =
    raise_revision-le (get "checkpointRevision" (Value.arr items)) p.checkpoint_revision
load_parsed-le (Value.str s) p =
    raise_revision-le (get "checkpointRevision" (Value.str s)) p.checkpoint_revision
load_parsed-le (Value.num n) p =
    raise_revision-le (get "checkpointRevision" (Value.num n)) p.checkpoint_revision
load_parsed-le (Value.bool b) p =
    raise_revision-le (get "checkpointRevision" (Value.bool b)) p.checkpoint_revision

load_session-le :
    (a : Access) (p : Page) → p.checkpoint_revision ≤ (load_session a p).1.checkpoint_revision
unfolding load_session
load_session-le a p = by_item (safe_read a p.storage.session_item)
  where
    by_item :
        (o : Option (Option Value))
        → p.checkpoint_revision
          ≤ (elim o as (λ x. Option Value × Page) [
            | none ↦ (none, p)
            | some none ↦ (none, p)
            | some (some v) ↦ load_parsed v p
          ]).1.checkpoint_revision
    by_item none = omega arith
    by_item (some none) = omega arith
    by_item (some (some v)) = load_parsed-le v p

pub save_session-revision :
    (a : Access) (v : Value) (p : Page)
    → (save_session a v p).checkpoint_revision ≡ p.checkpoint_revision
unfolding save_session
save_session-revision a v p = elim (Bool-cases (has_session_id v)) [
  | inl e ↦ rw e refl
  | inr e ↦ rw e refl
]

mark_handled-revision :
    (a : Access) (id : String) (p : Page)
    → (mark_handled a id p).checkpoint_revision ≡ p.checkpoint_revision
unfolding mark_handled
mark_handled-revision a id p = elim (Bool-cases (str_eq id "")) [
  | inl e ↦ rw e refl
  | inr e ↦ rw e refl
]

save_existing-revision :
    (a : Access) (r : Option Value × Page)
    → (save_existing a r).checkpoint_revision ≡ r.1.checkpoint_revision
save_existing-revision a (none, p) = refl
save_existing-revision a (some v, p) = elim (Bool-cases (has_session_id v)) [
  | inl e ↦ rw e (save_session-revision a v p)
  | inr e ↦ rw e refl
]

pub next_checkpoint_revision-lt :
    (a : Access) (p : Page) → p.checkpoint_revision < (next_checkpoint_revision a p).0
unfolding next_checkpoint_revision
next_checkpoint_revision-lt a p =
    let next = record p { checkpoint_revision = p.checkpoint_revision + 1 } in
    omega (arith, save_existing-revision a (load_session a next), load_session-le a next)

-- A call keeps the counter or raises it, and hands out only what it raises it to.
perform-IsAscending :
    (c : Call) (p : Page) (ms : List ℕ)
    → IsAscending (perform c p).1.checkpoint_revision ms
    → IsAscending p.checkpoint_revision ((perform c p).0 ++ ms)
unfolding perform clear_session mark_handled clear_handled write_scroll_y clear_scroll_y
    seed_checkpoint_revision next_checkpoint_revision
perform-IsAscending (saves a v) p ms h =
    subst (λ n. IsAscending n ms) (save_session-revision a v p) h
perform-IsAscending (loads a) p ms h = IsAscending-le _ _ ms (load_session-le a p) h
perform-IsAscending (clears a) p ms h = h
perform-IsAscending (nexts a) p ms h = (next_checkpoint_revision-lt a p, h)
perform-IsAscending (seeds v) p ms h =
    IsAscending-le _ _ ms (raise_revision-le v p.checkpoint_revision) h
perform-IsAscending (marks a id) p ms h =
    subst (λ n. IsAscending n ms) (mark_handled-revision a id p) h
perform-IsAscending (unmarks a) p ms h = h
perform-IsAscending (scrolls a y) p ms h = h
perform-IsAscending (unscrolls a) p ms h = h

-- Whatever a page loads, saves, seeds and clears, and whatever its storage refuses in between, every
-- checkpoint revision that it hands out is greater than all before it and than the one it began with.
pub perform_all-IsAscending :
    (calls : List Call) (p : Page) → IsAscending p.checkpoint_revision (perform_all calls p).0
unfolding perform_all
perform_all-IsAscending [] p = tt
perform_all-IsAscending (c ∷ cs) p =
    perform-IsAscending c p _ (perform_all-IsAscending cs (perform c p).1)
