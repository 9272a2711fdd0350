-- ===== src/Roll.antt =====
-- lib/roll-selection.mjs: which worlds and compositions a roll of the catalog deals. A generator
-- that yields a batch of texts and is resumed with their digests is a function of the hash here.
pub mod Compositions
pub mod Challengers
pub mod Ranks
use Prim.Native.String.{◌++◌ as join}
use Prim.Native.Nat.{Ordering}
use agent_bus.Shared.{
  Bool, List, Option, String, [], any, false, filter, if◌then◌else◌, map, none, some, str_eq, true,
  ℕ, ◌==◌, ◌∷◌,
}

-- A reviewed entry of the catalog: a world (concept) or a composition. `breadth`, `rating` and
-- `allowed_modes` are fields of its review, `platforms` and `allowed_modes` are `none` where they are
-- no array.
pub record Candidate : Type 0 where
  pub id : String
  pub status : String
  pub breadth : Option String
  pub rating : Option ℕ
  pub allowed_modes : Option (List String)
  pub family_id : Option String
  pub well_tier : Option String
  pub strength : Option String
  pub surface : Option String
  pub grain : Option String
  pub platforms : Option (List String)

-- A copy of a candidate in the draw.
pub record Ticket : Type 0 where
  pub candidate : Candidate
  pub number : ℕ

-- `value === text` for a text that may be absent
abbrev pub is_text : String → Option String → Bool
is_text s none = false
is_text s (some t) = str_eq t s

abbrev pub is_number : ℕ → Option ℕ → Bool
is_number n none = false
is_number n (some m) = m == n

abbrev pub is_approved : Candidate → Bool
is_approved c = str_eq c.status "approved"

abbrev pub is_niche : Candidate → Bool
is_niche c = is_text "niche" c.breadth

abbrev pub has_id : String → List Candidate → Bool
has_id id cs = any (λ c. str_eq c.id id) cs

abbrev pub is_empty {ℓ} : {A : Type ℓ} → List A → Bool
is_empty [] = true
is_empty (x ∷ xs) = false

-- The pool narrowed by a test, unless that would empty it.
abbrev pub narrow : (Candidate → Bool) → List Candidate → List Candidate
narrow test pool = if is_empty (filter test pool) then pool else filter test pool

-- A ticket, or two for the rating 3.
abbrev pub tickets_of : Candidate → List Ticket
tickets_of c =
    if is_number 3 c.rating
    then record { candidate = c; number = 0 } ∷ record { candidate = c; number = 1 } ∷ []
    else record { candidate = c; number = 0 } ∷ []

abbrev pub one_ticket : Candidate → Ticket
one_ticket c = record { candidate = c; number = 0 }

-- What the selection takes from the runtime: the digest, `localeCompare` by its sign, and how a
-- number is printed.
pub record Runtime : Type 0 where
  pub hash : String → String
  pub locale_compare : String → String → Ordering
  pub print_number : ℕ → String

-- An item with its id and its digest.
pub record Scored {ℓ} (A : Type ℓ) : Type ℓ where
  pub item : A
  pub id : String
  pub score : String

module _ (r : Runtime) where
  -- `b.score.localeCompare(a.score) || a.id.localeCompare(b.id)` is not positive.
  unfoldable pub ranks_before {ℓ} : {A : Type ℓ} → Scored A → Scored A → Bool
  ranks_before a b = elim (r.locale_compare b.score a.score) [
    | Ordering.lt ↦ true
    | Ordering.gt ↦ false
    | Ordering.eq ↦ elim (r.locale_compare a.id b.id) [ Ordering.gt ↦ false | _ ↦ true ]
  ]

  unfoldable pub insert_ranked {ℓ} : {A : Type ℓ} → Scored A → List (Scored A) → List (Scored A)
  insert_ranked x [] = x ∷ []
  insert_ranked x (y ∷ ys) =
      let rest = insert_ranked x ys in if ranks_before x y then x ∷ y ∷ ys else y ∷ rest

  -- The `sort` of rank, as an insertion sort: it keeps equal items in their order.
  unfoldable pub sort_ranked {ℓ} : {A : Type ℓ} → List (Scored A) → List (Scored A)
  unfolding insert_ranked
  sort_ranked [] = []
  sort_ranked (x ∷ xs) = insert_ranked x (sort_ranked xs)

  -- rank
  unfoldable pub rank {ℓ} : {A : Type ℓ} → (A → String) → List A → String → List A
  unfolding sort_ranked
  rank id_for items input =
      map (λ s. s.item)
        (sort_ranked (
          map
            (λ item. record {
              item = item;
              id = id_for item;
              score = r.hash (join input (join ":" (id_for item)));
            })
            items))

  -- `${id}#${ticket}`
  abbrev pub ticket_id : Ticket → String
  ticket_id t = join t.candidate.id (join "#" (r.print_number t.number))
