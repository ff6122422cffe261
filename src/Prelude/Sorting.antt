-- ===== src/Prelude/Sorting.antt =====
-- `ORDER BY` and `sort.Slice`: insertion sort by a strict order. Rows that compare equal keep
-- their order.
pub mod Laws
use mathlib.Core.Bool.{Bool}
use mathlib.Core.Logic.{inl, inr}
use mathlib.Core.List.{List, [], ◌∷◌}
use backitup.Prelude.Equality.{if◌then◌else◌, Bool-cases}
use backitup.Prelude.Lists.{All}

module _ {ℓ} {A : Type ℓ} where
  insert_by : (A → A → Bool) → A → List A → List A
  insert_by lt x [] = x ∷ []
  insert_by lt x (y ∷ ys) = if lt y x then y ∷ insert_by lt x ys else x ∷ y ∷ ys

  unfoldable pub sort_by : (A → A → Bool) → List A → List A
  unfolding insert_by
  sort_by lt [] = []
  sort_by lt (x ∷ xs) = insert_by lt x (sort_by lt xs)

  insert_by-All {κ} :
      (P : A → Type κ) (lt : A → A → Bool) (x : A) (xs : List A)
      → P x
      → All P xs
      → All P (insert_by lt x xs)
  unfolding insert_by
  insert_by-All P lt x [] p h = (p, tt)
  insert_by-All P lt x (y ∷ ys) p h = elim (Bool-cases (lt y x)) [
    | inl e ↦ rw e (h.0, insert_by-All P lt x ys p h.1)
    | inr e ↦ rw e (p, h)
  ]

  -- A sort keeps what holds of every row.
  pub sort_by-All {κ} :
      (P : A → Type κ) (lt : A → A → Bool) (xs : List A) → All P xs → All P (sort_by lt xs)
  unfolding sort_by
  sort_by-All P lt [] h = tt
  sort_by-All P lt (x ∷ xs) h = insert_by-All P lt x (sort_by lt xs) h.0 (sort_by-All P lt xs h.1)
