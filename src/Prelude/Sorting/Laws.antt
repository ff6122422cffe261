-- ===== src/Prelude/Sorting/Laws.antt =====
-- What a sort keeps: its rows, the only row that a test finds, and the rows of each rank in their
-- order.
use Prim.Native.Nat.{ℕ, zero, suc, ◌+◌, ◌≤◌, ◌<◌}
use mathlib.Core.Path.{◌≡◌, refl, ap, ◌∙◌}
use mathlib.Core.Logic.{◌⊎◌, inl, inr}
use mathlib.Core.Bool.{Bool, true, false}
use mathlib.Core.Option.{none, some}
use mathlib.Core.List.{List, [], ◌∷◌, ◌++◌, Memᴰ, Permᴰ}
use mathlib.Core.List.Permᴰ
use native.Mathlib.Omega.{arith}
use backitup.Prelude.Equality.{ltb, ◌==◌, nat_eq, Bool-cases}
use backitup.Prelude.Lists.{All, find, select}
use backitup.Prelude.Rows.{All-mono}
use backitup.Prelude.Sorting.{insert_by, sort_by, sort_by-All, insert_by-All}

module _ {ℓ} {A : Type ℓ} (lt : A → A → Bool) where
  insert_by-Perm : (x : A) (ys : List A) → Permᴰ (insert_by lt x ys) (x ∷ ys)
  unfolding insert_by
  insert_by-Perm x [] = Permᴰ.refl (x ∷ [])
  insert_by-Perm x (y ∷ ys) = elim (Bool-cases (lt y x)) [
    | inl e ↦ rw e (Permᴰ.trans (Permᴰ.cons refl (insert_by-Perm x ys)) (Permᴰ.swap refl refl))
    | inr e ↦ rw e (Permᴰ.refl (x ∷ y ∷ ys))
  ]

  insert_by-cases :
      (x : A) (rows : List A)
      → ((rows ≡ []) × (insert_by lt x rows ≡ x ∷ []))
        ⊎ ((y : A) × (ys : List A) × (zs : List A) × (rows ≡ y ∷ ys)
            × (((lt y x ≡ true) × (insert_by lt x rows ≡ y ∷ zs))
                ⊎ ((lt y x ≡ false) × (insert_by lt x rows ≡ x ∷ zs))))
  unfolding insert_by
  insert_by-cases x [] = inl (refl, refl)
  insert_by-cases x (y ∷ ys) = elim (Bool-cases (lt y x)) [
    | inl e ↦ inr (y, ys, insert_by lt x ys, refl, inl (e, rw e refl))
    | inr e ↦ inr (y, ys, y ∷ ys, refl, inr (e, rw e refl))
  ]

  -- The first row behind a sort: the new row, or the first of the others where that sorts before it.
  pub sort_by-cases :
      (x : A) (xs : List A)
      → ((sort_by lt xs ≡ []) × (sort_by lt (x ∷ xs) ≡ x ∷ []))
        ⊎ ((y : A) × (ys : List A) × (zs : List A) × (sort_by lt xs ≡ y ∷ ys)
            × (((lt y x ≡ true) × (sort_by lt (x ∷ xs) ≡ y ∷ zs))
                ⊎ ((lt y x ≡ false) × (sort_by lt (x ∷ xs) ≡ x ∷ zs))))
  unfolding sort_by
  sort_by-cases x xs = insert_by-cases x (sort_by lt xs)

  -- A sort only moves rows.
  pub sort_by-Perm : (xs : List A) → Permᴰ (sort_by lt xs) xs
  unfolding sort_by
  sort_by-Perm [] = Permᴰ.nil
  sort_by-Perm (x ∷ xs) =
      Permᴰ.trans (insert_by-Perm x (sort_by lt xs)) (Permᴰ.cons refl (sort_by-Perm xs))

module _ {ℓ} {A : Type ℓ} where
  Mem-Perm : {a : A} {xs ys : List A} → Permᴰ xs ys → Memᴰ a xs → Memᴰ a ys
  Mem-Perm (Permᴰ.nil) m = m
  Mem-Perm (Permᴰ.cons e p) (Memᴰ.head h) = Memᴰ.head (h ∙ e)
  Mem-Perm (Permᴰ.cons e p) (Memᴰ.tail m) = Memᴰ.tail (Mem-Perm p m)
  Mem-Perm (Permᴰ.swap e f) (Memᴰ.head h) = Memᴰ.tail (Memᴰ.head (h ∙ e))
  Mem-Perm (Permᴰ.swap e f) (Memᴰ.tail (Memᴰ.head h)) = Memᴰ.head (h ∙ f)
  Mem-Perm (Permᴰ.swap e f) (Memᴰ.tail (Memᴰ.tail m)) = Memᴰ.tail (Memᴰ.tail m)
  Mem-Perm (Permᴰ.trans p q) m = Mem-Perm q (Mem-Perm p m)

  pub Mem-sort_by : {a : A} (lt : A → A → Bool) (xs : List A) → Memᴰ a (sort_by lt xs) → Memᴰ a xs
  Mem-sort_by lt xs m = Mem-Perm (sort_by-Perm lt xs) m

  pub Mem-find : (p : A → Bool) (xs : List A) (a : A) → find p xs ≡ some a → Memᴰ a xs
  Mem-find p [] a h = cc
  Mem-find p (x ∷ xs) a h = elim (Bool-cases (p x)) [
    | inl e ↦ Memᴰ.head (ground (arith, h, e))
    | inr e ↦ Memᴰ.tail (Mem-find p xs a (ground (arith, h, e)))
  ]

  -- What passes a test if only one row does.
  find_only :
      (p : A → Bool) (xs : List A) (a : A)
      → Memᴰ a xs
      → p a ≡ true
      → All (λ x. p x ≡ true → x ≡ a) xs
      → find p xs ≡ some a
  find_only p [] a m h only = elim m [ ]
  find_only p (x ∷ xs) a (Memᴰ.head same) h only = rw (← same, h) refl
  find_only p (x ∷ xs) a (Memᴰ.tail m) h only = elim (Bool-cases (p x)) [
    | inl e ↦ rw (e, only.0 e)
    | inr e ↦ rw e (find_only p xs a m h only.1)
  ]

  pub find-sort_by :
      (p : A → Bool) (lt : A → A → Bool) (xs : List A) (a : A)
      → Memᴰ a xs
      → p a ≡ true
      → All (λ x. p x ≡ true → x ≡ a) xs
      → find p (sort_by lt xs) ≡ some a
  find-sort_by p lt xs a m h only =
      find_only p (sort_by lt xs) a (Mem-Perm (Permᴰ.symm (sort_by-Perm lt xs)) m) h
        (sort_by-All (λ x. p x ≡ true → x ≡ a) lt xs only)

  find-none_of_All : (p : A → Bool) (xs : List A) → All (λ x. p x ≡ false) xs → find p xs ≡ none
  find-none_of_All p [] h = refl
  find-none_of_All p (x ∷ xs) h = rw (h.0, find-none_of_All p xs h.1)

  pub find-sort_by-none :
      (p : A → Bool) (lt : A → A → Bool) (xs : List A)
      → All (λ x. p x ≡ false) xs
      → find p (sort_by lt xs) ≡ none
  find-sort_by-none p lt xs h =
      find-none_of_All p (sort_by lt xs) (sort_by-All (λ x. p x ≡ false) lt xs h)

-- A stable sort by a rank, from small to large.
module _ {ℓ} {A : Type ℓ} (rank : A → ℕ) where
  abbrev pub by_rank : A → A → Bool
  by_rank a b = ltb (rank a) (rank b)

  abbrev pub IsRanked : List A → Type 0
  IsRanked [] = Unit
  IsRanked (x ∷ xs) = All (λ y. rank x ≤ rank y) xs × IsRanked xs

  insert_by-IsRanked : (x : A) (ys : List A) → IsRanked ys → IsRanked (insert_by by_rank x ys)
  unfolding insert_by
  insert_by-IsRanked x [] h = (tt, tt)
  insert_by-IsRanked x (y ∷ ys) h = elim (Bool-cases (by_rank y x)) [
    | inl e ↦ rw e (
      insert_by-All (λ z. rank y ≤ rank z) by_rank x ys (ground (arith, e)) h.0,
      insert_by-IsRanked x ys h.1,
    )
    | inr e ↦
        let le : rank x ≤ rank y = ground (arith, e) in
        rw e (
          (
            le,
            All-mono (λ z. rank y ≤ rank z) (λ z. rank x ≤ rank z) ys (λ z k. omega (arith, le, k))
                h.0,
          ),
          h,
        )
  ]

  pub sort_by-IsRanked : (xs : List A) → IsRanked (sort_by by_rank xs)
  unfolding sort_by
  sort_by-IsRanked [] = tt
  sort_by-IsRanked (x ∷ xs) = insert_by-IsRanked x (sort_by by_rank xs) (sort_by-IsRanked xs)

  select-insert_by :
      (r : ℕ) (x : A) (ys : List A)
      → select (λ z. rank z == r) (insert_by by_rank x ys) ≡ select (λ z. rank z == r) (x ∷ ys)
  unfolding insert_by
  select-insert_by r x [] = refl
  select-insert_by r x (y ∷ ys) = elim (Bool-cases (by_rank y x)) [
    | inl e ↦ rw (e, select-insert_by r x ys) (ground (arith, e))
    | inr e ↦ rw e refl
  ]

  -- The rows of one rank keep their order.
  pub select-sort_by :
      (r : ℕ) (xs : List A)
      → select (λ z. rank z == r) (sort_by by_rank xs) ≡ select (λ z. rank z == r) xs
  unfolding sort_by
  select-sort_by r [] = refl
  select-sort_by r (x ∷ xs) = select-insert_by r x (sort_by by_rank xs) ∙ rw (select-sort_by r xs)

  -- The rows of the ranks from one on, the rows of each rank in their order.
  abbrev pub buckets : ℕ → ℕ → List A → List A
  buckets zero k xs = []
  buckets (suc n) k xs = select (λ x. rank x == k) xs ++ buckets n (suc k) xs

  buckets-skip :
      (n k : ℕ) (x : A) (xs : List A) → rank x < k → buckets n k (x ∷ xs) ≡ buckets n k xs
  buckets-skip zero k x xs h = refl
  buckets-skip (suc n) k x xs h =
      let other : (rank x == k) ≡ false = ground (arith, h) in
      rw (other, buckets-skip n (suc k) x xs (omega arith)) refl

  select_above :
      (k : ℕ) (xs : List A) → All (λ x. k < rank x) xs → select (λ x. rank x == k) xs ≡ []
  select_above k [] h = refl
  select_above k (x ∷ xs) h = ground (arith, h.0, select_above k xs h.1)

  ranked-buckets :
      (n k : ℕ) (xs : List A)
      → IsRanked xs
      → All (λ x. k ≤ rank x) xs
      → All (λ x. rank x < k + n) xs
      → xs ≡ buckets n k xs
  ranked-buckets zero k [] r lo hi = refl
  ranked-buckets (suc n) k [] r lo hi = ranked-buckets n (suc k) [] tt tt tt
  ranked-buckets zero k (x ∷ xs) r lo hi = absurd (omega (arith, lo.0, hi.0))
  ranked-buckets (suc n) k (x ∷ xs) r lo hi = elim (Bool-cases (rank x == k)) [
    | inl e ↦
        let rest = ranked-buckets (suc n) k xs r.1 lo.1 hi.1 in
        rw (e, buckets-skip n (suc k) x xs (ground (arith, e))) (ap (λ ys. x ∷ ys) rest)
    | inr e ↦
        let above : k < rank x = ground (arith, e, lo.0) in
        let higher : All (λ y. k < rank y) xs =
          All-mono (λ y. rank x ≤ rank y) _ xs (λ y le. omega (arith, above, le)) r.0 in
        rw (e, select_above k xs higher)
          (ranked-buckets n (suc k) (x ∷ xs) r
            (omega (arith, above), All-mono (λ y. k < rank y) _ xs (λ y h. omega (arith, h)) higher)
            (
              omega (arith, hi.0),
              All-mono (λ y. rank y < k + suc n) _ xs (λ y h. omega (arith, h)) hi.1,
            ))
  ]

  buckets-sort_by : (n k : ℕ) (xs : List A) → buckets n k (sort_by by_rank xs) ≡ buckets n k xs
  buckets-sort_by zero k xs = refl
  buckets-sort_by (suc n) k xs = rw (select-sort_by k xs, buckets-sort_by n (suc k) xs) refl

  -- A sort by ranks below a bound puts the rows of each rank behind those of the lower ones.
  pub sort_by-buckets :
      (n : ℕ) (xs : List A) → All (λ x. rank x < n) xs → sort_by by_rank xs ≡ buckets n 0 xs
  sort_by-buckets n xs h =
      ranked-buckets n 0 (sort_by by_rank xs) (sort_by-IsRanked xs)
        (sort_by-All (λ x. 0 ≤ rank x) by_rank xs (lowest xs))
        (sort_by-All (λ x. rank x < 0 + n) by_rank xs
          (All-mono (λ x. rank x < n) _ xs (λ x b. omega (arith, b)) h))
      ∙ buckets-sort_by n 0 xs
    where
      lowest : (ys : List A) → All (λ x. 0 ≤ rank x) ys
      lowest [] = tt
      lowest (y ∷ ys) = (omega arith, lowest ys)
