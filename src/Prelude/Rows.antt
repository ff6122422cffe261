-- ===== src/Prelude/Rows.antt =====
-- Lemmas on the rows of a table: predicates on every row, and rows that a key tells apart, under
-- inserts, `UPDATE` and `DELETE`.
use mathlib.Core.Path.{◌≡◌, refl, sym, ap, subst, ◌∙◌}
use mathlib.Core.Logic.{◌≢◌, inl, inr}
use mathlib.Core.Bool.{Bool, true, false}
use mathlib.Core.Option.{none, some}
use mathlib.Core.List.{List, [], ◌∷◌, ◌++◌, Memᴰ}
use native.Mathlib.Omega.{arith}
use backitup.Prelude.Equality.{Eq, ◌==◌, Bool-cases}
use backitup.Prelude.Lists.{All, any, find, select, update}

module _ {ℓ κ} {A : Type ℓ} (P : A → Type κ) where
  pub All-snoc : (xs : List A) (a : A) → All P xs → P a → All P (xs ++ a ∷ [])
  All-snoc [] a h p = (p, tt)
  All-snoc (x ∷ xs) a h p = (h.0, All-snoc xs a h.1 p)

  pub All-select : (p : A → Bool) (xs : List A) → All P xs → All P (select p xs)
  All-select p [] h = tt
  All-select p (x ∷ xs) h = elim (Bool-cases (p x)) [
    | inl e ↦ rw e (h.0, All-select p xs h.1)
    | inr e ↦ rw e (All-select p xs h.1)
  ]

  pub All-update :
      (p : A → Bool) (f : A → A) (xs : List A)
      → ((x : A) → P x → P (f x))
      → All P xs
      → All P (update p f xs)
  All-update p f [] keep h = tt
  All-update p f (x ∷ xs) keep h = elim (Bool-cases (p x)) [
    | inl e ↦ rw e (keep x h.0, All-update p f xs keep h.1)
    | inr e ↦ rw e (h.0, All-update p f xs keep h.1)
  ]

  pub All-mono {μ} : (Q : A → Type μ) (xs : List A) → ((x : A) → P x → Q x) → All P xs → All Q xs
  All-mono Q [] f h = tt
  All-mono Q (x ∷ xs) f h = (f x h.0, All-mono Q xs f h.1)

-- What every selected row meets.
pub All-select_self {ℓ} :
    {A : Type ℓ} (p : A → Bool) (xs : List A) → All (λ x. p x ≡ true) (select p xs)
All-select_self p [] = tt
All-select_self p (x ∷ xs) = elim (Bool-cases (p x)) [
  | inl e ↦ rw e (e, All-select_self p xs)
  | inr e ↦ rw e (All-select_self p xs)
]

module _ {ℓ κ} {A : Type ℓ} {K : Type κ} (key : A → K) where
  -- No two rows have one key.
  abbrev pub DistinctBy : List A → Type κ
  DistinctBy [] = Unit
  DistinctBy (x ∷ xs) = All (λ y. key y ≢ key x) xs × DistinctBy xs

  pub DistinctBy-snoc :
      (xs : List A) (a : A)
      → DistinctBy xs
      → All (λ y. key y ≢ key a) xs
      → DistinctBy (xs ++ a ∷ [])
  DistinctBy-snoc [] a d h = (tt, tt)
  DistinctBy-snoc (x ∷ xs) a d h =
      (All-snoc (λ y. key y ≢ key x) xs a d.0 (λ e. h.0 (sym e)), DistinctBy-snoc xs a d.1 h.1)

  pub DistinctBy-select : (p : A → Bool) (xs : List A) → DistinctBy xs → DistinctBy (select p xs)
  DistinctBy-select p [] d = tt
  DistinctBy-select p (x ∷ xs) d = elim (Bool-cases (p x)) [
    | inl e ↦ rw e (All-select (λ y. key y ≢ key x) p xs d.0, DistinctBy-select p xs d.1)
    | inr e ↦ rw e (DistinctBy-select p xs d.1)
  ]

  pub DistinctBy-update :
      (p : A → Bool) (f : A → A) (xs : List A)
      → ((x : A) → key (f x) ≡ key x)
      → DistinctBy xs
      → DistinctBy (update p f xs)
  DistinctBy-update p f [] same d = tt
  DistinctBy-update p f (x ∷ xs) same d =
      let rest = DistinctBy-update p f xs same d.1 in
      let apart = All-update (λ y. key y ≢ key x) p f xs (λ y n. rw (same y) n) d.0 in
      elim (Bool-cases (p x)) [ inl e ↦ rw (e, same x) (apart, rest) | inr e ↦ rw e (apart, rest) ]

  pub All-ne_of_any :
      ⦃e : Eq K⦄ (k : K) (xs : List A) → any (λ y. key y == k) xs ≡ false → All (λ y. key y ≢ k) xs
  All-ne_of_any k [] h = tt
  All-ne_of_any k (x ∷ xs) h = (λ e. ground arith, All-ne_of_any k xs (ground arith))

module _ {ℓ} {A : Type ℓ} where
  pub any-update :
      (q p : A → Bool) (f : A → A) (xs : List A)
      → ((x : A) → q (f x) ≡ q x)
      → any q (update p f xs) ≡ any q xs
  any-update q p f [] same = refl
  any-update q p f (x ∷ xs) same = ground (arith, same x, any-update q p f xs same)

  pub any-append : (q : A → Bool) (xs ys : List A) → any q xs ≡ true → any q (xs ++ ys) ≡ true
  any-append q [] ys h = cc
  any-append q (x ∷ xs) ys h = ground (arith, any-append q xs ys)

  -- Rows that a test never selects are still there after a `DELETE` by that test.
  pub any-select :
      (q p : A → Bool) (xs : List A)
      → ((x : A) → q x ≡ true → p x ≡ true)
      → any q (select p xs) ≡ any q xs
  any-select q p [] h = refl
  any-select q p (x ∷ xs) h = ground (arith, h x, any-select q p xs h)

  pub any_of_Mem : (p : A → Bool) (xs : List A) (a : A) → Memᴰ a xs → p a ≡ true → any p xs ≡ true
  any_of_Mem p [] a m h = elim m [ ]
  any_of_Mem p (x ∷ xs) a (Memᴰ.head same) h = rw (← same, h) refl
  any_of_Mem p (x ∷ xs) a (Memᴰ.tail m) h = ground (arith, any_of_Mem p xs a m h)

  pub Mem-update :
      (p : A → Bool) (f : A → A) (xs : List A) (a : A)
      → Memᴰ a xs
      → p a ≡ true
      → Memᴰ (f a) (update p f xs)
  Mem-update p f [] a m h = elim m [ ]
  Mem-update p f (x ∷ xs) a (Memᴰ.head same) h = rw (← same, h) (Memᴰ.head refl)
  Mem-update p f (x ∷ xs) a (Memᴰ.tail m) h = Memᴰ.tail (Mem-update p f xs a m h)

  -- What holds of the rows that an `UPDATE` touches, and of the others.
  pub All-update_cases {κ μ} :
      (P : A → Type κ) (Q : A → Type μ) (p : A → Bool) (f : A → A) (xs : List A)
      → ((x : A) → P x → p x ≡ true → Q (f x))
      → ((x : A) → P x → p x ≡ false → Q x)
      → All P xs
      → All Q (update p f xs)
  All-update_cases P Q p f [] yes_ no_ h = tt
  All-update_cases P Q p f (x ∷ xs) yes_ no_ h =
      let rest = All-update_cases P Q p f xs yes_ no_ h.1 in
      elim (Bool-cases (p x)) [
        | inl e ↦ rw e (yes_ x h.0 e, rest)
        | inr e ↦ rw e (no_ x h.0 e, rest)
      ]

  pub All-and {κ μ} :
      (P : A → Type κ) (Q : A → Type μ) (xs : List A)
      → All P xs
      → All Q xs
      → All (λ x. P x × Q x) xs
  All-and P Q [] h k = tt
  All-and P Q (x ∷ xs) h k = ((h.0, k.0), All-and P Q xs h.1 k.1)

  -- Of rows with distinct keys, one has the key of a row.
  pub All-only {κ} :
      {K : Type κ} (key : A → K) (xs : List A) (a : A)
      → DistinctBy key xs
      → Memᴰ a xs
      → All (λ x. key x ≡ key a → x ≡ a) xs
  All-only key [] a d m = elim m [ ]
  All-only key (x ∷ xs) a d (Memᴰ.head same) = (
    λ e. sym same,
    All-mono (λ y. key y ≢ key x) (λ y. key y ≡ key a → y ≡ a) xs
        (λ y n e. absurd (n (e ∙ ap key same))) d.0,
  )
  All-only key (x ∷ xs) a d (Memᴰ.tail m) =
      (λ e. absurd (apart xs d.0 m e), All-only key xs a d.1 m)
    where
      apart : (ys : List A) → All (λ y. key y ≢ key x) ys → Memᴰ a ys → key x ≢ key a
      apart [] h m e = elim m [ ]
      apart (y ∷ ys) h (Memᴰ.head same) e = h.0 (sym (e ∙ ap key same))
      apart (y ∷ ys) h (Memᴰ.tail m) e = apart ys h.1 m e

-- What a search finds passes its test, and where it finds nothing, no row does.
pub find-some : {A : Type 0} (p : A → Bool) (xs : List A) (a : A) → find p xs ≡ some a → p a ≡ true
find-some p [] a h = cc
find-some p (x ∷ xs) a h = elim (Bool-cases (p x)) [
  | inl e ↦ ground (arith, h, e)
  | inr e ↦ find-some p xs a (ground (arith, h, e))
]

pub find-none :
    {A : Type 0} (p : A → Bool) (xs : List A) → find p xs ≡ none → All (λ x. p x ≡ false) xs
find-none p [] h = tt
find-none p (x ∷ xs) h = elim (Bool-cases (p x)) [
  | inl e ↦ ground (arith, h, e)
  | inr e ↦ (e, find-none p xs (ground (arith, h, e)))
]

-- Every row is one of the rows.
pub All-Mem {ℓ} : {A : Type ℓ} (xs : List A) → All (λ x. Memᴰ x xs) xs
All-Mem [] = tt
All-Mem (x ∷ xs) = (
  Memᴰ.head refl,
  All-mono (λ y. Memᴰ y xs) (λ y. Memᴰ y (x ∷ xs)) xs (λ y m. Memᴰ.tail m) (All-Mem xs),
)

pub All_of_Mem {ℓ κ} :
    {A : Type ℓ} (P : A → Type κ) (xs : List A) (a : A) → Memᴰ a xs → All P xs → P a
All_of_Mem P [] a m h = elim m [ ]
All_of_Mem P (x ∷ xs) a (Memᴰ.head same) h = subst P (sym same) h.0
All_of_Mem P (x ∷ xs) a (Memᴰ.tail m) h = All_of_Mem P xs a m h.1
