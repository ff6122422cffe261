-- ===== src/Model/Slug/Laws.antt =====
-- What `Slug` guarantees of a directory name, and what it does not: it is not injective.
use backitup.Prelude.{
  ℕ, ◌≡◌, refl, sym, ap, ◌∙◌, ◌≢◌, ◌⊎◌, inl, inr, Bool, true, false, [], ◌∷◌, ◌++◌, Text, arith,
  nat_eq, All, length, length-append, ◌≤◌,
}
use backitup.Model.Slug.{hyphen, to_lower, is_alnum, slug_loop, trim_right, slug}

-- Letters and digits, with single hyphens between them: `prev` says that a hyphen, or the start,
-- stands before.
abbrev pub IsTidy : Bool → Text → Type 0
IsTidy prev [] = Unit
IsTidy prev (c ∷ cs) =
    ((is_alnum c ≡ true) × IsTidy false cs) ⊎ ((c ≡ hyphen) × (prev ≡ false) × IsTidy true cs)

slug_loop-IsTidy : (prev : Bool) (name : Text) → IsTidy prev (slug_loop prev name)
unfolding slug_loop
slug_loop-IsTidy prev [] = tt
slug_loop-IsTidy prev (r ∷ rs) = ground (arith, slug_loop-IsTidy true rs, slug_loop-IsTidy false rs)

to_lower-alnum : (c : ℕ) → is_alnum c ≡ true → to_lower c ≡ c
unfolding to_lower
to_lower-alnum c h = ground arith

to_lower-hyphen : to_lower hyphen ≡ hyphen
unfolding to_lower nat_eq
to_lower-hyphen = refl

slug_loop_fixed : (prev : Bool) (s : Text) → IsTidy prev s → slug_loop prev s ≡ s
unfolding slug_loop
slug_loop_fixed prev [] t = refl
slug_loop_fixed prev (c ∷ cs) (inl (alnum, t)) =
    rw (to_lower-alnum c alnum, alnum, slug_loop_fixed false cs t)
slug_loop_fixed prev (c ∷ cs) (inr (e, p, t)) =
    rw (e, p, to_lower-hyphen, slug_loop_fixed true cs t)

trim_right-IsTidy : (prev : Bool) (s : Text) → IsTidy prev s → IsTidy prev (trim_right s)
unfolding trim_right
trim_right-IsTidy prev [] t = tt
trim_right-IsTidy prev (c ∷ cs) (inl (alnum, t)) = ground (arith, trim_right-IsTidy false cs t)
trim_right-IsTidy prev (c ∷ cs) (inr (e, p, t)) = ground (arith, trim_right-IsTidy true cs t)

trim_right_idem : (s : Text) → trim_right (trim_right s) ≡ trim_right s
unfolding trim_right
trim_right_idem [] = refl
trim_right_idem (c ∷ cs) = ground (arith, trim_right_idem cs)

trim_right-snoc : (s : Text) → trim_right (s ++ hyphen ∷ []) ≡ trim_right s
unfolding trim_right
trim_right-snoc [] = ground arith
trim_right-snoc (c ∷ cs) = ground (arith, trim_right-snoc cs)

length-trim_right : (s : Text) → length (trim_right s) ≤ length s
unfolding trim_right
length-trim_right [] = omega arith
length-trim_right (c ∷ cs) = ground (arith, length-trim_right cs)

slug_loop-snoc :
    (prev : Bool) (name : Text) (c : ℕ)
    → is_alnum (to_lower c) ≡ false
    → (slug_loop prev (name ++ c ∷ []) ≡ slug_loop prev name)
      ⊎ (slug_loop prev (name ++ c ∷ []) ≡ slug_loop prev name ++ hyphen ∷ [])
unfolding slug_loop
slug_loop-snoc true [] c h = ground arith
slug_loop-snoc false [] c h = ground arith
slug_loop-snoc prev (r ∷ rs) c h =
    ground (arith, slug_loop-snoc true rs c h, slug_loop-snoc false rs c h)

-- A slug holds lower-case letters, digits and hyphens only; it neither starts nor ends with
-- a hyphen, and no two hyphens stand side by side.
pub slug-IsTidy :
    (name : Text) → IsTidy true (slug name) × ((s : Text) → slug name ≢ s ++ hyphen ∷ [])
unfolding slug
slug-IsTidy name = (
  trim_right-IsTidy true written (slug_loop-IsTidy true name),
  λ s e.
      let stays : trim_right s ≡ s ++ hyphen ∷ [] =
        sym (trim_right-snoc s) ∙ ap trim_right (sym e) ∙ trim_right_idem written ∙ e in
      omega (arith, ap length stays, length-append s (hyphen ∷ []), length-trim_right s),
)
  where
    written : Text
    written = slug_loop true name

-- A slug is its own slug, so a client is found again by the slug in its URL.
pub slug_idem : (name : Text) → slug (slug name) ≡ slug name
unfolding slug
slug_idem name =
    ap trim_right (
      slug_loop_fixed true (slug name)
        (trim_right-IsTidy true (slug_loop true name) (slug_loop-IsTidy true name)))
    ∙ trim_right_idem (slug_loop true name)

-- Two names that differ by a last character which is no letter or digit have one slug: the names
-- of clients are unique in the database, their directories are not.
slug_collides :
    (name : Text) (c : ℕ) → is_alnum (to_lower c) ≡ false → slug (name ++ c ∷ []) ≡ slug name
unfolding slug
slug_collides name c h = elim (slug_loop-snoc true name c h) [
  | inl same ↦ ap trim_right same
  | inr more ↦ ap trim_right more ∙ trim_right-snoc (slug_loop true name)
]

-- A name without a letter or a digit has the empty slug.
pub slug-eq-nil : (name : Text) → All (λ c. is_alnum (to_lower c) ≡ false) name → slug name ≡ []
unfolding slug slug_loop
slug-eq-nil [] h = refl
slug-eq-nil (c ∷ cs) h = rw h.0 (slug-eq-nil cs h.1)
