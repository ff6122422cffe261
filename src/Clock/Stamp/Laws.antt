-- ===== src/Clock/Stamp/Laws.antt =====
-- The order of the stored texts: a strict order that agrees with time up to the second, and is
-- reversed against it within a second.
use backitup.Prelude.{ℕ, ◌+◌, ◌*◌, ◌%◌, ◌≤◌, ◌<◌, ◌≡◌, refl, true, false, [], ◌∷◌, Text, arith}
use backitup.Clock.{second}
use backitup.Clock.Stamp.{text_lt, suffix, stamp_lt}

text_lt_irrefl : (s : Text) → text_lt s s ≡ false
unfolding text_lt
text_lt_irrefl [] = refl
text_lt_irrefl (c ∷ cs) = ground (arith, text_lt_irrefl cs)

text_lt_trans : (r s t : Text) → text_lt r s ≡ true → text_lt s t ≡ true → text_lt r t ≡ true
unfolding text_lt
text_lt_trans [] [] t h k = cc
text_lt_trans [] (d ∷ ds) [] h k = cc
text_lt_trans [] (d ∷ ds) (e ∷ es) h k = refl
text_lt_trans (c ∷ cs) [] t h k = cc
text_lt_trans (c ∷ cs) (d ∷ ds) [] h k = cc
text_lt_trans (c ∷ cs) (d ∷ ds) (e ∷ es) h k = ground (arith, text_lt_trans cs ds es)

pub stamp_lt_irrefl : (a : ℕ) → stamp_lt a a ≡ false
unfolding stamp_lt
stamp_lt_irrefl a = ground (arith, text_lt_irrefl (suffix (a % second)))

pub stamp_lt_trans : (a b c : ℕ) → stamp_lt a b ≡ true → stamp_lt b c ≡ true → stamp_lt a c ≡ true
unfolding stamp_lt
stamp_lt_trans a b c h k =
    ground (arith, text_lt_trans (suffix (a % second)) (suffix (b % second)) (suffix (c % second)))

-- A time that is at least a second earlier sorts first.
pub stamp_lt_of_second : (a b : ℕ) → a + second ≤ b → stamp_lt a b ≡ true
unfolding stamp_lt
stamp_lt_of_second a b h = ground arith

-- Within a second the order of the texts is not the order of time: whatever the second, a time
-- on it sorts after every later time within it.
stamp_lt_reversed : (n f : ℕ) → 0 < f → f < second → stamp_lt (n * second + f) (n * second) ≡ true
unfolding stamp_lt
stamp_lt_reversed n f pos small = ground arith
