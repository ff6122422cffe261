-- ===== src/Clock/Stamp.antt =====
-- internal/store/store.go keeps times as RFC 3339 texts in UTC with the trailing zeros of the
-- fraction cut off (`time.RFC3339Nano`), and SQLite compares and sorts those texts.
pub mod Laws
use backitup.Prelude.{
  ℕ, zero, suc, ◌+◌, ◌/◌, ◌%◌, ◌^◌, Bool, true, false, [], ◌∷◌, Text, ltb, ◌==◌, nat_eq,
  if◌then◌else◌,
}
use backitup.Clock.{second}

-- The first `k` digits of a fraction, without the zeros at its end.
fraction : ℕ → ℕ → Text
fraction zero n = []
fraction (suc k) n =
    let rest = fraction k (n % 10 ^ k) in if n == 0 then [] else (b'0' + n / 10 ^ k) ∷ rest

-- What follows the seconds: `Z`, or a point, the digits and `Z`.
append_zone : Text → Text
append_zone [] = b'Z' ∷ []
append_zone (c ∷ cs) = c ∷ append_zone cs

suffix : ℕ → Text
unfolding fraction append_zone
suffix n = if n == 0 then b'Z' ∷ [] else b'.' ∷ append_zone (fraction 9 n)

-- SQLite's comparison of texts.
unfoldable pub text_lt : Text → Text → Bool
text_lt [] [] = false
text_lt [] (d ∷ ds) = true
text_lt (c ∷ cs) [] = false
text_lt (c ∷ cs) (d ∷ ds) = if ltb c d then true else if ltb d c then false else text_lt cs ds

-- `a < b` between the stored texts of two times. The part up to the seconds has a fixed width,
-- so its order is that of the seconds.
unfoldable pub stamp_lt : ℕ → ℕ → Bool
unfolding suffix text_lt
stamp_lt a b =
    if ltb (a / second) (b / second)
    then true
    else if ltb (b / second) (a / second)
    then false
    else text_lt (suffix (a % second)) (suffix (b % second))
