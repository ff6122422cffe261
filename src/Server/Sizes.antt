-- ===== src/Server/Sizes.antt =====
-- internal/server/view.go: how long ago, and how many bytes, as the pages say it. Durations are
-- nanoseconds, one that is negative is 0; the rounding of floats next to a whole hour or day is left
-- out. `%.1f` of a quotient is a parameter.
pub mod Laws
use backitup.Prelude.{
  ℕ, zero, suc, ◌+◌, ◌*◌, ◌/◌, Bool, List, [], ◌∷◌, ◌++◌, Text, Option, none, some, ltb, leb,
  if◌then◌else◌, codes, decimal,
}
use backitup.Clock.{minute, hour, day}

unfoldable pub rel_time : ℕ → Text
rel_time d =
    if ltb d minute
    then codes "just now"
    else if ltb d hour
    then decimal (d / minute) ++ codes "m ago"
    else if ltb d (24 * hour)
    then decimal (d / hour) ++ codes "h ago"
    else decimal (d / day) ++ codes "d ago"

-- The loop that divides, on fuel: the divisor and the exponent.
unfoldable pub scale_loop : ℕ → ℕ → ℕ → ℕ → Option (ℕ × ℕ)
scale_loop zero n div exp = none
scale_loop (suc k) n div exp =
    let rest = scale_loop k (n / 1024) (div * 1024) (suc exp) in
    if leb 1024 n then rest else some (div, exp)

-- An index beyond the end of the text is a panic, `none`.
unfoldable pub char_at : ℕ → Text → Option ℕ
char_at i [] = none
char_at zero (c ∷ cs) = some c
char_at (suc i) (c ∷ cs) = char_at i cs

module _ (quotient : ℕ → ℕ → Text) where
  unfoldable pub scaled : ℕ → ℕ × ℕ → Option Text
  unfolding char_at
  scaled b (div, exp) = elim (char_at exp (codes "KMGTPE")) [
    | none ↦ none
    | some unit ↦ some (quotient b div ++ b' ' ∷ unit ∷ codes "B")
  ]

  -- `none` is a loop that runs out of its six steps, or a panic.
  unfoldable pub human_bytes : ℕ → Option Text
  unfolding scaled scale_loop
  human_bytes b =
      if ltb b 1024
      then some (decimal b ++ codes " B")
      else elim (scale_loop 6 (b / 1024) 1024 0) [ none ↦ none | some r ↦ scaled b r ]
