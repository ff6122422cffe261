-- ===== src/Server/Sizes/Laws.antt =====
-- The size of every file has a unit.
use backitup.Prelude.{
  ℕ, zero, suc, ◌+◌, ◌*◌, ◌/◌, ◌^◌, ◌≤◌, ◌<◌, ◌≡◌, refl, Text, Option, some, [], ◌∷◌, ◌++◌, arith,
  leb, ltb, length, Bool-cases, inl, inr, codes, decimal,
}
use native.Mathlib.Nat.{mul-le-mul_left}
use native.Mathlib.Omega.{pow_step}
use backitup.Server.Sizes.{scale_loop, char_at, scaled, human_bytes}

lt_next : (k n : ℕ) → n < 1024 ^ suc k → n / 1024 < 1024 ^ k
lt_next k n h = omega (arith, h, pow_step 1024 k)

-- A step that divides, and the one that ends the loop.
scale_loop-step :
    (k n div exp : ℕ)
    → 1024 ≤ n
    → scale_loop (suc k) n div exp ≡ scale_loop k (n / 1024) (div * 1024) (suc exp)
unfolding scale_loop
scale_loop-step k n div exp h = ground (arith, h)

scale_loop-end : (k n div exp : ℕ) → n < 1024 → scale_loop (suc k) n div exp ≡ some (div, exp)
unfolding scale_loop
scale_loop-end k n div exp h = ground (arith, h)

-- The divisor is the power of 1024 just below the size.
abbrev pub IsScale : ℕ → ℕ × ℕ → Type 0
IsScale b r = (r.0 ≡ 1024 ^ suc r.1) × (r.0 ≤ b) × (b < r.0 * 1024) × (r.1 < 6)

abbrev Ends : ℕ → Option (ℕ × ℕ) → Type 0
Ends b o = (r : ℕ × ℕ) × (o ≡ some r) × IsScale b r

-- With the number that is left between the powers, the loop ends within its fuel.
scale_loop-Ends :
    (k b n div exp : ℕ)
    → 1 ≤ n
    → n < 1024 ^ k
    → exp + k ≤ 6
    → div ≡ 1024 ^ suc exp
    → div * n ≤ b
    → b < div * (n + 1)
    → Ends b (scale_loop k n div exp)
scale_loop-Ends zero b n div exp pos lt fuel pow low high = absurd (omega (arith, pos, lt))
scale_loop-Ends (suc k) b n div exp pos lt fuel pow low high = elim (Bool-cases (leb 1024 n)) [
  | inr e ↦
      let less : n < 1024 = ground (arith, e) in
      let lower = mul-le-mul_left div pos in
      let upper = mul-le-mul_left {m = n + 1} {n = 1024} div (omega (arith, less)) in
      (
        (div, exp),
        scale_loop-end k n div exp less,
        (pow, omega (arith, lower, low), omega (arith, upper, high), omega (arith, fuel)),
      )
  | inl e ↦
      let more : 1024 ≤ n = ground (arith, e) in
      let lower = mul-le-mul_left {m = 1024 * (n / 1024)} {n = n} div (omega arith) in
      let upper = mul-le-mul_left {m = n + 1} {n = 1024 * (n / 1024) + 1024} div (omega arith) in
      let small = lt_next k n lt in
      let step : 1024 ^ suc (suc exp) ≡ 1024 * 1024 ^ suc exp = pow_step 1024 (suc exp) in
      let power : div * 1024 ≡ 1024 ^ suc (suc exp) = omega (arith, step, pow) in
      rw (scale_loop-step k n div exp more) (
        scale_loop-Ends k b (n / 1024) (div * 1024) (suc exp) (omega (arith, more)) small
          (omega (arith, fuel)) power (omega (arith, lower, low)) (omega (arith, upper, high)))
]

char_at_lem : (i : ℕ) (s : Text) → i < length s → (c : ℕ) × (char_at i s ≡ some c)
unfolding char_at
char_at_lem i [] h = absurd (omega (arith, h))
char_at_lem zero (c ∷ s) h = (c, refl)
char_at_lem (suc i) (c ∷ s) h = char_at_lem i s (omega (arith, h))

scaled_lem :
    (quotient : ℕ → ℕ → Text) (b : ℕ) (r : ℕ × ℕ)
    → r.1 < 6
    → (t : Text) × (scaled quotient b r ≡ some t)
unfolding scaled
scaled_lem quotient b (div, exp) h =
    let (unit, found) = char_at_lem exp (codes "KMGTPE") h in
    (quotient b div ++ b' ' ∷ unit ∷ codes "B", rw found refl)

scale_of : (b : ℕ) → 1024 ≤ b → b < 2 ^ 63 → Ends b (scale_loop 6 (b / 1024) 1024 0)
scale_of b low high =
    scale_loop-Ends 6 b (b / 1024) 1024 0 (omega (arith, low)) (omega (arith, high)) (omega arith)
      refl (omega arith) (omega arith)

human_bytes-some :
    (quotient : ℕ → ℕ → Text) (b : ℕ) → b < 2 ^ 63 → (t : Text) × (human_bytes quotient b ≡ some t)
unfolding human_bytes
human_bytes-some quotient b high = elim (Bool-cases (ltb b 1024)) [
  | inl e ↦ (decimal b ++ codes " B", rw e refl)
  | inr e ↦
      let (r, ends, scale) = scale_of b (ground (arith, e)) high in
      let (t, text) = scaled_lem quotient b r scale.3 in (t, rw (human_bytes, e, ends) text)
]

-- The size of every int of 64 bits that is not negative is shown: the loop ends within its steps and
-- the unit is one of the six letters. From 1024 on, the divisor is the largest power of 1024 that
-- is not larger than the size.
pub human_bytes_lem :
    (quotient : ℕ → ℕ → Text) (b : ℕ)
    → b < 2 ^ 63
    → ((t : Text) × (human_bytes quotient b ≡ some t))
      × (1024 ≤ b → (r : ℕ × ℕ) × (scale_loop 6 (b / 1024) 1024 0 ≡ some r) × IsScale b r)
human_bytes_lem quotient b high = (human_bytes-some quotient b high, λ low. scale_of b low high)
