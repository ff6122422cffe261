-- ===== src/Server/Forms/Laws.antt =====
-- What the numbers of a form can be.
use native.Mathlib.Omega.{pow_step}
use backitup.Prelude.{
  ℕ, zero, suc, ◌/◌, ◌%◌, decimal, decimal_from, ◌∙◌, ap, subst, ◌+◌, ◌-◌, ◌*◌, ◌^◌, ◌<◌, ◌≡◌, refl,
  Bool, true, false, ◌&&◌, [], ◌∷◌, Text, some, arith, ltb, leb, ◌==◌, text_eq, nat_eq, Bool-cases,
  Option-cases, inl, inr,
}
use backitup.Server.Forms.{atoi, atoi_default, digits, is_digit, magnitude}

-- What is read and kept is within an int of 64 bits.
atoi-bound : (s : Text) (r : Bool × ℕ) → atoi s ≡ some r → (r.0 && ltb 0 r.1) ≡ false → r.1 < 2 ^ 63
unfolding atoi
atoi-bound [] r h k = cc
atoi-bound (c ∷ cs) r h k = ground (arith, h, k)

pub atoi_default-bound : (s : Text) (def : ℕ) → def < 2 ^ 63 → atoi_default s def < 2 ^ 63
unfolding atoi_default
atoi_default-bound s def small = elim (Option-cases (atoi s)) [
  | inl e ↦ rw e (ground (arith, small))
  | inr (r, e) ↦ rw e (ground (arith, small, atoi-bound s r e))
]

digits-cons :
    (a x : ℕ) (tail : Text) → x < 10 → digits a ((b'0' + x) ∷ tail) ≡ digits (a * 10 + x) tail
unfolding digits
digits-cons a x tail h =
    let same : a * 10 + (b'0' + x - b'0') ≡ a * 10 + x = omega arith in ground (arith, h, same)

one_digit : (n : ℕ) (tail : Text) → n < 10 → digits 0 ((b'0' + n) ∷ tail) ≡ digits n tail
one_digit n tail h = digits-cons 0 n tail h ∙ ap (λ m. digits m tail) (omega arith)

-- Reading what was printed goes on with the number in front of the rest.
digits-decimal_from :
    (k n : ℕ) (tail : Text)
    → n < 10 ^ suc k
    → digits 0 (decimal_from (suc k) n tail) ≡ digits n tail
unfolding decimal_from
digits-decimal_from zero n tail h =
    let small : ltb n 10 ≡ true = ground (arith, h) in
    rw small (one_digit n tail (omega (arith, h)))
digits-decimal_from (suc k) n tail h = elim (Bool-cases (ltb n 10)) [
  | inl e ↦ rw e (one_digit n tail (ground (arith, e)))
  | inr e ↦ rw e (
      digits-decimal_from k (n / 10) ((b'0' + n % 10) ∷ tail)
        (omega (arith, h, pow_step 10 (suc k)))
      ∙ digits-cons (n / 10) (n % 10) tail (omega arith)
      ∙ ap (λ m. digits m tail) (omega arith))
]

is_digit_of : (x : ℕ) → x < 10 → is_digit (b'0' + x) ≡ true
is_digit_of x h = ground (arith, h)

-- What is printed starts with a digit.
StartsWithDigit : Text → Type 0
StartsWithDigit s = (c : ℕ) × (cs : Text) × (s ≡ c ∷ cs) × (is_digit c ≡ true)

decimal_from-cons :
    (k n c : ℕ) (tail : Text) → is_digit c ≡ true → StartsWithDigit (decimal_from k n (c ∷ tail))
unfolding decimal_from StartsWithDigit
decimal_from-cons zero n c tail h = (c, tail, refl, h)
decimal_from-cons (suc k) n c tail h = elim (Bool-cases (ltb n 10)) [
  | inl e ↦ (b'0' + n, c ∷ tail, rw e refl, is_digit_of n (ground (arith, e)))
  | inr e ↦
      rw e (
        decimal_from-cons k (n / 10) (b'0' + n % 10) (c ∷ tail)
          (is_digit_of (n % 10) (omega arith)))
]

decimal-StartsWithDigit : (n : ℕ) → StartsWithDigit (decimal n)
unfolding decimal StartsWithDigit
decimal-StartsWithDigit n = elim (Bool-cases (ltb n 10)) [
  | inl e ↦ (b'0' + n, [], rw e refl, is_digit_of n (ground (arith, e)))
  | inr e ↦
      rw e (decimal_from-cons 19 (n / 10) (b'0' + n % 10) [] (is_digit_of (n % 10) (omega arith)))
]

atoi_of_digits :
    (c n : ℕ) (cs : Text)
    → is_digit c ≡ true
    → digits 0 (c ∷ cs) ≡ some n
    → n < 2 ^ 63
    → atoi (c ∷ cs) ≡ some (false, n)
unfolding atoi magnitude
atoi_of_digits c n cs digit read small =
    let minus : (c == b'-') ≡ false = ground (arith, digit) in
    let plus : (c == b'+') ≡ false = ground (arith, digit) in
    let fits : leb n (2 ^ 63 - 1) ≡ true = ground (arith, small) in
    rw (minus, plus, read, fits) refl

pub decimal-read : (n : ℕ) → n < 2 ^ 63 → digits 0 (decimal n) ≡ some n
unfolding decimal digits
decimal-read n h = digits-decimal_from 19 n [] (omega (arith, h))

-- A number of 64 bits that a page prints into a field of a form is read back as itself, whatever the
-- field's default.
pub atoi_default-decimal : (n def : ℕ) → n < 2 ^ 63 → atoi_default (decimal n) def ≡ n
unfolding atoi_default StartsWithDigit
atoi_default-decimal n def h =
    let (c, cs, same, digit) = decimal-StartsWithDigit n in
    let read =
      atoi_of_digits c n cs digit (subst (λ s. digits 0 s ≡ some n) same (decimal-read n h)) h in
    rw (same, read) (ground arith)
