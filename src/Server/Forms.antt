-- ===== src/Server/Forms.antt =====
-- internal/server/clients.go: the numbers of a form, with `strconv.Atoi` on an int of 64 bits.
pub mod Laws
use backitup.Prelude.{
  ℕ, ◌+◌, ◌-◌, ◌*◌, ◌^◌, Bool, true, false, ◌&&◌, List, [], ◌∷◌, Text, Option, none, some, ltb, leb,
  ◌==◌, nat_eq, text_eq, if◌then◌else◌,
}

abbrev pub is_digit : ℕ → Bool
is_digit c = leb b'0' c && leb c b'9'

-- The value of digits behind others, `none` at a character that is none.
unfoldable pub digits : ℕ → Text → Option ℕ
digits n [] = some n
digits n (c ∷ cs) = let rest = digits (n * 10 + (c - b'0')) cs in if is_digit c then rest else none

-- The digits of a number, of which there is one at least.
unfoldable pub magnitude : Text → Option ℕ
unfolding digits
magnitude [] = none
magnitude (c ∷ cs) = digits 0 (c ∷ cs)

-- A magnitude up to a bound.
abbrev up_to : ℕ → Option ℕ → Option ℕ
up_to bound none = none
up_to bound (some n) = if leb n bound then some n else none

-- Whether the number has a minus, and its magnitude.
unfoldable pub atoi : Text → Option (Bool × ℕ)
unfolding magnitude
atoi [] = none
atoi (c ∷ cs) =
    if c == b'-'
    then signed true (up_to (2 ^ 63) (magnitude cs))
    else if c == b'+'
    then signed false (up_to (2 ^ 63 - 1) (magnitude cs))
    else signed false (up_to (2 ^ 63 - 1) (magnitude (c ∷ cs)))
  where
    signed : Bool → Option ℕ → Option (Bool × ℕ)
    signed minus none = none
    signed minus (some n) = some (minus, n)

-- A number that is negative, or that cannot be read, gives the default.
unfoldable pub atoi_default : Text → ℕ → ℕ
unfolding atoi
atoi_default s def =
    if s == []
    then def
    else elim (atoi s) [ none ↦ def | some r ↦ if r.0 && ltb 0 r.1 then def else r.1 ]
