-- ===== src/Prelude/Strings.antt =====
-- What the source uses of Go's packages `strings` and `net/url`, on texts as lists of code points.
use Prim.Native.Nat.{ℕ, zero, suc, ◌+◌, ◌-◌, ◌/◌, ◌%◌, ◌<◌}
use mathlib.Core.Path.{◌≡◌, refl}
use native.Mathlib.Omega.{arith}
use mathlib.Core.Bool.{Bool, true, false, ◌&&◌, ◌||◌}
use mathlib.Core.List.{List, [], ◌∷◌, ◌++◌}
use backitup.Prelude.Equality.{leb, ltb, ◌==◌, nat_eq, if◌then◌else◌, Text}

-- `unicode.IsSpace`
abbrev pub is_space : ℕ → Bool
is_space c =
    (leb 9 c && leb c 13)
    || c == 32
    || c == 0x85
    || c == 0xA0
    || c == 0x1680
    || (leb 0x2000 c && leb c 0x200A)
    || c == 0x2028
    || c == 0x2029
    || c == 0x202F
    || c == 0x205F
    || c == 0x3000

abbrev pub is_nil : Text → Bool
is_nil [] = true
is_nil (c ∷ cs) = false

unfoldable pub trim_left : (ℕ → Bool) → Text → Text
trim_left p [] = []
trim_left p (c ∷ cs) = if p c then trim_left p cs else c ∷ cs

unfoldable pub trim_right : (ℕ → Bool) → Text → Text
trim_right p [] = []
trim_right p (c ∷ cs) = let rest = trim_right p cs in if p c && is_nil rest then [] else c ∷ rest

-- `strings.TrimSpace`
unfoldable pub trim_space : Text → Text
unfolding trim_left trim_right
trim_space s = trim_right is_space (trim_left is_space s)

-- `strings.Trim(s, "/")`
unfoldable pub trim_slashes : Text → Text
unfolding trim_left trim_right
trim_slashes s = trim_right (λ c. c == b'/') (trim_left (λ c. c == b'/') s)

unfoldable pub is_prefix : Text → Text → Bool
is_prefix [] s = true
is_prefix (c ∷ cs) [] = false
is_prefix (c ∷ cs) (d ∷ s) = c == d && is_prefix cs s

-- `strings.Contains`, with the part first.
unfoldable pub contains : Text → Text → Bool
unfolding is_prefix
contains part [] = is_prefix part []
contains part (c ∷ s) = is_prefix part (c ∷ s) || contains part s

-- `strings.ReplaceAll` of one character by another.
abbrev pub replace_char : ℕ → ℕ → Text → Text
replace_char old new [] = []
replace_char old new (c ∷ s) = (if c == old then new else c) ∷ replace_char old new s

-- The bytes of a code point in UTF-8.
utf8 : ℕ → List ℕ
utf8 c =
    if ltb c 0x80
    then c ∷ []
    else if ltb c 0x800
    then (0xC0 + c / 64) ∷ (0x80 + c % 64) ∷ []
    else if ltb c 0x10000
    then (0xE0 + c / 4096) ∷ (0x80 + c / 64 % 64) ∷ (0x80 + c % 64) ∷ []
    else (0xF0 + c / 262144) ∷ (0x80 + c / 4096 % 64) ∷ (0x80 + c / 64 % 64) ∷ (0x80 + c % 64) ∷ []

hex_digit : ℕ → ℕ
hex_digit n = if ltb n 10 then b'0' + n else b'A' + (n - 10)

percent : List ℕ → Text
unfolding hex_digit
percent [] = []
percent (b ∷ bs) = b'%' ∷ hex_digit (b / 16) ∷ hex_digit (b % 16) ∷ percent bs

is_unreserved : ℕ → Bool
is_unreserved c =
    (leb b'a' c && leb c b'z')
    || (leb b'A' c && leb c b'Z')
    || (leb b'0' c && leb c b'9')
    || c == b'-'
    || c == b'_'
    || c == b'.'
    || c == b'~'

-- `url.QueryEscape`
unfoldable pub query_escape : Text → Text
unfolding utf8 percent is_unreserved
query_escape [] = []
query_escape (c ∷ cs) =
    (if is_unreserved c then c ∷ [] else if c == b' ' then b'+' ∷ [] else percent (utf8 c))
    ++ query_escape cs

-- How often a character stands in a text.
unfoldable pub count : ℕ → Text → ℕ
count x [] = 0
count x (c ∷ cs) = if c == x then suc (count x cs) else count x cs

pub count-append : (x : ℕ) (s t : Text) → count x (s ++ t) ≡ count x s + count x t
unfolding count
count-append x [] t = omega arith
count-append x (c ∷ s) t = ground (arith, count-append x s t)

-- The digits of a number in front of others. A number below `10 ^ k` needs no more than `k` steps.
unfoldable pub decimal_from : ℕ → ℕ → Text → Text
decimal_from zero n tail = tail
decimal_from (suc k) n tail =
    let longer = decimal_from k (n / 10) ((b'0' + n % 10) ∷ tail) in
    if ltb n 10 then (b'0' + n) ∷ tail else longer

-- `%d` of a number of 64 bits, which has 20 digits at most.
unfoldable pub decimal : ℕ → Text
unfolding decimal_from
decimal n = decimal_from 20 n []

abbrev pub in_front : ℕ → List Text → List Text
in_front c [] = (c ∷ []) ∷ []
in_front c (s ∷ ss) = (c ∷ s) ∷ ss

-- `strings.Split` at one character.
unfoldable pub split : ℕ → Text → List Text
split sep [] = [] ∷ []
split sep (c ∷ s) = let rest = split sep s in if c == sep then [] ∷ rest else in_front c rest

pub split-append :
    (sep : ℕ) (s t : Text) → count sep s ≡ 0 → split sep (s ++ sep ∷ t) ≡ s ∷ split sep t
unfolding split count
split-append sep [] t h = ground (arith)
split-append sep (c ∷ s) t h = ground (arith, split-append sep s t)

pub split_whole : (sep : ℕ) (s : Text) → count sep s ≡ 0 → split sep s ≡ s ∷ []
unfolding split count
split_whole sep [] h = refl
split_whole sep (c ∷ s) h = ground (arith, split_whole sep s)

-- A character that is no digit does not stand in a number.
pub count-decimal_from :
    (x k n : ℕ) (tail : Text) → x < b'0' → count x (decimal_from k n tail) ≡ count x tail
unfolding count decimal_from
count-decimal_from x zero n tail h = refl
count-decimal_from x (suc k) n tail h =
    ground (arith, count-decimal_from x k (n / 10) ((b'0' + n % 10) ∷ tail))

pub count-decimal : (x n : ℕ) → x < b'0' → count x (decimal n) ≡ 0
unfolding decimal count
count-decimal x n h = count-decimal_from x 20 n [] h
