-- ===== src/Model/Slug.antt =====
-- internal/model/model.go: `Slug`. `strings.ToLower` is given on ASCII and on the two other code
-- points whose lower case is ASCII; any other becomes a hyphen whatever its lower case is.
pub mod Laws
use backitup.Prelude.{
  ℕ, ◌+◌, Bool, true, false, ◌&&◌, ◌||◌, List, [], ◌∷◌, Text, leb, ◌==◌, nat_eq, if◌then◌else◌,
}

abbrev pub hyphen : ℕ
hyphen = b'-'

unfoldable pub to_lower : ℕ → ℕ
to_lower c =
    if leb b'A' c && leb c b'Z'
    then c + 32
    else if c == 0x130
    then b'i'
    else if c == 0x212A
    then b'k'
    else c

abbrev pub is_alnum : ℕ → Bool
is_alnum c = (leb b'a' c && leb c b'z') || (leb b'0' c && leb c b'9')

-- The loop over the runes, with `prevHyphen`; it returns what it writes.
slug_loop : Bool → Text → Text
slug_loop prev [] = []
slug_loop prev (r ∷ rs) =
    let kept = to_lower r ∷ slug_loop false rs in
    let gap = hyphen ∷ slug_loop true rs in
    let skipped = slug_loop true rs in
    if is_alnum (to_lower r) then kept else if prev then skipped else gap

-- `strings.TrimRight(s, "-")`
abbrev is_nil : Text → Bool
is_nil [] = true
is_nil (c ∷ cs) = false

trim_right : Text → Text
trim_right [] = []
trim_right (c ∷ cs) =
    let rest = trim_right cs in if c == hyphen && is_nil rest then [] else c ∷ rest

unfoldable pub slug : Text → Text
unfolding to_lower slug_loop trim_right
slug name = trim_right (slug_loop true name)
