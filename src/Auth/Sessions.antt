-- ===== src/Auth/Sessions.antt =====
-- internal/auth/session.go: tokens in memory, with an expiry. A map from tokens to entries is an
-- association list; the token that `crypto/rand` yields and the time are arguments.
pub mod Laws
use backitup.Prelude.{
  ℕ, ◌+◌, Bool, true, false, List, [], ◌∷◌, Option, none, some, Text, Outcome, ok, err, not, ltb,
  ◌==◌, text_eq, if◌then◌else◌,
}

pub record SessionEntry : Type 0 where
  pub expiry : ℕ
  pub username : Text

-- `ttl` is a duration that is not negative.
pub record SessionStore : Type 0 where
  pub ttl : ℕ
  pub tokens : List (Text × SessionEntry)

unfoldable pub new_session_store : ℕ → SessionStore
new_session_store ttl = record { ttl = ttl; tokens = [] }

unfoldable pub lookup : Text → List (Text × SessionEntry) → Option SessionEntry
lookup tok [] = none
lookup tok (e ∷ es) = if e.0 == tok then some e.1 else lookup tok es

unfoldable pub remove : Text → List (Text × SessionEntry) → List (Text × SessionEntry)
remove tok [] = []
remove tok (e ∷ es) = if e.0 == tok then remove tok es else e ∷ remove tok es

-- The random source fails, or gives the token.
unfoldable pub create :
    Outcome Text Text → Text → ℕ → SessionStore → Outcome Text Text × SessionStore
unfolding remove
create (err e) username now s = (err e, s)
create (ok tok) username now s = (
  ok tok,
  record s {
    tokens = (tok, record { expiry = now + s.ttl; username = username }) ∷ remove tok s.tokens;
  },
)

-- An expired session is evicted.
unfoldable pub valid : Text → ℕ → SessionStore → Bool × SessionStore
unfolding lookup remove
valid tok now s = if tok == [] then (false, s) else elim (lookup tok s.tokens) [
  | none ↦ (false, s)
  | some e ↦
      if not (ltb now e.expiry)
      then (false, record s { tokens = remove tok s.tokens })
      else (true, s)
]

unfoldable pub username_of : Text → ℕ → SessionStore → Text
unfolding lookup
username_of tok now s = if tok == [] then [] else elim (lookup tok s.tokens) [
  | none ↦ []
  | some e ↦ if not (ltb now e.expiry) then [] else e.username
]

unfoldable pub delete : Text → SessionStore → SessionStore
unfolding remove
delete tok s = record s { tokens = remove tok s.tokens }
