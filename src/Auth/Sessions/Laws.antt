-- ===== src/Auth/Sessions/Laws.antt =====
-- The life of a session.
use backitup.Prelude.{
  ℕ, ◌+◌, ◌≤◌, ◌<◌, ◌≡◌, ◌≢◌, ◌↔◌, refl, true, false, List, [], ◌∷◌, none, some, Text, ok, arith,
  ltb, ==_refl, text_eq, Bool-cases, Option-cases, inl, inr,
}
use backitup.Auth.Sessions.{
  SessionEntry, SessionStore, lookup, remove, create, valid, username_of, delete,
}

pub lookup-remove : (t : Text) (es : List (Text × SessionEntry)) → lookup t (remove t es) ≡ none
unfolding lookup remove
lookup-remove t [] = refl
lookup-remove t (e ∷ es) = ground (arith, lookup-remove t es)

pub lookup-remove_other :
    (t u : Text) (es : List (Text × SessionEntry)) → t ≢ u → lookup u (remove t es) ≡ lookup u es
unfolding lookup remove
lookup-remove_other t u [] n = refl
lookup-remove_other t u (e ∷ es) n = ground (arith, lookup-remove_other t u es n)

-- What `valid` answers, by the entry.
pub valid_of_lookup :
    (t : Text) (now : ℕ) (s : SessionStore) (e : SessionEntry)
    → t ≢ []
    → lookup t s.tokens ≡ some e
    → (valid t now s).0 ≡ ltb now e.expiry
unfolding valid
valid_of_lookup t now s e n h = rw h (ground arith)

pub valid_of_absent :
    (t : Text) (now : ℕ) (s : SessionStore) → lookup t s.tokens ≡ none → (valid t now s).0 ≡ false
unfolding valid
valid_of_absent t now s h = rw h (ground arith)

-- A token that is not empty, created at one time, is valid exactly while less than the store's
-- lifetime has passed, whatever sessions were there.
pub valid-create :
    (tok username : Text) (start now : ℕ) (s : SessionStore)
    → tok ≢ []
    → ((valid tok now (create (ok tok) username start s).1).0 ≡ true) ↔ (now < start + s.ttl)
unfolding create lookup
valid-create tok username start now s n =
    let found =
      valid_of_lookup tok now (create (ok tok) username start s).1
        (record { expiry = start + s.ttl; username = username }) n (rw (==_refl tok)) in
    (λ h. ground (arith, found), λ h. ground (arith, found))

-- A token that was deleted is not valid at any time, and every other token answers as before.
pub valid-delete :
    (tok other : Text) (now : ℕ) (s : SessionStore)
    → ((valid tok now (delete tok s)).0 ≡ false)
      × (tok ≢ other → (valid other now (delete tok s)).0 ≡ (valid other now s).0)
unfolding delete valid
valid-delete tok other now s = (
  valid_of_absent tok now (delete tok s) (lookup-remove tok s.tokens),
  λ n. rw (lookup-remove_other tok other s.tokens n) (ground arith),
)

-- A token that is refused once is refused at every later time.
pub valid-valid :
    (tok : Text) (now later : ℕ) (s : SessionStore)
    → now ≤ later
    → (valid tok now s).0 ≡ false
    → (valid tok later (valid tok now s).1).0 ≡ false
unfolding valid
valid-valid tok now later s le h = elim (Option-cases (lookup tok s.tokens)) [
  | inl absent ↦ rw absent (ground (arith, valid_of_absent tok later s absent))
  | inr (e, found) ↦ elim (Bool-cases (ltb now e.expiry)) [
    | inl live ↦ rw found (ground (arith, h, valid_of_lookup tok now s e))
    | inr expired ↦
        let gone =
          valid_of_absent tok later (record s { tokens = remove tok s.tokens })
            (lookup-remove tok s.tokens) in
        rw found (ground (arith, gone, expired))
  ]
]

-- A token that names a user is a valid one.
pub valid_of_username_of :
    (tok : Text) (now : ℕ) (s : SessionStore)
    → username_of tok now s ≢ []
    → (valid tok now s).0 ≡ true
unfolding valid username_of
valid_of_username_of tok now s h = ground (arith, h)
