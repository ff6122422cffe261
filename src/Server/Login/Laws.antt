-- ===== src/Server/Login/Laws.antt =====
-- Who gets a session, for how long, and when the login is closed.
use backitup.Prelude.{
  ℕ, ◌+◌, ◌≤◌, ◌<◌, ◌≡◌, ◌≢◌, refl, sym, ◌∙◌, Bool, true, false, List, [], ◌∷◌, ◌++◌, Text, map,
  Outcome, ok, err, Option, none, some, All, length, length-append, snoc-append, append_nil,
  ==_refl, arith, text_eq, codes, Bool-cases, inl, inr,
}
use backitup.Model.{User}
use backitup.Store.{Db}
use backitup.Store.Users.{get_user_by_username}
use backitup.Auth.Sessions.{SessionStore, create, valid, username_of, delete, lookup}
use backitup.Auth.Sessions.Laws.{valid-create, valid-delete}
use backitup.Server.Response.{redirect, too_many_requests}
use backitup.Server.Limiter.{
  LoginLimiter, login_max_fails, is_past, in_window, allow, record_failure,
}
use backitup.Server.Limiter.Laws.{allow_lem, length-in_window}
use backitup.Server.Login.{
  Gate, Credentials, require_admin, refuse, open_session, is_verified, is_user, check_login,
  post_login, post_logout,
}

-- The answer of the middleware in front of a page.
require_admin_of_valid :
    (tok : Text) (now : ℕ) (s : SessionStore)
    → (valid tok now s).0 ≡ false
    → (require_admin (some tok) now s).0 ≡ none
unfolding require_admin
require_admin_of_valid tok now s h = ground (arith, h)

valid_same :
    (tok : Text) (now : ℕ) (s : SessionStore) → (valid tok now s).0 ≡ true → (valid tok now s).1 ≡ s
unfolding valid
valid_same tok now s h = ground (arith, h)

username_of-create :
    (tok username : Text) (start now : ℕ) (s : SessionStore)
    → tok ≢ []
    → now < start + s.ttl
    → username_of tok now (create (ok tok) username start s).1 ≡ username
unfolding username_of create lookup
username_of-create tok username start now s n h = rw (==_refl tok) (ground (arith, n, h))

require_admin-create :
    (tok username : Text) (start now : ℕ) (s : SessionStore)
    → tok ≢ []
    → now < start + s.ttl
    → (require_admin (some tok) now (create (ok tok) username start s).1).0 ≡ some username
unfolding require_admin
require_admin-create tok username start now s n h =
    let live = (valid-create tok username start now s n).1 h in
    let same = valid_same tok now (create (ok tok) username start s).1 live in
    ground (arith, live, same, username_of-create tok username start now s n h)

expired :
    (tok username : Text) (start late : ℕ) (s : SessionStore)
    → tok ≢ []
    → start + s.ttl ≤ late
    → (valid tok late (create (ok tok) username start s).1).0 ≡ false
expired tok username start late s n past =
    elim (Bool-cases (valid tok late (create (ok tok) username start s).1).0) [
      | inl live ↦
          let short = (valid-create tok username start late s n).0 live in absurd (omega arith)
      | inr e ↦ e
    ]

module _ (verify_password : Text → Text → Outcome Text Bool) where
  -- The login goes on to the credentials.
  post_login_of_allow :
      (ip : Text) (f : Credentials) (token : Outcome Text Text) (now : ℕ) (d : Db) (g : Gate)
      → (allow ip now g.limiter).0 ≡ true
      → post_login verify_password ip (some f) token now d g
        ≡ check_login verify_password ip f token now d g
  unfolding post_login allow
  post_login_of_allow ip f token now d g h = ground (arith, h)

  is_user_of :
      (f : Credentials) (o : Option User)
      → is_user verify_password f o ≡ true
      → (u : User) × (o ≡ some u) × (verify_password f.password u.password_hash ≡ ok true)
  unfolding is_user
  is_user_of f none h = cc
  is_user_of f (some u) h = (u, refl, is_verified_of (verify_password f.password u.password_hash) h)
    where
      is_verified_of : (r : Outcome Text Bool) → is_verified verify_password r ≡ true → r ≡ ok true
      is_verified_of (ok b) h = ground (arith, h)
      is_verified_of (err e) h = cc

-- Where the limiter allows the address, a password that the hash of the named user verifies opens a
-- session for that user, if the token that is created is not empty. The middleware takes it as long as
-- less than the store's lifetime has passed, takes it no longer once that has passed, and, after a
-- logout, never.
pub post_login-require_admin :
    (verify_password : Text → Text → Outcome Text Bool) (ip : Text) (f : Credentials) (tok : Text)
    (now later late : ℕ) (d : Db) (g : Gate) (u : User)
    → (allow ip now g.limiter).0 ≡ true
    → get_user_by_username f.username d ≡ some u
    → verify_password f.password u.password_hash ≡ ok true
    → tok ≢ []
    → later < now + g.sessions.ttl
    → now + g.sessions.ttl ≤ late
    → let (answer, g') = post_login verify_password ip (some f) (ok tok) now d g in
      (answer ≡ redirect (codes "/"))
      × ((require_admin (some tok) later g'.sessions).0 ≡ some f.username)
      × ((require_admin (some tok) late g'.sessions).0 ≡ none)
      × ((require_admin (some tok) later (post_logout (some tok) g'.sessions).1).0 ≡ none)
unfolding check_login is_user open_session post_logout create
post_login-require_admin v ip f tok now later late d g u a found ver n h past =
    rw (post_login_of_allow v ip f (ok tok) now d g a, found, ver)
      (
        refl,
        require_admin-create tok f.username now later g.sessions n h,
        require_admin_of_valid tok late (create (ok tok) f.username now g.sessions).1
            (expired tok f.username now late g.sessions n past),
        require_admin_of_valid tok later (delete tok (create (ok tok) f.username now g.sessions).1)
            (valid-delete tok [] later (create (ok tok) f.username now g.sessions).1).0,
      )

-- A login that leads to "/" was allowed by the limiter, and its form names a user whose hash verifies
-- its password.
pub post_login-verified :
    (verify_password : Text → Text → Outcome Text Bool) (ip : Text) (form : Option Credentials)
    (token : Outcome Text Text) (now : ℕ) (d : Db) (g : Gate)
    → (post_login verify_password ip form token now d g).0 ≡ redirect (codes "/")
    → ((allow ip now g.limiter).0 ≡ true)
      × (f : Credentials) × (u : User) × (form ≡ some f)
      × (get_user_by_username f.username d ≡ some u)
      × (verify_password f.password u.password_hash ≡ ok true)
unfolding post_login check_login allow
post_login-verified v ip none token now d g h = ground (arith, h)
post_login-verified v ip (some f) token now d g h =
    elim (Bool-cases (is_user v f (get_user_by_username f.username d))) [
      | inl e ↦
          let (u, found, ver) = is_user_of v f (get_user_by_username f.username d) e in
          (ground (arith, h), f, u, refl, found, ver)
      | inr e ↦ ground (arith, h, e)
    ]

-- A login with a form, at a time.
pub record Attempt : Type 0 where
  pub form : Credentials
  pub at : ℕ

-- Logins of one address, one after the other.
unfoldable pub attempts :
    (Text → Text → Outcome Text Bool) → Text → Outcome Text Text → Db → List Attempt → Gate → Gate
attempts v ip token d [] g = g
attempts v ip token d (a ∷ more) g =
    attempts v ip token d more (post_login v ip (some a.form) token a.at d g).1

module _ (v : Text → Text → Outcome Text Bool) (ip : Text) (token : Outcome Text Text)
    (d : Db) where
  -- An attempt with a wrong name or a wrong password, at a time that is not past.
  abbrev pub IsWrong : ℕ → Attempt → Type 0
  IsWrong now a =
      (is_user v a.form (get_user_by_username a.form.username d) ≡ false)
      × (is_past now a.at ≡ false)

  length-in_window_le : (now : ℕ) (ts : List ℕ) → length (in_window now ts) ≤ length ts
  unfolding in_window
  length-in_window_le now [] = omega arith
  length-in_window_le now (t ∷ ts) = ground (arith, length-in_window_le now ts)

  -- With fewer than ten failures, a wrong attempt is refused and counted, and opens no session.
  post_login-wrong :
      (f : Credentials) (now : ℕ) (g : Gate)
      → is_user v f (get_user_by_username f.username d) ≡ false
      → length (g.limiter ip) < login_max_fails
      → post_login v ip (some f) token now d g ≡ refuse ip now g
  unfolding check_login
  post_login-wrong f now g wrong few =
      let le = length-in_window_le now (g.limiter ip) in
      post_login_of_allow v ip f token now d g
        (rw (allow_lem ip now g.limiter) (ground (arith, le, few)))
      ∙ rw wrong

  record_failure-entry :
      (now : ℕ) (l : LoginLimiter) → record_failure ip now l ip ≡ l ip ++ now ∷ []
  unfolding record_failure
  record_failure-entry now l = rw (==_refl ip)

  -- The times of the attempts, in front of which those of `g` are.
  attempts-limiter :
      (now : ℕ) (more : List Attempt) (g : Gate)
      → All (IsWrong now) more
      → length (g.limiter ip) + length more ≤ login_max_fails
      → (attempts v ip token d more g).limiter ip ≡ g.limiter ip ++ map (λ a. a.at) more
  unfolding attempts
  attempts-limiter now [] g h le = sym (append_nil (g.limiter ip))
  attempts-limiter now (a ∷ more) g h le =
      rw (attempts, post_login-wrong a.form a.at g h.0.0 (omega (arith, le)))
        (attempts-limiter now more (refuse ip a.at g).1 h.1 (
            rw (record_failure-entry a.at g.limiter, length-append (g.limiter ip) (a.at ∷ []))
              (omega (arith, le)))
          ∙ rw (record_failure-entry a.at g.limiter)
              (snoc-append (g.limiter ip) a.at (map (λ a. a.at) more)))

  -- Ten wrong attempts open no session.
  attempts-sessions :
      (now : ℕ) (more : List Attempt) (g : Gate)
      → All (IsWrong now) more
      → length (g.limiter ip) + length more ≤ login_max_fails
      → (attempts v ip token d more g).sessions ≡ g.sessions
  unfolding attempts
  attempts-sessions now [] g h le = refl
  attempts-sessions now (a ∷ more) g h le =
      rw (attempts, post_login-wrong a.form a.at g h.0.0 (omega (arith, le)))
        (attempts-sessions now more (refuse ip a.at g).1 h.1 (
          rw (record_failure-entry a.at g.limiter, length-append (g.limiter ip) (a.at ∷ []))
            (omega (arith, le))))

  length-map_at : (more : List Attempt) → length (map (λ a. a.at) more) ≡ length more
  length-map_at [] = refl
  length-map_at (a ∷ more) = omega (arith, length-map_at more)

  are_recent :
      (now : ℕ) (more : List Attempt)
      → All (IsWrong now) more
      → All (λ t. is_past now t ≡ false) (map (λ a. a.at) more)
  are_recent now [] h = tt
  are_recent now (a ∷ more) h = (h.0.1, are_recent now more h.1)

  attempts-allow :
      (now : ℕ) (more : List Attempt) (g : Gate)
      → All (IsWrong now) more
      → length (g.limiter ip) + length more ≤ login_max_fails
      → login_max_fails ≤ length more
      → (allow ip now (attempts v ip token d more g).limiter).0 ≡ false
  attempts-allow now more g h le ten =
      rw (allow_lem ip now (attempts v ip token d more g).limiter, attempts-limiter now more g h le)
        (let full =
            length-in_window now (g.limiter ip) (map (λ a. a.at) more) (are_recent now more h) in
          let same = length-map_at more in ground (arith, full, same, ten))

-- From an address without failures, ten attempts with a wrong name or a wrong password, at times that
-- are not past, open no session, and close the login for the address: whatever comes next, also
-- the right password, is answered as too many requests and opens no session.
pub post_login-attempts :
    (verify_password : Text → Text → Outcome Text Bool) (ip : Text) (form : Option Credentials)
    (token next : Outcome Text Text) (now : ℕ) (d : Db) (tries : List Attempt) (g : Gate)
    → g.limiter ip ≡ []
    → length tries ≡ login_max_fails
    → All (IsWrong verify_password ip token d now) tries
    → let after = attempts verify_password ip token d tries g in
      ((post_login verify_password ip form next now d after).0 ≡ too_many_requests)
      × ((post_login verify_password ip form next now d after).1.sessions ≡ g.sessions)
unfolding post_login allow
post_login-attempts v ip form token next now d tries g fresh ten wrong =
    let sum : length (g.limiter ip) + length tries ≤ login_max_fails =
      rw fresh (omega (arith, ten)) in
    let same = attempts-sessions v ip token d now tries g wrong sum in
    let closed = attempts-allow v ip token d now tries g wrong sum (omega (arith, ten)) in
    (ground (arith, closed), ground (arith, closed, same))
