-- ===== src/Server/Login.antt =====
-- internal/server/handlers.go: the login, the logout and the check of the session in front of every
-- page. `auth.VerifyPassword` is a parameter; the address, the form, the token that `crypto/rand`
-- yields and the time, which is read once, are arguments.
pub mod Laws
use backitup.Prelude.{
  ℕ, Bool, true, false, not, [], Text, Outcome, ok, err, Option, none, some, if◌then◌else◌, codes,
}
use backitup.Model.{User}
use backitup.Store.{Db}
use backitup.Store.Users.{get_user_by_username}
use backitup.Auth.Sessions.{SessionStore, create, valid, username_of, delete}
use backitup.Server.Response.{
  Response, redirect, bad_request, unauthorized, too_many_requests, internal_error,
}
use backitup.Server.Limiter.{LoginLimiter, allow, record_failure}

-- The server's state in memory that a login changes.
pub record Gate : Type 0 where
  pub limiter : LoginLimiter
  pub sessions : SessionStore

pub record Credentials : Type 0 where
  pub username : Text
  pub password : Text

-- The name of the session's user, `none` for the redirect to the login.
unfoldable pub require_admin : Option Text → ℕ → SessionStore → Option Text × SessionStore
require_admin none now s = (none, s)
require_admin (some cookie) now s =
    let (is_valid, s') = valid cookie now s in
    if is_valid then (some (username_of cookie now s'), s') else (none, s')

-- A failed login counts against the address.
abbrev refuse : Text → ℕ → Gate → Response × Gate
refuse ip now g = (unauthorized, record g { limiter = record_failure ip now g.limiter })

-- The session of a user who has been verified.
unfoldable pub open_session : Outcome Text Text → Text → ℕ → Gate → Response × Gate
open_session token username now g = answer (create token username now g.sessions)
  where
    answer : Outcome Text Text × SessionStore → Response × Gate
    answer (ok tok, s) = (redirect (codes "/"), record g { sessions = s })
    answer (err e, s) = (internal_error, record g { sessions = s })

module _ (verify_password : Text → Text → Outcome Text Bool) where
  abbrev pub is_verified : Outcome Text Bool → Bool
  is_verified (ok b) = b
  is_verified (err e) = false

  -- Whether a user was found whose hash verifies the password.
  unfoldable pub is_user : Credentials → Option User → Bool
  is_user f none = false
  is_user f (some u) = is_verified (verify_password f.password u.password_hash)

  unfoldable pub check_login :
      Text → Credentials → Outcome Text Text → ℕ → Db → Gate → Response × Gate
  check_login ip f token now d g =
      if is_user f (get_user_by_username f.username d)
      then open_session token f.username now g
      else refuse ip now g

  -- The form is `none` where it cannot be parsed.
  unfoldable pub post_login :
      Text → Option Credentials → Outcome Text Text → ℕ → Db → Gate → Response × Gate
  post_login ip form token now d g =
      let (allowed, l) = allow ip now g.limiter in
      let g' = record g { limiter = l } in
      if not allowed then (too_many_requests, g') else elim form [
        | none ↦ (bad_request (codes "Invalid form."), g')
        | some f ↦ check_login ip f token now d g'
      ]

unfoldable pub post_logout : Option Text → SessionStore → Response × SessionStore
post_logout none s = (redirect (codes "/login"), s)
post_logout (some cookie) s = (redirect (codes "/login"), delete cookie s)
