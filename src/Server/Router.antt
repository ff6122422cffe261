-- ===== src/Server/Router.antt =====
-- internal/server/server.go: a request on its way through the headers, the routes and the guards. The
-- choice of a pattern by `http.ServeMux`, the server of files, `auth.VerifyPassword` and the handlers
-- behind the guards are parameters; the files of the handlers model these one by one. A read of the
-- database does not fail, so `healthz` answers that all is well.
pub mod Strangers
use backitup.Prelude.{
  ℕ, Bool, List, [], ◌∷◌, ◌++◌, map, find, length, drop, Text, Outcome, ok, err, Option, none, some,
  ◌==◌, text_eq, if◌then◌else◌, codes, is_prefix, trim_space,
}
use backitup.Model.{Client}
use backitup.Store.{Db}
use backitup.Auth.Sessions.{SessionStore}
use backitup.Server.Response.{Response, redirect, page, not_found, unauthorized}
use backitup.Server.Login.{Gate, Credentials, require_admin, post_login, post_logout}
use backitup.Server.ClientApi.{require_client}
use backitup.Server.Routes.{Open, Admin, Api, Handler, routes}

-- The session cookie, the header of the token, the form of the login, `none` where it cannot be
-- parsed, and what `crypto/rand` yields for a session.
pub record Request : Type 0 where
  pub method : Text
  pub path : Text
  pub ip : Text
  pub cookie : Option Text
  pub authorization : Text
  pub form : Option Credentials
  pub token : Outcome Text Text

-- What requests change.
pub record Site : Type 0 where
  pub gate : Gate
  pub db : Db

unfoldable pub bearer_token : Text → Text
bearer_token h =
    let prefix : Text = codes "Bearer " in
    if is_prefix prefix h then trim_space (drop (length prefix) h) else []

-- What is set before the handler runs.
unfoldable security_headers : Bool → List (Text × Text)
security_headers secure =
    (codes "X-Content-Type-Options", codes "nosniff")
    ∷ (codes "X-Frame-Options", codes "DENY")
    ∷ (codes "Referrer-Policy", codes "same-origin")
    ∷ (
      codes "Content-Security-Policy",
      codes
          "default-src 'self'; style-src 'self'; img-src 'self'; object-src 'none'; frame-ancestors 'none'; form-action 'self'; base-uri 'self'",
    )
    ∷ (codes "Permissions-Policy", codes "camera=(), microphone=(), geolocation=()")
    ∷ (if secure
        then (codes "Strict-Transport-Security", codes "max-age=63072000; includeSubDomains") ∷ []
        else [])

module _ (verify_password : Text → Text → Outcome Text Bool) (serve_file : Text → Response)
    (admin : Admin → Text → Request → ℕ → Site → Response × Site)
    (api : Api → Client → Request → ℕ → Site → Response × Site) where
  unfoldable pub serve_open : Open → Request → ℕ → Site → Response × Site
  serve_open Open.healthz r now s = (page, s)
  serve_open Open.static r now s = (serve_file r.path, s)
  serve_open Open.get_login r now s = (page, s)
  serve_open Open.post_login r now s =
      let (a, g) = post_login verify_password r.ip r.form r.token now s.db s.gate in
      (a, record s { gate = g })
  serve_open Open.post_logout r now s =
      let (a, sessions) = post_logout r.cookie s.gate.sessions in
      (a, record s { gate = record s.gate { sessions = sessions } })

  -- The handler runs for a user; there is none for the redirect to the login.
  abbrev enter : Admin → Option Text → Request → ℕ → Site → Response × Site
  enter h none r now s = (redirect (codes "/login"), s)
  enter h (some username) r now s = admin h username r now s

  unfoldable pub serve_admin : Admin → Request → ℕ → Site → Response × Site
  serve_admin h r now s =
      let (user, sessions) = require_admin r.cookie now s.gate.sessions in
      enter h user r now (record s { gate = record s.gate { sessions = sessions } })

  abbrev enter_api : Api → Option Client → Request → ℕ → Site → Response × Site
  enter_api h none r now s = (unauthorized, s)
  enter_api h (some cl) r now s = api h cl r now s

  unfoldable pub serve_api : Api → Request → ℕ → Site → Response × Site
  serve_api h r now s =
      enter_api h (require_client verify_password (bearer_token r.authorization) s.db) r now s

  unfoldable pub handle : Handler → Request → ℕ → Site → Response × Site
  unfolding serve_open serve_admin serve_api
  handle (Handler.plain h) = serve_open h
  handle (Handler.require_admin h) = serve_admin h
  handle (Handler.require_client h) = serve_api h

  -- The pattern that the mux picks for a method and a path, or an answer of its own.
  module _ (mux : List Text → Text → Text → Outcome Response Text) where
    abbrev pub run_route : Option (Text × Handler) → Request → ℕ → Site → Response × Site
    run_route none r now s = (not_found, s)
    run_route (some route) r now s = handle route.1 r now s

    abbrev pub dispatch : Outcome Response Text → Request → ℕ → Site → Response × Site
    dispatch (err a) r now s = (a, s)
    dispatch (ok pattern) r now s = run_route (find (λ route. route.0 == pattern) routes) r now s

    unfoldable pub serve : Request → ℕ → Site → Response × Site
    unfolding handle
    serve r now s = dispatch (mux (map (λ route. route.0) routes) r.method r.path) r now s

    -- The requests of a time, one behind the other.
    unfoldable pub serve_all : List (Request × ℕ) → Site → Site
    unfolding serve
    serve_all [] s = s
    serve_all (r ∷ rs) s = serve_all rs (serve r.0 r.1 s).1
