-- ===== src/Start.antt =====
-- cmd/server/main.go: the settings that the server reads from the environment, and what it writes to
-- the database before it serves. `auth.HashPassword` is that of Auth/Password; `time.ParseDuration`
-- is a parameter, whose result is an int64 as its bit pattern.
pub mod Laws
use backitup.Prelude.{
  ℕ, Bool, true, false, ◌&&◌, ◌||◌, [], ◌==◌, Text, Outcome, ok, err, Option, none, some, find, ltb,
  not, nat_eq, text_eq, if◌then◌else◌, codes,
}
use backitup.Clock.{hour, minute, is_positive}
use backitup.Model.{Client}
use backitup.Store.{Db}
use backitup.Store.Clients.{list_clients}
use backitup.Store.Users.{upsert_user}
use backitup.Store.OffsiteRuns.{mark_stale_offsite_runs_failed}
use backitup.Auth.Password.{Crypto, hash_password}
use backitup.Server.Forms.{atoi}
use backitup.Lifecycle.{
  Platform, Deps, World, Action, Failure, database, tool, return, ◌>>=◌, attempt, handle, query,
}
use backitup.Lifecycle.Upload.{offsite_client}

-- A variable that is not set is empty.
abbrev pub Environment : Type 0
Environment = Text → Text

unfoldable pub getenv : Environment → Text → Text → Text
getenv env k def = if env k == [] then def else env k

unfoldable pub parse_interval : (Text → Option ℕ) → Text → ℕ
parse_interval parse_duration s = elim (parse_duration s) [
  | none ↦ hour
  | some d ↦ if is_positive d then d else hour
]

-- A number of the environment that is not negative, or the default.
unfoldable pub atoi_env : Environment → Text → ℕ → ℕ
atoi_env env k def =
    if env k == []
    then def
    else elim (atoi (env k)) [ none ↦ def | some r ↦ if r.0 && ltb 0 r.1 then def else r.1 ]

-- The user of the environment, where it names one, and the salt that `crypto/rand` yields.
unfoldable pub bootstrap_admin :
    Crypto → Environment → Outcome Text Text → ℕ → Db → Outcome Text (Unit {0}) × Db
bootstrap_admin c env salt now d =
    if username == [] || pass == [] then (ok tt, d) else configure (hash_password c pass salt)
  where
    username : Text
    username = env (codes "BACKITUP_ADMIN_USER")

    pass : Text
    pass = env (codes "BACKITUP_ADMIN_PASSWORD")

    configure : Outcome Text Text → Outcome Text (Unit {0}) × Db
    configure (ok hash) = (ok tt, upsert_user username hash now d)
    configure (err e) = (err e, d)

-- What `main` writes before it serves; an error of the first ends the program.
unfoldable pub start :
    Crypto → Environment → Outcome Text Text → ℕ → Db → Outcome Text (Unit {0}) × Db
start c env salt now d = continue (bootstrap_admin c env salt now d)
  where
    continue : Outcome Text (Unit {0}) × Db → Outcome Text (Unit {0}) × Db
    continue (ok u, d') = (ok u, mark_stale_offsite_runs_failed d')
    continue (err e, d') = (err e, d')

-- The function behind "Backup now".
unfoldable pub offsite_trigger : (P : Platform) → Deps → ℕ → Action P (Option Failure)
offsite_trigger P d client_id =
    attempt (query list_clients) (λ e. return (some (database e)))
      λ clients. elim (find (λ c. c.id == client_id) clients) [
        | none ↦ return (some (tool (codes "client not found")))
        | some c ↦ offsite_client P d c
      ]
