-- ===== src/Start/Laws.antt =====
-- What the start of the server leaves.
use backitup.Prelude.{
  ℕ, ◌+◌, ◌<◌, ◌^◌, ◌≡◌, ◌≢◌, refl, ap, ◌∙◌, true, false, ◌&&◌, List, [], ◌∷◌, ◌++◌, Text, ok,
  Option, some, find, any, update, ◌==◌, ==_refl, nat_eq, text_eq, arith, codes, Bool-cases, inl,
  inr,
}
use backitup.Clock.{is_positive}
use backitup.Model.{User, OffsiteRun}
use backitup.Store.{Db}
use backitup.Store.Users.{upsert_user, get_user_by_username}
use backitup.Store.OffsiteRuns.{mark_stale_offsite_runs_failed, running_offsite_client_ids}
use backitup.Auth.Password.{Crypto, Documented, hash_password, verify_password}
use backitup.Auth.Password.Laws.{verify_password-hash_password}
use backitup.Server.Response.{redirect}
use backitup.Server.Limiter.{allow}
use backitup.Server.Login.{Gate, Credentials, post_login, require_admin}
use backitup.Server.Login.Laws.{post_login-require_admin}
use backitup.Start.{Environment, parse_interval, bootstrap_admin, start}

-- An interval from the environment is positive, whatever is written there.
pub parse_interval_positive :
    (parse_duration : Text → Option ℕ) (s : Text)
    → is_positive (parse_interval parse_duration s) ≡ true
unfolding parse_interval
parse_interval_positive p s = ground arith

module _ (username hash : Text) where
  -- The user is found under the new hash.
  find-update_self :
      (us : List User)
      → any (λ u. u.username == username) us ≡ true
      → (u : User) × (find
            (λ u. u.username == username)
            (update (λ u. u.username == username) (λ u. record u { password_hash = hash }) us)
          ≡ some u)
        × (u.password_hash ≡ hash)
  find-update_self [] h = absurd (cc)
  find-update_self (u ∷ us) h = elim (Bool-cases (u.username == username)) [
    | inl e ↦ (record u { password_hash = hash }, rw (e, e) refl, refl)
    | inr e ↦
        let (w, found, same) = find-update_self us (ground (arith, h, e)) in
        (w, rw (e, e) found, same)
  ]

  find-snoc_self :
      (us : List User) (u : User)
      → any (λ u. u.username == username) us ≡ false
      → u.username ≡ username
      → find (λ u. u.username == username) (us ++ u ∷ []) ≡ some u
  find-snoc_self [] u h e = rw (e, ==_refl username) refl
  find-snoc_self (w ∷ us) u h e = ground (arith, h, find-snoc_self us u)

  get_user_by_username-upsert_user :
      (now : ℕ) (d : Db)
      → (u : User) × (get_user_by_username username (upsert_user username hash now d) ≡ some u)
        × (u.password_hash ≡ hash)
  unfolding get_user_by_username upsert_user
  get_user_by_username-upsert_user now d =
      elim (Bool-cases (any (λ u. u.username == username) d.users)) [
        | inl e ↦ rw e (find-update_self d.users e)
        | inr e ↦ rw e (_, find-snoc_self d.users _ e refl, refl)
      ]

none_running :
    (c : ℕ) (rs : List OffsiteRun) (t : Text)
    → any
        (λ r. r.client_id == c && r.status == codes "running")
        (update
          (λ r. r.status == codes "running")
          (λ r. record r { status = codes "failed"; error_text = t })
          rs)
      ≡ false
none_running c [] t = refl
none_running c (r ∷ rs) t = elim (Bool-cases (r.status == codes "running")) [
  | inl e ↦ rw e (ground (arith, none_running c rs t))
  | inr e ↦ rw (e, e) (ground (arith, none_running c rs t))
]

mark_stale-user :
    (name : Text) (d : Db)
    → get_user_by_username name (mark_stale_offsite_runs_failed d) ≡ get_user_by_username name d
unfolding get_user_by_username mark_stale_offsite_runs_failed
mark_stale-user name d = refl

-- The environment names a user, with a password that is not empty.
abbrev pub admin_user : Text
admin_user = codes "BACKITUP_ADMIN_USER"

abbrev pub admin_password : Text
admin_password = codes "BACKITUP_ADMIN_PASSWORD"

hash_password_ok :
    (c : Crypto) (pw salt : Text) → pw ≢ [] → (h : Text) × (hash_password c pw (ok salt) ≡ ok h)
unfolding hash_password
hash_password_ok c [] salt n = absurd (n refl)
hash_password_ok c (x ∷ pw) salt n = (_, refl)

start_found :
    (c : Crypto) (env : Environment) (salt h : Text) (now : ℕ) (d : Db)
    → env admin_user ≢ []
    → env admin_password ≢ []
    → hash_password c (env admin_password) (ok salt) ≡ ok h
    → start c env (ok salt) now d
      ≡ (ok tt, mark_stale_offsite_runs_failed (upsert_user (env admin_user) h now d))
unfolding start bootstrap_admin
start_found c env salt h now d n m e = ground (arith, n, m, e)

-- Where Argon2, base64 and the scanning behave as documented and the environment names a user with a
-- password, the start succeeds, whatever the table of users has; then, where the limiter allows the
-- address, a login with that name and that password leads to "/" and opens a session of that user,
-- which lasts for the lifetime of the sessions, and no offsite run is left running.
pub start-post_login :
    (c : Crypto) (D : Documented c) (env : Environment) (salt tok ip : Text) (now at later : ℕ)
    (d : Db) (g : Gate)
    → c.version < 2 ^ 32
    → env admin_user ≢ []
    → env admin_password ≢ []
    → (allow ip at g.limiter).0 ≡ true
    → tok ≢ []
    → later < at + g.sessions.ttl
    → let (result, d') = start c env (ok salt) now d in
      let form : Credentials = record {
        username = env admin_user;
        password = env admin_password;
      } in
      let (answer, g') = post_login (verify_password c) ip (some form) (ok tok) at d' g in
      (result ≡ ok tt)
      × (answer ≡ redirect (codes "/"))
      × ((require_admin (some tok) later g'.sessions).0 ≡ some (env admin_user))
      × ((client_id : ℕ) → running_offsite_client_ids d' client_id ≡ false)
unfolding running_offsite_client_ids mark_stale_offsite_runs_failed
start-post_login c D env salt tok ip now at later d g small n m a t l =
    let (h, hashed) = hash_password_ok c (env admin_password) salt m in
    let (u, found, same) = get_user_by_username-upsert_user (env admin_user) h now d in
    let known = mark_stale-user (env admin_user) (upsert_user (env admin_user) h now d) ∙ found in
    let verified =
      ap (verify_password c (env admin_password)) same
      ∙ (verify_password-hash_password c D (env admin_password) salt (env admin_password) h small
          hashed).1 in
    let (to_root, inside, expired, after) =
      post_login-require_admin (verify_password c) ip
        (record { username = env admin_user; password = env admin_password }) tok at later
        (at + g.sessions.ttl)
        (mark_stale_offsite_runs_failed (upsert_user (env admin_user) h now d)) g u a known verified
        t l (omega arith) in
    rw (start_found c env salt h now d n m hashed)
      (refl, to_root, inside, λ client_id. none_running client_id _ _)
