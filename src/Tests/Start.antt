-- ===== src/Tests/Start.antt =====
-- Hashes, the start of the server, and a worker that wakes every five minutes.
use backitup.Prelude.{
  ℕ, ◌*◌, ◌≤◌, ◌≡◌, ◌≢◌, refl, true, false, [], Text, Outcome, ok, err, some, codes, arith, ◌==◌,
  text_eq, nat_eq, if◌then◌else◌,
}
use backitup.Clock.{minute}
use backitup.Store.OffsiteRuns.{running_offsite_client_ids}
use backitup.Auth.Password.{
  hash_password, verify_password, argon_time, argon_memory, argon_threads, argon_key_len,
}
use backitup.Auth.Password.Laws.{verify_password-hash_password}
use backitup.Auth.Sessions.{new_session_store}
use backitup.Server.Response.{redirect}
use backitup.Server.Limiter.{allow, new_login_limiter}
use backitup.Server.Login.{Gate, Credentials, post_login, require_admin}
use backitup.Start.{Environment, start}
use backitup.Start.Laws.{start-post_login, admin_user, admin_password}
use backitup.Lifecycle.Worker.{
  worker_interval, start_worker, next_aligned_tick, pass, Reach, here, next, reset,
}
use backitup.Lifecycle.Worker.Spaced.{Reach-AreSpaced, AreSpaced}
use backitup.Tests.Crypto.{crypto, crypto_laws}
use backitup.Tests.Fixtures.{db, present}

abbrev hash : Outcome Text Text
hash = hash_password crypto (codes "pw") (ok (codes "salt"))

abbrev hash_text : Text
hash_text = elim hash [ ok h ↦ h | err e ↦ e ]

hash_ok : hash ≡ ok hash_text
unfolding hash_password
hash_ok = refl

verify_password-hash_password_example :
    (verify_password crypto (codes "no") hash_text
      ≡ ok (
          crypto.id_key
            (codes "no")
            (codes "salt")
            argon_time
            argon_memory
            argon_threads
            argon_key_len
          == crypto.id_key
              (codes "pw")
              (codes "salt")
              argon_time
              argon_memory
              argon_threads
              argon_key_len))
    × (verify_password crypto (codes "pw") hash_text ≡ ok true)
verify_password-hash_password_example =
    verify_password-hash_password crypto crypto_laws (codes "pw") (codes "salt") (codes "no")
      hash_text (omega arith) hash_ok

abbrev environment : Environment
environment k =
    if k == admin_user then codes "root" else if k == admin_password then codes "pw" else []

user_set : environment admin_user ≢ []
unfolding text_eq nat_eq
user_set h = absurd (ground (arith, h))

password_set : environment admin_password ≢ []
unfolding text_eq nat_eq
password_set h = absurd (ground (arith, h))

abbrev closed : Gate
closed = record { limiter = new_login_limiter; sessions = new_session_store 100 }

abbrev form : Credentials
form = record { username = environment admin_user; password = environment admin_password }

start-post_login_example :
    let (result, d') = start crypto environment (ok (codes "salt")) present db in
    let (answer, g') =
      post_login (verify_password crypto) (codes "a") (some form) (ok (codes "t")) 7 d' closed in
    (result ≡ ok tt)
    × (answer ≡ redirect (codes "/"))
    × ((require_admin (some (codes "t")) 9 g'.sessions).0 ≡ some (environment admin_user))
    × ((client_id : ℕ) → running_offsite_client_ids d' client_id ≡ false)
unfolding allow new_session_store
start-post_login_example =
    start-post_login crypto crypto_laws environment (codes "salt") (codes "t") (codes "a") present 7
      9 db closed (omega arith) user_set password_set refl (λ h. cc) (omega arith)

abbrev five : ℕ
five = worker_interval (5 * minute)

one_pass :
    Reach five
      (start_worker five 7 8)
      (reset five (6 * minute) (7 * minute) (7 * minute) (start_worker five 7 8))
unfolding start_worker next_aligned_tick worker_interval
one_pass = next here (
    pass (start_worker five 7 8) (6 * minute) (7 * minute) (7 * minute) refl (omega arith)
      (omega arith) (omega arith))

Reach-AreSpaced_example :
    AreSpaced five
      (reset five (6 * minute) (7 * minute) (7 * minute) (start_worker five 7 8)).passes
    × ((clock until : ℕ) → clock ≤ until → next_aligned_tick five clock until ≤ five)
Reach-AreSpaced_example = Reach-AreSpaced (5 * minute) 7 8 _ one_pass
