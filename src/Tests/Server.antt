-- ===== src/Tests/Server.antt =====
-- Sessions, the limiter, the accounts and the file of keys.
use backitup.Prelude.{
  ℕ, ◌+◌, ◌*◌, ◌≡◌, ◌<◌, refl, true, false, [], ◌∷◌, List, Text, some, codes, arith, nat_eq,
  text_eq, Bool, length, ok, select, count,
}
use backitup.Auth.Sessions.{SessionStore, new_session_store, create}
use backitup.Server.Limiter.{new_login_limiter, allow, record_failure, collect, is_past}
use backitup.Server.Limiter.Laws.{record_all, allow-record_all, allow-collect}
use backitup.Server.Users.{post_delete_user}
use backitup.Server.Users.Laws.{post_delete_user-remains}
use backitup.Store.Users.{count_users}
use backitup.AuthKeys.Render.{newline, quote, render, by_id}
use backitup.AuthKeys.Render.Injection.{is_emitted, count-render}
use backitup.Clock.{minute}
use backitup.Tests.Fixtures.{nas, laptop, db}

abbrev sessions : SessionStore
sessions = (create (ok (codes "t")) (codes "ann") 100 (new_session_store 50)).1

abbrev ten : List ℕ
ten = 100 ∷ 100 ∷ 100 ∷ 100 ∷ 100 ∷ 100 ∷ 100 ∷ 100 ∷ 100 ∷ 100 ∷ []

allow-record_all_example :
    ((allow (codes "a") 120 (record_all (codes "a") ten new_login_limiter)).0 ≡ false)
    × ((allow ([]) 120 (record_all (codes "a") ten new_login_limiter)).0
        ≡ (allow ([]) 120 new_login_limiter).0)
unfolding is_past
allow-record_all_example =
    allow-record_all (codes "a") ([]) ten 120 new_login_limiter
      (refl, (refl, (refl, (refl, (refl, (refl, (refl, (refl, (refl, (refl, tt))))))))))
      (omega arith) (λ e. cc)

allow-collect_example :
    (allow
      (codes "a")
      (2 * minute)
      (collect minute (record_failure (codes "a") 5 new_login_limiter))).0
    ≡ (allow (codes "a") (2 * minute) (record_failure (codes "a") 5 new_login_limiter)).0
unfolding record_failure text_eq
allow-collect_example =
    allow-collect (codes "a") minute (2 * minute) (record_failure (codes "a") 5 new_login_limiter)
      (omega arith) (tt, tt)

post_delete_user-remains_example :
    0 < count_users (post_delete_user (codes "1") (some 1) (ok (count_users db)) db).1
unfolding count_users
post_delete_user-remains_example =
    post_delete_user-remains (codes "1") (some 1) (ok (count_users db)) db
      ((omega arith, tt), (tt, tt)) (omega arith) (λ n e. ground (arith, e))

abbrev any_key : Text → Bool
any_key key = true

count-render_example :
    (count newline (render any_key (laptop ∷ nas ∷ []) (codes "/data")).0
      ≡ 1 + length (select (is_emitted any_key) (by_id (laptop ∷ nas ∷ []))))
    × (count quote (render any_key (laptop ∷ nas ∷ []) (codes "/data")).0
        ≡ 2 * length (select (is_emitted any_key) (by_id (laptop ∷ nas ∷ []))))
unfolding count nat_eq
count-render_example = count-render any_key (laptop ∷ nas ∷ []) (codes "/data") refl refl
