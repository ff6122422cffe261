-- ===== src/Store/Users.antt =====
-- The `users` table.
use backitup.Prelude.{
  ℕ, ◌+◌, List, [], ◌∷◌, ◌++◌, Option, Text, ok, err, any, find, select, update, length, sort_by,
  not, ◌==◌, nat_eq, text_eq, if◌then◌else◌,
}
use backitup.Clock.Stamp.{text_lt}
use backitup.Model.{User}
use backitup.Store.{Db, Answer, unique, not_found}

abbrev insert_user : Text → Text → ℕ → Db → Db
insert_user username password_hash now d = record d {
  users = d.users ++ row ∷ [];
  next_user = d.next_user + 1;
}
  where
    row : User
    row = record {
      id = d.next_user;
      username = username;
      password_hash = password_hash;
      created_at = now;
    }

unfoldable pub create_user : Text → Text → ℕ → Db → Answer ℕ
create_user username password_hash now d =
    if any (λ u. u.username == username) d.users
    then (err unique, d)
    else (ok d.next_user, insert_user username password_hash now d)

unfoldable pub upsert_user : Text → Text → ℕ → Db → Db
upsert_user username password_hash now d =
    if any (λ u. u.username == username) d.users
    then record d {
      users =
          update (λ u. u.username == username) (λ u. record u { password_hash = password_hash })
            d.users;
    }
    else insert_user username password_hash now d

unfoldable pub list_users : Db → List User
list_users d = sort_by (λ a b. text_lt a.username b.username) d.users

unfoldable pub get_user_by_username : Text → Db → Option User
get_user_by_username username d = find (λ u. u.username == username) d.users

unfoldable pub delete_user : ℕ → Db → Answer (Unit {0})
delete_user id d =
    if any (λ u. u.id == id) d.users
    then (ok tt, record d { users = select (λ u. not (u.id == id)) d.users })
    else (err not_found, d)

unfoldable pub count_users : Db → ℕ
count_users d = length d.users
