-- ===== src/Server/Users.antt =====
-- internal/server/users.go: the accounts of the admins. `auth.HashPassword` is a parameter.
pub mod Laws
use backitup.Prelude.{
  ℕ, Bool, true, false, ◌||◌, not, List, [], ◌∷◌, ◌+◌, Text, Outcome, ok, err, length, leb, ltb,
  ◌==◌, text_eq, if◌then◌else◌, codes, Option, none, some,
}
use backitup.Store.{Db, Answer}
use backitup.Server.Response.{Response, redirect, bad_request, not_found, internal_error}
use backitup.Store.Users.{create_user, delete_user}

-- `len(password)` counts bytes: of a code point, its UTF-8 encoding.
utf8_size : Text → ℕ
utf8_size [] = 0
utf8_size (c ∷ cs) =
    utf8_size cs + (if ltb c 128 then 1 else if ltb c 2048 then 2 else if ltb c 65536 then 3 else 4)

module _ (hash_password : Text → Outcome Text Text) where
  unfoldable pub post_create_user : Text → Text → ℕ → Db → Response × Db
  unfolding utf8_size
  post_create_user username password now d =
      if username == [] || password == []
      then (bad_request (codes "Username and password are required."), d)
      else if ltb (utf8_size password) 8
      then (bad_request (codes "Password must be at least 8 characters."), d)
      else elim (hash_password password) [
        | err e ↦ (internal_error, d)
        | ok hash ↦ insert (create_user username hash now d)
      ]
    where
      insert : Answer ℕ → Response × Db
      insert (ok id, d') = (redirect (codes "/users"), d')
      insert (err e, d') =
          (bad_request (codes "Could not create user (is the username already taken?)."), d')

-- The answer to the deletion itself.
unfoldable pub remove_user : ℕ → Db → Response × Db
remove_user id d = answer (delete_user id d)
  where
    answer : Answer (Unit {0}) → Response × Db
    answer (ok u, d') = (redirect (codes "/users"), d')
    answer (err e, d') = (not_found, d')

-- The checks of the form and of the number of users, which a statement of its own counts, or fails to.
-- `none` lets the deletion go on.
unfoldable pub check_delete : Text → Option ℕ → Outcome Text ℕ → Option Response
check_delete confirm id counted =
    if not (confirm == codes "1")
    then some (bad_request (codes "confirmation required"))
    else elim id [
      | none ↦ some not_found
      | some i ↦ elim counted [
        | err e ↦ some internal_error
        | ok n ↦ if leb n 1 then some (bad_request (codes "cannot delete the last user")) else none
      ]
    ]

abbrev delete_checked : Option ℕ → Db → Response × Db
delete_checked none d = (not_found, d)
delete_checked (some i) d = remove_user i d

-- With the id of the path, `none` if it is not a number, and the answer to the count. The deletion is a
-- later statement, on the database of that time.
unfoldable pub post_delete_user : Text → Option ℕ → Outcome Text ℕ → Db → Response × Db
unfolding check_delete remove_user
post_delete_user confirm id counted d = elim (check_delete confirm id counted) [
  | some r ↦ (r, d)
  | none ↦ delete_checked id d
]
