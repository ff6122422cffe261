-- ===== src/Server/Users/Laws.antt =====
-- That an admin remains, and when not.
use backitup.Prelude.{
  ℕ, ◌+◌, ◌≤◌, ◌<◌, ◌≡◌, ◌≢◌, refl, subst, ◌∙◌, true, not, List, [], ◌∷◌, Text, Outcome, ok, err,
  Option, none, some, All, any, select, length, arith, eq_of_==, ◌==◌, nat_eq, text_eq, codes,
  Bool-cases, inl, inr,
}
use backitup.Prelude.Rows.{DistinctBy}
use backitup.Model.{User}
use backitup.Store.{Db}
use backitup.Store.Users.{delete_user, count_users}
use backitup.Server.Users.{post_delete_user, check_delete, remove_user}

-- Of rows with distinct ids, at most one has a given id.
select_all :
    (id : ℕ) (us : List User)
    → All (λ u. u.id ≢ id) us
    → length (select (λ u. not (u.id == id)) us) ≡ length us
select_all id [] h = refl
select_all id (u ∷ us) h = ground (arith, h.0, select_all id us h.1)

same_rest :
    (u : User) (id : ℕ) (us : List User)
    → All (λ y. y.id ≢ u.id) us
    → u.id ≡ id
    → length (select (λ y. not (y.id == id)) us) ≡ length us
same_rest u id us h e = select_all id us (subst (λ k. All (λ y. y.id ≢ k) us) e h)

length-select_id :
    (id : ℕ) (us : List User)
    → DistinctBy (λ u. u.id) us
    → length us ≤ length (select (λ u. not (u.id == id)) us) + 1
length-select_id id [] h = omega arith
length-select_id id (u ∷ us) h = elim (Bool-cases (u.id == id)) [
  | inl e ↦ rw e (ground (arith, eq_of_== u.id id e, same_rest u id us h.0))
  | inr e ↦ rw e (ground (arith, length-select_id id us h.1))
]

remove_user-users :
    (id : ℕ) (d : Db)
    → any (λ u. u.id == id) d.users ≡ true
    → (remove_user id d).1.users ≡ select (λ u. not (u.id == id)) d.users
unfolding remove_user delete_user
remove_user-users id d e = rw e refl

-- The rows that a deletion leaves are at least all but one.
count_users-remove_user :
    (id : ℕ) (d : Db)
    → DistinctBy (λ u. u.id) d.users
    → count_users d ≤ count_users (remove_user id d).1 + 1
unfolding remove_user count_users delete_user
count_users-remove_user id d distinct = elim (Bool-cases (any (λ u. u.id == id) d.users)) [
  | inl e ↦ rw e (length-select_id id d.users distinct)
  | inr e ↦ rw e (omega arith)
]

-- A deletion, whatever its form and its id and whether the count failed, leaves at least one user where
-- there was one, provided that no two users have one id and that since the count, no other request
-- took a user: the table has as many as were counted.
pub post_delete_user-remains :
    (confirm : Text) (id : Option ℕ) (counted : Outcome Text ℕ) (d : Db)
    → DistinctBy (λ u. u.id) d.users
    → 0 < count_users d
    → ((n : ℕ) → counted ≡ ok n → n ≤ count_users d)
    → 0 < count_users (post_delete_user confirm id counted d).1
unfolding post_delete_user check_delete
post_delete_user-remains confirm none counted d distinct nonempty fresh = ground (arith, nonempty)
post_delete_user-remains confirm (some i) (err e) d distinct nonempty fresh =
    ground (arith, nonempty)
post_delete_user-remains confirm (some i) (ok n) d distinct nonempty fresh =
    let rest = count_users-remove_user i d distinct in
    let bound = fresh n refl in ground (arith, rest, nonempty, bound)

passed :
    (i n : ℕ) (d : Db) → 1 < n → post_delete_user (codes "1") (some i) (ok n) d ≡ remove_user i d
unfolding post_delete_user check_delete text_eq
passed i n d h = ground (arith, h)

-- In a database of two users with different ids, two deletions of the two, whose counts both run in
-- front of both removals, leave no user.
delete_race :
    (a b : User) (d : Db)
    → a.id ≢ b.id
    → d.users ≡ a ∷ b ∷ []
    → let counted = ok (count_users d) in
      let d' = (post_delete_user (codes "1") (some a.id) counted d).1 in
      count_users (post_delete_user (codes "1") (some b.id) counted d').1 ≡ 0
unfolding count_users
delete_race a b d apart two =
    rw
      (
        passed a.id (count_users d) d (rw two (omega arith)),
        passed b.id (count_users d) (remove_user a.id d).1 (rw two (omega arith)),
        gone,
      )
      refl
  where
    first : (remove_user a.id d).1.users ≡ b ∷ []
    first = remove_user-users a.id d (rw two (ground arith)) ∙ rw two (ground arith)

    gone : (remove_user b.id (remove_user a.id d).1).1.users ≡ []
    gone =
        remove_user-users b.id (remove_user a.id d).1 (rw first (ground arith))
        ∙ rw first (ground arith)
