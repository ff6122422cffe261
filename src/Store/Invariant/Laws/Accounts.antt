-- ===== src/Store/Invariant/Laws/Accounts.antt =====
-- The statements on users and remotes keep the database well-formed.
use backitup.Prelude.{ℕ, refl, any, inl, inr, List, Text, ◌==◌, nat_eq, text_eq, Bool-cases}
use backitup.Prelude.Rows.{
  DistinctBy, DistinctBy-select, DistinctBy-update, DistinctBy-snoc, All-ne_of_any,
}
use backitup.Model.{User}
use backitup.Store.{Db, Remote}
use backitup.Store.Users.{create_user, upsert_user, delete_user}
use backitup.Store.Remotes.{create_remote, update_remote, delete_remote}
use backitup.Store.Invariant.{IsSound}

module _ (d : Db) (v : IsSound d) where
  with_users :
      (users : List User) (next : ℕ)
      → DistinctBy (λ u. u.username) users
      → IsSound (record d { users = users; next_user = next })
  with_users users next distinct = record {
    clients = v.clients;
    runs = v.runs;
    objects = v.objects;
    sessions = v.sessions;
    users = distinct;
    remotes = v.remotes;
  }

  with_remotes :
      (remotes : List Remote) (next : ℕ)
      → DistinctBy (λ r. r.name) remotes
      → IsSound (record d { remotes = remotes; next_remote = next })
  with_remotes remotes next distinct = record {
    clients = v.clients;
    runs = v.runs;
    objects = v.objects;
    sessions = v.sessions;
    users = v.users;
    remotes = distinct;
  }

  pub create_user-IsSound :
      (username hash : Text) (now : ℕ) → IsSound (create_user username hash now d).1
  unfolding create_user
  create_user-IsSound username hash now =
      elim (Bool-cases (any (λ u. u.username == username) d.users)) [
        | inl taken ↦ rw taken v
        | inr free ↦ rw free (
            with_users _ _ (
              DistinctBy-snoc (λ u. u.username) d.users _ v.users
                (All-ne_of_any (λ u. u.username) username d.users free)))
      ]

  pub upsert_user-IsSound :
      (username hash : Text) (now : ℕ) → IsSound (upsert_user username hash now d)
  unfolding upsert_user
  upsert_user-IsSound username hash now =
      elim (Bool-cases (any (λ u. u.username == username) d.users)) [
        | inl known ↦ rw known (
            with_users _ _ (
              DistinctBy-update (λ u. u.username) (λ u. u.username == username)
                (λ u. record u { password_hash = hash }) d.users (λ u. refl) v.users))
        | inr free ↦ rw free (
            with_users _ _ (
              DistinctBy-snoc (λ u. u.username) d.users _ v.users
                (All-ne_of_any (λ u. u.username) username d.users free)))
      ]

  pub delete_user-IsSound : (id : ℕ) → IsSound (delete_user id d).1
  unfolding delete_user
  delete_user-IsSound id = elim (Bool-cases (any (λ u. u.id == id) d.users)) [
    | inl found ↦ rw found (with_users _ _ (DistinctBy-select (λ u. u.username) _ d.users v.users))
    | inr absent ↦ rw absent v
  ]

  pub create_remote-IsSound : (r : Remote) → IsSound (create_remote r d).1
  unfolding create_remote
  create_remote-IsSound r = elim (Bool-cases (any (λ q. q.name == r.name) d.remotes)) [
    | inl taken ↦ rw taken v
    | inr free ↦ rw free (
        with_remotes _ _ (
          DistinctBy-snoc (λ q. q.name) d.remotes _ v.remotes
            (All-ne_of_any (λ q. q.name) r.name d.remotes free)))
  ]

  pub update_remote-IsSound :
      (name : Text) (config : List (Text × Text)) → IsSound (update_remote name config d)
  unfolding update_remote
  update_remote-IsSound name config = with_remotes _ _ (
      DistinctBy-update (λ r. r.name) (λ r. r.name == name) (λ r. record r { config = config })
        d.remotes (λ r. refl) v.remotes)

  pub delete_remote-IsSound : (name : Text) → IsSound (delete_remote name d)
  unfolding delete_remote
  delete_remote-IsSound name =
      with_remotes _ _ (DistinctBy-select (λ r. r.name) _ d.remotes v.remotes)
