-- ===== src/Store/Remotes.antt =====
-- The `remotes` table.
use backitup.Prelude.{
  ◌+◌, List, [], ◌∷◌, ◌++◌, Option, Text, ok, err, any, find, select, update, sort_by, not, ◌==◌,
  text_eq, if◌then◌else◌,
}
use backitup.Clock.Stamp.{text_lt}
use backitup.Store.{Db, Remote, Answer, unique}

unfoldable pub create_remote : Remote → Db → Answer (Unit {0})
create_remote r d = if any (λ q. q.name == r.name) d.remotes then (err unique, d) else (
  ok tt,
  record d {
    remotes = d.remotes ++ record r { id = d.next_remote } ∷ [];
    next_remote = d.next_remote + 1;
  },
)

unfoldable pub list_remotes : Db → List Remote
list_remotes d = sort_by (λ a b. text_lt a.name b.name) d.remotes

unfoldable pub get_remote_by_name : Text → Db → Option Remote
get_remote_by_name name d = find (λ r. r.name == name) d.remotes

unfoldable pub update_remote : Text → List (Text × Text) → Db → Db
update_remote name config d = record d {
  remotes = update (λ r. r.name == name) (λ r. record r { config = config }) d.remotes;
}

unfoldable pub delete_remote : Text → Db → Db
delete_remote name d = record d { remotes = select (λ r. not (r.name == name)) d.remotes }
