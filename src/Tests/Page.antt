-- ===== src/Tests/Page.antt =====
-- The page of a client with two runs, and a walk that meets one inode twice.
use backitup.Prelude.{
  ℕ, ◌*◌, ◌≡◌, refl, List, [], ◌∷◌, ◌++◌, Text, Outcome, ok, Option, some, inl, arith, nat_eq,
  text_eq, codes, decimal,
}
use backitup.Clock.{day}
use backitup.Clock.Stamp.Laws.{stamp_lt_of_second}
use backitup.Model.{Mode}
use backitup.Store.{Db}
use backitup.Store.Runs.Newest.{AreApart, own_runs}
use backitup.Lifecycle.{Snapshot}
use backitup.Server.Dashboard.{row_of}
use backitup.Server.Storage.{Visited, skipped, sized, inode, count_bytes, count_bytes-link}
use backitup.Server.Settings.{human_duration, human_seconds}
use backitup.Server.Clients.Commands.{known_hosts_line, fields, words}
use backitup.Server.Clients.Page.{page_of}
use backitup.Server.Clients.Page.Agreement.{page_of-row_of}
use backitup.Tests.Fixtures.{nas, run, young, db, present}

abbrev no_quotient : ℕ → ℕ → Text
no_quotient n m = []

abbrev list_young : Mode → Option (Text → Outcome Text (List Snapshot))
list_young m = some (λ dir. ok (young ∷ []))

abbrev two_runs : Db
two_runs = record db { runs = record run { id = 5; started_at = 998 * day } ∷ run ∷ [] }

two_runs-AreApart : AreApart (own_runs nas.id two_runs.runs)
unfolding nat_eq
two_runs-AreApart = ((inl (stamp_lt_of_second (998 * day) (999 * day) (omega arith)), tt), (tt, tt))

page_of-row_of_example :
    let page = page_of no_quotient list_young (codes "/data") present two_runs nas in
    let row = row_of no_quotient present two_runs nas in
    (page.health ≡ row.health)
    × (page.health_label ≡ row.label)
    × (page.icon ≡ row.icon)
    × (page.last_backup_age ≡ row.last_backup)
    × (page.last_backup_size ≡ row.size)
page_of-row_of_example =
    page_of-row_of no_quotient list_young (codes "/data") present two_runs nas two_runs-AreApart

abbrev met : List Visited
met = skipped ∷ inode (1, 7) 8 ∷ sized 3 ∷ []

count_bytes-link_example :
    count_bytes [] (met ++ inode (1, 7) 8 ∷ inode (2, 7) 8 ∷ [])
    ≡ count_bytes [] (met ++ inode (2, 7) 8 ∷ [])
unfolding nat_eq
count_bytes-link_example = count_bytes-link [] (1, 7) 8 met (inode (2, 7) 8 ∷ []) refl

human_duration_test : human_duration 0 (90 * 1000000000) ≡ codes "1m 30s"
unfolding human_duration human_seconds nat_eq decimal
human_duration_test = refl

-- The key of the host without its comment.
known_hosts_line_test :
    known_hosts_line
      (λ s. some (codes "b", codes "2222"))
      (codes "b:2222")
      (codes "/key")
      (λ path. some (codes "ssh-ed25519 AAAA root@b\n"))
    ≡ codes "[b]:2222 ssh-ed25519 AAAA"
unfolding known_hosts_line fields words text_eq nat_eq
known_hosts_line_test = refl
