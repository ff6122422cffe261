-- ===== src/Store/Invariant/Laws.antt =====
-- Every statement keeps the database well-formed.
mod Clients
mod Runs
mod Objects
mod Accounts
use backitup.Prelude.{List, [], ◌∷◌}
use backitup.Store.{Db, empty_db}
use backitup.Store.Invariant.{
  IsSound, Statement, creates_client, updates_offsite, updates_retention, rotates, deletes_client,
  records_run, updates_run, marks_client, marks_stale, prunes_logs, prunes_runs, records_object,
  updates_object, deletes_object, forgets_object, starts_session, finishes_session, fails_sessions,
  records_session, creates_user, upserts_user, deletes_user, creates_remote, updates_remote,
  deletes_remote, perform,
}
use Clients.{
  create_client-IsSound, update_client_offsite-IsSound, update_client_retention-IsSound,
  rotate_client_creds-IsSound, delete_client-IsSound,
}
use Runs.{
  record_run-IsSound, update_run-IsSound, mark_client_running_run_failed-IsSound,
  mark_stale_runs_failed-IsSound, prune_run_logs-IsSound, prune_runs-IsSound,
}
use Objects.{
  record_offsite_object-IsSound, update_offsite_remote_status-IsSound,
  delete_offsite_object-IsSound, forget_offsite_object-IsSound, start_offsite_run-IsSound,
  record_offsite_run-IsSound, finish_offsite_run-IsSound, mark_stale_offsite_runs_failed-IsSound,
}
use Accounts.{
  create_user-IsSound, upsert_user-IsSound, delete_user-IsSound, create_remote-IsSound,
  update_remote-IsSound, delete_remote-IsSound,
}

-- Every writing statement, with any arguments, keeps the database well-formed, also when
-- a constraint refuses it.
pub perform-IsSound : (s : Statement) (d : Db) → IsSound d → IsSound (perform s d)
unfolding perform
perform-IsSound (creates_client c now) d v = create_client-IsSound c now d v
perform-IsSound (updates_offsite id r dir cron m p) d v =
    update_client_offsite-IsSound id r dir cron m p d v
perform-IsSound (updates_retention id h o i) d v = update_client_retention-IsSound id h o i d v
perform-IsSound (rotates id k h p n) d v = rotate_client_creds-IsSound id k h p n d v
perform-IsSound (deletes_client id) d v = delete_client-IsSound id d v
perform-IsSound (records_run r) d v = record_run-IsSound d v r
perform-IsSound (updates_run id c r) d v = update_run-IsSound d v id c r
perform-IsSound (marks_client c now) d v = mark_client_running_run_failed-IsSound d v c now
perform-IsSound (marks_stale t now) d v = mark_stale_runs_failed-IsSound d v t now
perform-IsSound (prunes_logs t) d v = prune_run_logs-IsSound d v t
perform-IsSound (prunes_runs c k now) d v = prune_runs-IsSound d v c k now
perform-IsSound (records_object o now) d v = record_offsite_object-IsSound d v o now
perform-IsSound (updates_object id m t) d v = update_offsite_remote_status-IsSound d v id m t
perform-IsSound (deletes_object c s r) d v = delete_offsite_object-IsSound d v c s r
perform-IsSound (forgets_object c s r) d v = forget_offsite_object-IsSound d v c s r
perform-IsSound (starts_session c b t) d v = start_offsite_run-IsSound d v c b t
perform-IsSound (finishes_session id s n b e t) d v = finish_offsite_run-IsSound d v id s n b e t
perform-IsSound fails_sessions d v = mark_stale_offsite_runs_failed-IsSound d v
perform-IsSound (records_session r) d v = record_offsite_run-IsSound d v r
perform-IsSound (creates_user u p now) d v = create_user-IsSound d v u p now
perform-IsSound (upserts_user u p now) d v = upsert_user-IsSound d v u p now
perform-IsSound (deletes_user id) d v = delete_user-IsSound d v id
perform-IsSound (creates_remote r) d v = create_remote-IsSound d v r
perform-IsSound (updates_remote n c) d v = update_remote-IsSound d v n c
perform-IsSound (deletes_remote n) d v = delete_remote-IsSound d v n

unfoldable pub replay : List Statement → Db → Db
replay [] d = d
replay (s ∷ ss) d = replay ss (perform s d)

replay-IsSound : (ss : List Statement) (d : Db) → IsSound d → IsSound (replay ss d)
unfolding replay
replay-IsSound [] d v = v
replay-IsSound (s ∷ ss) d v = replay-IsSound ss (perform s d) (perform-IsSound s d v)

-- A database that any sequence of statements makes from the empty one is well-formed: its ids are
-- distinct and below the counters, names and object keys are unique, every run, object and session
-- belongs to a client of the table, and no log is longer than the cap.
pub replay-empty-IsSound : (ss : List Statement) → IsSound (replay ss empty_db)
replay-empty-IsSound ss = replay-IsSound ss empty_db start
  where
    start : IsSound empty_db
    start = record {
      clients = record { fresh = tt; ids = tt; names = tt };
      runs = record { fresh = tt; ids = tt; owned = tt; capped = tt };
      objects = record { fresh = tt; ids = tt; keys = tt; owned = tt };
      sessions = tt;
      users = tt;
      remotes = tt;
    }
