-- ===== src/Store/Invariant.antt =====
-- Well-formed databases: fresh and distinct ids, the UNIQUE columns, references to clients that
-- exist, and log texts within their cap. `perform` runs any writing statement of the store.
pub mod Tables
pub mod Laws
use backitup.Prelude.{
  ℕ, ◌≤◌, ◌<◌, ◌≡◌, Bool, true, List, Text, Outcome, All, any, length, ◌==◌, nat_eq,
}
use backitup.Prelude.Rows.{DistinctBy}
use backitup.Model.{Client, Run, OffsiteObject, OffsiteRun, User}
use backitup.Model.LogTail.{max_log_tail}
use backitup.Store.{Db, Remote}
use backitup.Store.Clients.{
  create_client, update_client_offsite, update_client_retention, rotate_client_creds, delete_client,
}
use backitup.Store.Runs.{
  record_run, update_run, mark_client_running_run_failed, mark_stale_runs_failed, prune_run_logs,
  prune_runs,
}
use backitup.Store.Objects.{
  record_offsite_object, update_offsite_remote_status, delete_offsite_object, forget_offsite_object,
}
use backitup.Store.OffsiteRuns.{
  start_offsite_run, finish_offsite_run, mark_stale_offsite_runs_failed, record_offsite_run,
}
use backitup.Store.Users.{create_user, upsert_user, delete_user}
use backitup.Store.Remotes.{create_remote, update_remote, delete_remote}

-- Every row refers to an existing client.
abbrev pub Owned {ℓ} : {A : Type ℓ} → List Client → (A → ℕ) → List A → Type 0
Owned clients client_of rows = All (λ r. any (λ c. c.id == client_of r) clients ≡ true) rows

pub record ClientsSound (rows : List Client) (next : ℕ) : Type 0 where
  pub fresh : All (λ c. c.id < next) rows
  pub ids : DistinctBy (λ c. c.id) rows
  pub names : DistinctBy (λ c. c.name) rows

pub record RunsSound (clients : List Client) (rows : List Run) (next : ℕ) : Type 0 where
  pub fresh : All (λ r. r.id < next) rows
  pub ids : DistinctBy (λ r. r.id) rows
  pub owned : Owned clients (λ r. r.client_id) rows
  pub capped : All (λ r. length r.log_tail ≤ max_log_tail) rows

abbrev pub object_key : OffsiteObject → ℕ × Text × Text
object_key o = (o.client_id, o.snapshot_id, o.remote)

pub record ObjectsSound (clients : List Client) (rows : List OffsiteObject) (next : ℕ)
    : Type 0 where
  pub fresh : All (λ o. o.id < next) rows
  pub ids : DistinctBy (λ o. o.id) rows
  pub keys : DistinctBy object_key rows
  pub owned : Owned clients (λ o. o.client_id) rows

pub record IsSound (d : Db) : Type 0 where
  pub clients : ClientsSound d.clients d.next_client
  pub runs : RunsSound d.clients d.runs d.next_run
  pub objects : ObjectsSound d.clients d.objects d.next_object
  pub sessions : Owned d.clients (λ r. r.client_id) d.offsite_runs
  pub users : DistinctBy (λ u. u.username) d.users
  pub remotes : DistinctBy (λ r. r.name) d.remotes

-- A call of a writing method of the store, with the times that it reads.
pub data Statement : Type 0 where
  creates_client : Client → ℕ → Statement
  updates_offsite : ℕ → Text → Text → Text → Text → Bool → Statement
  updates_retention : ℕ → ℕ → ℕ → ℕ → Statement
  rotates : ℕ → Text → Text → Text → ℕ → Statement
  deletes_client : ℕ → Statement
  records_run : Run → Statement
  updates_run : ℕ → ℕ → Run → Statement
  marks_client : ℕ → ℕ → Statement
  marks_stale : ℕ → ℕ → Statement
  prunes_logs : ℕ → Statement
  prunes_runs : ℕ → ℕ → ℕ → Statement
  records_object : OffsiteObject → ℕ → Statement
  updates_object : ℕ → Bool → ℕ → Statement
  deletes_object : ℕ → Text → Text → Statement
  forgets_object : ℕ → Text → Text → Statement
  starts_session : ℕ → Text → ℕ → Statement
  finishes_session : ℕ → Text → ℕ → ℕ → Text → ℕ → Statement
  fails_sessions : Statement
  records_session : OffsiteRun → Statement
  creates_user : Text → Text → ℕ → Statement
  upserts_user : Text → Text → ℕ → Statement
  deletes_user : ℕ → Statement
  creates_remote : Remote → Statement
  updates_remote : Text → List (Text × Text) → Statement
  deletes_remote : Text → Statement

unfoldable pub perform : Statement → Db → Db
perform (creates_client c now) d = (create_client c now d).1
perform (updates_offsite id r dir cron m p) d = (update_client_offsite id r dir cron m p d).1
perform (updates_retention id h o i) d = (update_client_retention id h o i d).1
perform (rotates id k h p v) d = (rotate_client_creds id k h p v d).1
perform (deletes_client id) d = (delete_client id d).1
perform (records_run r) d = (record_run r d).1
perform (updates_run id c r) d = (update_run id c r d).1
perform (marks_client c now) d = mark_client_running_run_failed c now d
perform (marks_stale t now) d = (mark_stale_runs_failed t now d).1
perform (prunes_logs t) d = (prune_run_logs t d).1
perform (prunes_runs c k now) d = (prune_runs c k now d).1
perform (records_object o now) d = (record_offsite_object o now d).1
perform (updates_object id m t) d = update_offsite_remote_status id m t d
perform (deletes_object c s r) d = delete_offsite_object c s r d
perform (forgets_object c s r) d = forget_offsite_object c s r d
perform (starts_session c b t) d = (start_offsite_run c b t d).1
perform (finishes_session id s n b e t) d = finish_offsite_run id s n b e t d
perform fails_sessions d = mark_stale_offsite_runs_failed d
perform (records_session r) d = (record_offsite_run r d).1
perform (creates_user u p now) d = (create_user u p now d).1
perform (upserts_user u p now) d = upsert_user u p now d
perform (deletes_user id) d = (delete_user id d).1
perform (creates_remote r) d = (create_remote r d).1
perform (updates_remote n c) d = update_remote n c d
perform (deletes_remote n) d = delete_remote n d
