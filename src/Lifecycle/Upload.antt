-- ===== src/Lifecycle/Upload.antt =====
-- internal/lifecycle/lifecycle.go: the uploads of one client, scheduled (`uploadClient`) and on
-- demand (`OffsiteClient`).
pub mod Loading
pub mod Recorded
pub mod Latest
pub mod Sessions
use backitup.Prelude.{
  ℕ, ◌+◌, Bool, true, false, ◌&&◌, ◌||◌, not, List, [], ◌∷◌, ◌++◌, Text, Outcome, ok, err, Option,
  none, some, any, map, sort_by, ltb, ◌==◌, nat_eq, text_eq, if◌then◌else◌, codes,
}
use backitup.Model.{Client, Mode, OffsiteObject, OffsiteRun}
use backitup.Store.{Db, DbError, Answer}
use backitup.Store.Objects.{record_offsite_object, list_offsite_objects, offsite_checksum_exists}
use backitup.Store.OffsiteRuns.{start_offsite_run, finish_offsite_run, record_offsite_run}
use backitup.Lifecycle.{
  Platform, Snapshot, Failure, no_server_mode, no_remote, database, tool, Alert, uploaded,
  upload_failed, Deps, World, Action, return, ◌>>=◌, ◌>>◌, attempt, handle, exec, query, act,
  change, read, alert, client_dir,
}
use backitup.Lifecycle.Naming.{offsite_dir, object_path}

-- `mode.Server(m)`: the two modes register themselves.
abbrev pub is_registered : Mode → Bool
is_registered Mode.targz = true
is_registered Mode.rsync = true
is_registered (Mode.other s) = false

abbrev is_rsync : Mode → Bool
is_rsync Mode.rsync = true
is_rsync _ = false

-- `sort.Slice` by `CreatedAt.After`: newest first.
unfoldable pub newest_first : List Snapshot → List Snapshot
newest_first = sort_by (λ a b. ltb b.created_at a.created_at)

-- `offsitedSet`, as its members.
unfoldable pub offsited_set : ℕ → Db → List Text
offsited_set client_id d = map (λ o. o.snapshot_id) (list_offsite_objects client_id d)

abbrev pub contains : Text → List Text → Bool
contains t = any (λ u. u == t)

-- What `offsiteNewSnapshots` returns: counts, also beside an error.
pub record Progress : Type 0 where
  pub snaps : ℕ
  pub bytes : ℕ
  pub failure : Option Failure

abbrev pub Finished : Type 0
Finished = Progress × List Text

-- The row that is recorded for an upload.
abbrev pub object_of : Client → Snapshot → ℕ → Text → OffsiteObject
object_of c s bytes sum = record {
  id = 0;
  client_id = c.id;
  snapshot_id = s.id;
  remote = c.offsite_remote;
  bytes = bytes;
  uploaded_at = 0;
  remote_missing = false;
  remote_verified_at = 0;
  checksum = sum;
}

-- The text of an error, without the words that the callers put in front of it.
failure_text : Option Failure → Text
failure_text none = []
failure_text (some (tool e)) = e
failure_text (some (database e)) = codes "database"
failure_text (some no_server_mode) = codes "no server mode"
failure_text (some no_remote) = codes "no offsite remote configured"

abbrev pub is_failure : Option Failure → Bool
is_failure none = false
is_failure (some e) = true

abbrev pub status_of : Option Failure → Text
status_of none = codes "ok"
status_of (some e) = codes "failed"

-- A finished session, as `recordOffsiteRun` writes it.
unfoldable pub session_of : ℕ → Text → ℕ → ℕ → Progress → OffsiteRun
unfolding failure_text
session_of client_id triggered_by start now p = record {
  id = 0;
  client_id = client_id;
  triggered_by = triggered_by;
  started_at = start;
  finished_at = now;
  status = status_of p.failure;
  snapshots_uploaded = p.snaps;
  bytes_uploaded = p.bytes;
  error_text = failure_text p.failure;
}

module _ (P : Platform) (d : Deps) (c : Client) where
  open P use {prepare_offsite, checksum, upload, remove_file}

  -- The upload of an archive, and its record.
  push_archive : Snapshot → Text → Text → Action P (Outcome Failure (Option ℕ))
  push_archive s archive sum =
      attempt (act (upload archive c.offsite_remote (object_path (offsite_dir c) c.mode s.id)))
        (λ e. return (err (tool e)))
        λ bytes. do
          alert d.has_webhook (uploaded c.id s.id)
          attempt (exec (record_offsite_object (object_of c s bytes sum) d.now))
              (λ e. return (err (database e))) λ _. return (ok (some bytes))

  -- One snapshot: its archive's checksum, the check for a duplicate, the upload, and the record.
  -- `some bytes` is an upload, `none` a duplicate; the archive is the temporary file of rsync.
  upload_archive : Snapshot → Text → Action P (Outcome Failure (Option ℕ))
  unfolding push_archive
  upload_archive s archive =
      attempt (read (checksum archive)) (λ e. return (err (tool e)))
        λ sum.
          attempt (query (offsite_checksum_exists c.id c.offsite_remote sum))
            (λ e. return (err (database e)))
            λ dup. if dup then return (ok none) else push_archive s archive sum

  stop_with : ℕ → ℕ → Option Failure → List Text → Action P Finished
  stop_with n b f temps = return (record { snaps = n; bytes = b; failure = f }, temps)

  -- The loop over the snapshots, with the counts, the set of uploaded ids and the temporary files
  -- that are removed when the function returns.
  upload_loop : List Snapshot → List Text → ℕ → ℕ → List Text → Action P Finished
  unfolding stop_with upload_archive
  upload_loop [] done n b temps = stop_with n b none temps
  upload_loop (s ∷ ss) done n b temps =
      let skip = upload_loop ss done n b temps in
      if contains s.id done
      then skip
      else if c.offsite_upload_mode == codes "latest" && ltb 0 n
      then stop_with n b none temps
      else attempt (act (prepare_offsite c.mode (client_dir d c) s))
          (λ e. stop_with n b (some (tool e)) temps)
          λ archive.
            let temps' = if is_rsync c.mode then archive ∷ temps else temps in
            attempt (upload_archive s archive) (λ e. stop_with n b (some e) temps')
              λ sent. elim sent [
                | none ↦ upload_loop ss done n b temps'
                | some bytes ↦ upload_loop ss (s.id ∷ done) (n + 1) (b + bytes) temps'
              ]

  -- The deferred removals, the last file first.
  remove_all : List Text → P.State → P.State
  remove_all [] s = s
  remove_all (t ∷ ts) s = remove_all ts (remove_file t s)

  unfoldable pub offsite_new_snapshots : List Snapshot → List Text → Action P Progress
  unfolding upload_loop remove_all
  offsite_new_snapshots snaps done = do
    result ← upload_loop snaps done 0 0 []
    change (remove_all result.1)
    return result.0

  record_session : Text → ℕ → Progress → Action P (Unit {0})
  record_session triggered_by start p = do
    alert (d.has_webhook && is_failure p.failure) (upload_failed c.id)
    exec (record_offsite_run (session_of c.id triggered_by start d.now p))
    return tt

  -- The snapshots of the client, newest first, and the ids that are recorded as uploaded.
  unfoldable pub load_snapshots :
      {A : Type 0} → (Failure → Action P A) → (List Snapshot → List Text → Action P A) → Action P A
  load_snapshots fail rest =
      if not (is_registered c.mode)
      then fail no_server_mode
      else attempt (read (P.list c.mode (client_dir d c))) (λ e. fail (tool e))
          λ snaps.
            attempt (query (offsited_set c.id)) (λ e. fail (database e))
              λ done. rest (newest_first snaps) done

  unfoldable pub upload_client : Action P (Option Failure)
  unfolding load_snapshots offsite_new_snapshots record_session
  upload_client =
      load_snapshots (λ e. return (some e))
        λ snaps done. do
          p ← offsite_new_snapshots snaps done
          if ltb 0 p.snaps || is_failure p.failure
              then (record_session (codes "scheduled") d.now p >> return p.failure)
              else return p.failure

  -- `FinishOffsiteRun` after a `StartOffsiteRun`, or the single insert if that failed.
  close_session : Outcome DbError ℕ → Progress → Action P (Unit {0})
  unfolding record_session failure_text
  close_session (ok id) p = do
    alert (d.has_webhook && is_failure p.failure) (upload_failed c.id)
    exec λ db. (
      ok tt,
      finish_offsite_run id (status_of p.failure) p.snaps p.bytes (failure_text p.failure) d.now db,
    )
    return tt
  close_session (err e) p = record_session (codes "adhoc") d.now p

  unfoldable pub offsite_client : Action P (Option Failure)
  unfolding load_snapshots offsite_new_snapshots close_session
  offsite_client =
      if not d.has_offsite || c.offsite_remote == []
      then return (some no_remote)
      else load_snapshots (λ e. return (some e))
          λ snaps done. do
            started ← exec (start_offsite_run c.id (codes "adhoc") d.now)
            p ← offsite_new_snapshots snaps done
            close_session started p
            return p.failure
