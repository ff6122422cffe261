-- ===== src/Lifecycle/Upload/Sessions.antt =====
-- The scheduled upload and the one on demand, as wholes.
use backitup.Prelude.{
  ℕ, ◌≡◌, ◌&&◌, ◌||◌, not, List, [], Text, Outcome, ok, err, some, ltb, ◌==◌, text_eq, codes,
  Bool-cases, inl, inr,
}
use backitup.Model.{Client, OffsiteRun}
use backitup.Store.{Db, DbError, has_client}
use backitup.Store.OffsiteRuns.{
  start_offsite_run, finish_offsite_run, record_offsite_run, insert_offsite_run,
}
use backitup.Lifecycle.{
  Platform, Snapshot, Failure, no_server_mode, no_remote, tool, database, Deps, World, Action,
  client_dir, upload_failed,
}
use backitup.Lifecycle.Observed.{Observed}
use backitup.Lifecycle.Maintains.{
  Maintains, Maintains-return, Maintains-read, Maintains-exec, Maintains-query, Maintains-alert,
  Maintains-if, Maintains-bind, Maintains-attempt,
}
use backitup.Lifecycle.Upload.{
  Progress, load_snapshots, upload_client, offsite_client, close_session, record_session,
  session_of, is_registered, offsited_set, newest_first, is_failure, status_of, failure_text,
}
use backitup.Lifecycle.Upload.Recorded.{Tracked, offsite_new_snapshots-Tracked}

-- A session's row is in a table of its own.
insert_offsite_run-objects :
    (r : OffsiteRun) (db : Db) → (insert_offsite_run r db).1.objects ≡ db.objects
unfolding insert_offsite_run
insert_offsite_run-objects r db = elim (Bool-cases (has_client db r.client_id)) [
  | inl e ↦ rw e
  | inr e ↦ rw e
]

module _ (P : Platform) (L : Observed P) (d : Deps) (c : Client) where
  load_snapshots-Maintains :
      {A : Type 0} {C : Db → P.State → Type 0} (fail : Failure → Action P A)
      (rest : List Snapshot → List Text → Action P A)
      → ((e : Failure) → Maintains P C (fail e))
      → ((snaps : List Snapshot) (done : List Text) → Maintains P C (rest snaps done))
      → Maintains P C (load_snapshots P d c fail rest)
  unfolding load_snapshots
  load_snapshots-Maintains fail rest kf kr =
      Maintains-if (not (is_registered c.mode)) _ _ (kf no_server_mode) (
        Maintains-attempt {E = Text} {A = List Snapshot} _ _ _
          (Maintains-read (P.list c.mode (client_dir d c))) (λ e. kf (tool e))
          λ snaps.
            Maintains-attempt {A = List Text} _ _ _ (Maintains-query (offsited_set c.id))
              (λ e. kf (database e)) (λ done. kr (newest_first snaps) done))

  record_session-Tracked :
      (by : Text) (start : ℕ) (p : Progress)
      → Maintains P (Tracked P L d c) (record_session P d c by start p)
  unfolding record_session record_offsite_run
  record_session-Tracked by start p =
      Maintains-bind _ _
        (Maintains-alert (d.has_webhook && is_failure p.failure) (upload_failed c.id))
        λ _.
          Maintains-bind _ _
            (Maintains-exec (record_offsite_run (session_of c.id by start d.now p))
              λ db s h. rw (insert_offsite_run-objects (session_of c.id by start d.now p) db) h)
            λ _. Maintains-return tt

  close_session-Tracked :
      (started : Outcome DbError ℕ) (p : Progress)
      → Maintains P (Tracked P L d c) (close_session P d c started p)
  unfolding close_session finish_offsite_run
  close_session-Tracked (err e) p = record_session-Tracked (codes "adhoc") d.now p
  close_session-Tracked (ok id) p =
      Maintains-bind _ _
        (Maintains-alert (d.has_webhook && is_failure p.failure) (upload_failed c.id))
        λ _.
          Maintains-bind _ _
            (Maintains-exec
              (λ db. (
                ok tt,
                finish_offsite_run id (status_of p.failure) p.snaps p.bytes (failure_text p.failure)
                    d.now db,
              ))
              λ db s h. h)
            λ _. Maintains-return tt

  -- On a platform with the observed laws, a scheduled upload keeps this: every row of the client for
  -- its remote has its object there. It does so wherever it stops, at a tool, at the remote or at the
  -- database.
  pub upload_client-Tracked :
      (w : World P)
      → Tracked P L d c w.db w.sys
      → Tracked P L d c (upload_client P d c w).1.db (upload_client P d c w).1.sys
  unfolding upload_client
  upload_client-Tracked =
      (load_snapshots-Maintains _ _ (λ e. Maintains-return (some e))
        λ snaps done. Maintains-bind _ _ (offsite_new_snapshots-Tracked P L d c snaps done) λ p.
          Maintains-if (ltb 0 p.snaps || is_failure p.failure) _ _
            (Maintains-bind _ _ (record_session-Tracked (codes "scheduled") d.now p)
              λ _. Maintains-return p.failure)
            (Maintains-return p.failure)).at

  -- On a platform with the observed laws, an upload on demand, with its session opened in front and
  -- closed behind, keeps this: every row of the client for its remote has its object there.
  pub offsite_client-Tracked :
      (w : World P)
      → Tracked P L d c w.db w.sys
      → Tracked P L d c (offsite_client P d c w).1.db (offsite_client P d c w).1.sys
  unfolding offsite_client start_offsite_run
  offsite_client-Tracked =
      (Maintains-if (not d.has_offsite || c.offsite_remote == []) _ _
        (Maintains-return (some no_remote))
        (load_snapshots-Maintains _ _ (λ e. Maintains-return (some e))
          λ snaps done.
            Maintains-bind _ _
              (Maintains-exec (start_offsite_run c.id (codes "adhoc") d.now)
                λ db s h. rw (insert_offsite_run-objects _ db) h)
              λ started. Maintains-bind _ _ (offsite_new_snapshots-Tracked P L d c snaps done) λ p.
                Maintains-bind _ _ (close_session-Tracked started p)
                  λ _. Maintains-return p.failure)).at
