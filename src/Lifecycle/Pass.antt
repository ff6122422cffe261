-- ===== src/Lifecycle/Pass.antt =====
-- internal/lifecycle/lifecycle.go: the passes over all clients.
pub mod Safety
use backitup.Prelude.{
  ℕ, ◌*◌, ◌-◌, Bool, true, false, ◌&&◌, ◌||◌, not, List, [], ◌∷◌, Text, Outcome, ok, err, Option,
  none, some, ltb, ◌==◌, nat_eq, text_eq, if◌then◌else◌,
}
use backitup.Clock.{word, half_word, hour, times, day}
use backitup.Model.{Client}
use backitup.Store.{DbError}
use backitup.Store.Clients.{list_clients}
use backitup.Store.Runs.{prune_runs, prune_run_logs, mark_stale_runs_failed, days_before}
use backitup.Store.Objects.{latest_offsite}
use backitup.Lifecycle.{
  Platform, Snapshot, Failure, no_server_mode, database, tool, Deps, World, Action, return, ◌>>=◌,
  ◌>>◌, attempt, handle, exec, query, change, read,
}
use backitup.Lifecycle.Upload.{load_snapshots, upload_client}
use backitup.Lifecycle.Prune.{prune_part_orphans, prune_offsite, prune_hot}
use backitup.Lifecycle.Verify.{verify_offsite_objects, check_stale_alert}

-- The schedule of `github.com/robfig/cron`: `none` for an expression that it refuses, and otherwise
-- the next time after a given one.
abbrev pub Cron : Type 0
Cron = Text → Option (ℕ → ℕ)

module _ (P : Platform) (d : Deps) where
  abbrev pub offsite_on : Client → Bool
  offsite_on c = d.has_offsite && not (c.offsite_remote == [])

  abbrev keep_days : ℕ
  keep_days = if d.runs_keep_days == 0 then 90 else d.runs_keep_days

  -- The part of a pass behind the pruning of the remote.
  finish_client : Client → List Snapshot → List Text → Action P (Option Failure)
  finish_client c snaps done = do
    change (prune_hot P d c (offsite_on c) done snaps)
    if offsite_on c then verify_offsite_objects P d c else return tt
    check_stale_alert P d c
    attempt (exec λ db. let (n, db') = prune_runs c.id keep_days d.now db in (ok n, db'))
        (λ e. return (some (database e))) (λ _. return none)

  -- The part of a pass that has the snapshots, newest first, and the ids of the uploaded ones.
  process_listed : Client → List Snapshot → List Text → Action P (Option Failure)
  unfolding finish_client
  process_listed c snaps done = do
    prune_part_orphans P d c
    pruning ← if offsite_on c then prune_offsite P d c else return none
    elim pruning [ some e ↦ return (some e) | none ↦ finish_client c snaps done ]

  unfoldable pub process_client : Client → Action P (Option Failure)
  unfolding load_snapshots process_listed
  process_client c = load_snapshots P d c (λ e. return (some e)) (process_listed c)

  abbrev first_error : Option Failure → Option Failure → Option Failure
  first_error (some e) later = some e
  first_error none later = later

  -- A failure of one client does not stop the others; the first error is kept.
  unfoldable pub for_clients :
      (Client → Action P (Option Failure)) → List Client → Action P (Option Failure)
  for_clients body [] = return none
  for_clients body (c ∷ cs) = do
    e ← body c
    later ← for_clients body cs
    return (first_error e later)

  abbrev stale_timeout : ℕ
  stale_timeout = if d.stale_run_timeout == 0 then 2 * hour else d.stale_run_timeout

  abbrev log_days : ℕ
  log_days = if d.log_retention_days == 0 then 7 else d.log_retention_days

  abbrev outcome_of : {A : Type 0} → Outcome DbError A → Option Failure
  outcome_of (ok a) = none
  outcome_of (err e) = some (database e)

  -- `now.Add(-timeout)`, for a timeout that is not negative.
  unfoldable pub run_once : Action P (Option Failure)
  unfolding process_client for_clients
  run_once =
      attempt (query list_clients) (λ e. return (some (database e)))
        λ clients. do
          e1 ← for_clients (λ c. if c.enabled then process_client c else return none) clients
          e2 ← exec λ db.
              let (n, db') = mark_stale_runs_failed (d.now - stale_timeout) d.now db in (ok n, db')
          e3 ← exec λ db. let (n, db') = prune_run_logs (d.now - log_days * day) db in (ok n, db')
          return (first_error e1 (first_error (outcome_of e2) (outcome_of e3)))

  module _ (cron : Cron) where
    -- Due if the schedule has a tick between the last upload and now, or nothing was uploaded yet.
    unfoldable pub offsite_due : Client → Action P (Outcome Failure Bool)
    offsite_due c = elim (cron c.offsite_cron) [
      | none ↦ return (err (tool c.offsite_cron))
      | some next ↦
          attempt (query (latest_offsite c.id)) (λ e. return (err (database e)))
            λ last. return (ok (elim last [ none ↦ true | some t ↦ not (ltb d.now (next t)) ]))
    ]

    -- A client whose schedule cannot be read is skipped, with no error of the pass.
    offsite_step : Client → Action P (Option Failure)
    unfolding offsite_due
    offsite_step c =
        if not c.enabled || c.offsite_remote == []
        then return none
        else if c.offsite_cron == []
        then upload_client P d c
        else attempt (offsite_due c) (λ e. return none)
            λ due. if due then upload_client P d c else return none

    unfoldable pub run_offsite_once : Action P (Option Failure)
    unfolding offsite_step for_clients
    run_offsite_once =
        if not d.has_offsite
        then return none
        else attempt (query list_clients) (λ e. return (some (database e)))
            λ clients. for_clients offsite_step clients
