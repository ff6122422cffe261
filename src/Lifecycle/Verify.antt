-- ===== src/Lifecycle/Verify.antt =====
-- internal/lifecycle/lifecycle.go: the checks of a pass. They record what they find, and alert.
pub mod Kept
use backitup.Prelude.{
  ℕ, ◌*◌, Bool, true, false, ◌&&◌, ◌||◌, not, List, [], ◌∷◌, Text, Outcome, ok, err, Option, none,
  some, find, select, ltb, ◌==◌, nat_eq, text_eq, if◌then◌else◌,
}
use backitup.Clock.{second, hour, day, times, sub_within}
use backitup.Model.{Client, Mode, OffsiteObject, Run, Health}
use backitup.Model.HealthRule.{derive_health}
use backitup.Store.Objects.{list_offsite_objects, update_offsite_remote_status}
use backitup.Store.Runs.{latest_run}
use backitup.Lifecycle.{
  Platform, Snapshot, Failure, stale_backup, Deps, World, Action, return, ◌>>=◌, ◌>>◌, attempt,
  handle, exec, query, read, alert,
}
use backitup.Lifecycle.Naming.{offsite_dir, archive_name}
use backitup.Lifecycle.Upload.{contains}

-- The oldest check, 0 if an object was never checked.
oldest_verified : ℕ → List OffsiteObject → ℕ
oldest_verified oldest [] = oldest
oldest_verified oldest (o ∷ os) =
    let rest =
      oldest_verified
        (if oldest == 0 || ltb o.remote_verified_at oldest then o.remote_verified_at else oldest)
        os in
    if o.remote_verified_at == 0 then 0 else rest

abbrev is_none : List OffsiteObject → Bool
is_none [] = true
is_none (o ∷ os) = false

module _ (P : Platform) (d : Deps) (c : Client) where
  -- A failed update is only logged.
  mark_objects : List Text → List OffsiteObject → Action P (Unit {0})
  mark_objects files [] = return tt
  mark_objects files (o ∷ os) = do
    exec λ db. (
      ok tt,
      update_offsite_remote_status o.id (not (contains (archive_name c.mode o.snapshot_id) files))
          d.now db,
    )
    mark_objects files os

  -- At most once an hour; a listing that fails changes nothing.
  unfoldable pub verify_offsite_objects : Action P (Unit {0})
  unfolding oldest_verified mark_objects
  verify_offsite_objects =
      attempt (query (list_offsite_objects c.id)) (λ e. return tt)
        λ objects.
          let oldest = oldest_verified 0 objects in
          if is_none objects || (not (oldest == 0) && sub_within d.now oldest hour)
          then return tt
          else attempt (read (P.lsf c.offsite_remote (offsite_dir c))) (λ e. return tt)
              λ files. mark_objects files objects

  abbrev is_stale_or_never : Health → Bool
  is_stale_or_never Health.stale = true
  is_stale_or_never Health.never = true
  is_stale_or_never _ = false

  -- `last, ok := staleAlerted[id]; ok && now.Sub(last) < 24h`
  abbrev is_recent : Option (ℕ × ℕ) → Bool
  is_recent none = false
  is_recent (some (id, last)) = sub_within d.now last day

  abbrev forget_alert : Action P (Unit {0})
  forget_alert w = (tt, record w { alerted = select (λ e. not (e.0 == c.id)) w.alerted })

  raise_alert : Action P (Unit {0})
  raise_alert w =
      if is_recent (find (λ e. e.0 == c.id) w.alerted)
      then (tt, w)
      else alert true (stale_backup c.id) (record w { alerted = (c.id, d.now) ∷ w.alerted })

  -- `staleAlerted` is the map that `StartWorker` makes.
  unfoldable pub check_stale_alert : Action P (Unit {0})
  unfolding raise_alert alert
  check_stale_alert =
      if not d.has_webhook || c.expected_interval_secs == 0
      then return tt
      else attempt (query (latest_run c.id)) (λ e. return tt)
          λ run.
            if is_stale_or_never (derive_health run (times c.expected_interval_secs second) d.now)
            then raise_alert
            else forget_alert
