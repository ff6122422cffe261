-- ===== src/Lifecycle/Prune.antt =====
-- internal/lifecycle/lifecycle.go: the three prunings.
pub mod Horizon
pub mod Hot
pub mod Kept
pub mod Offsite
use backitup.Prelude.{
  ℕ, ◌*◌, Bool, true, false, ◌&&◌, ◌||◌, not, List, [], ◌∷◌, Text, Outcome, ok, Option, none, some,
  ltb, ◌==◌, nat_eq, text_eq, if◌then◌else◌, codes,
}
use backitup.Clock.{hour, day, times, negate, before_add, after_add}
use backitup.Model.{Client, OffsiteObject}
use backitup.Store.Objects.{list_offsite_objects, delete_offsite_object}
use backitup.Lifecycle.{
  Platform, Snapshot, Entry, Failure, database, tool, pruned, Deps, Action, return, ◌>>=◌, ◌>>◌,
  attempt, handle, exec, query, act, change, read, alert, client_dir,
}
use backitup.Lifecycle.Naming.{offsite_dir, object_path}
use backitup.Lifecycle.Upload.{contains}
use backitup.FilePath.{join}

-- `t.Before(cutoff)`, the cutoff `days` days before now.
abbrev pub is_older : ℕ → ℕ → ℕ → Bool
is_older days now t = before_add t now (negate (times days day))

unfoldable pub has_suffix : Text → Text → Bool
has_suffix [] suffix = [] == suffix
has_suffix (c ∷ cs) suffix = (c ∷ cs) == suffix || has_suffix cs suffix

-- `DefaultPartOrphanAge`
abbrev pub part_age : ℕ → ℕ
part_age age = if age == 0 then 2 * hour else age

-- A file that an interrupted upload left, and that nothing has touched for the age.
unfoldable pub is_orphan : ℕ → ℕ → Entry → Bool
unfolding has_suffix
is_orphan age now e =
    not e.is_dir
    && has_suffix e.name (codes ".tar.gz.part")
    && not (after_add e.mod_time now (negate (part_age age)))

abbrev pub behind_first {ℓ} : {A : Type ℓ} → List A → List A
behind_first [] = []
behind_first (x ∷ xs) = xs

-- What `pruneHot` deletes of the snapshots behind the newest.
unfoldable pub is_prunable : Deps → Client → Bool → List Text → Snapshot → Bool
is_prunable d c offsite_on done s =
    is_older c.retention_days d.now s.created_at && (not offsite_on || contains s.id done)

module _ (P : Platform) (d : Deps) (c : Client) where
  open P use {delete_object, delete_snapshot, remove_file, read_dir}

  remove_orphans : List Entry → P.State → P.State
  remove_orphans [] s = s
  remove_orphans (e ∷ es) s = remove_orphans es (
      if is_orphan d.part_orphan_age d.now e
      then remove_file (join (client_dir d c) e.name) s
      else s)

  unfoldable pub prune_part_orphans : Action P (Unit {0})
  unfolding remove_orphans
  prune_part_orphans = change (λ s. remove_orphans (read_dir (client_dir d c) s) s)

  -- The objects behind the newest: each that is too old goes from the remote, then from the table.
  -- The first error ends the loop.
  prune_objects : List OffsiteObject → Action P (Option Failure)
  prune_objects [] = return none
  prune_objects (o ∷ os) =
      if not (is_older c.offsite_retention_days d.now o.uploaded_at)
      then prune_objects os
      else attempt
          (act (delete_object c.offsite_remote (object_path (offsite_dir c) c.mode o.snapshot_id)))
          (λ e. return (some (tool e)))
          λ _. do
            alert d.has_webhook (pruned c.id o.snapshot_id)
            attempt
                (exec (λ db. (ok tt, delete_offsite_object c.id o.snapshot_id c.offsite_remote db)))
                (λ e. return (some (database e))) λ _. prune_objects os

  unfoldable pub prune_offsite : Action P (Option Failure)
  unfolding prune_objects
  prune_offsite =
      if c.disable_offsite_pruning || c.offsite_retention_days == 0
      then return none
      else attempt (query (list_offsite_objects c.id)) (λ e. return (some (database e)))
          λ objs. prune_objects (behind_first objs)

  -- A deletion that fails is only logged.
  prune_snapshots : Bool → List Text → List Snapshot → P.State → P.State
  prune_snapshots offsite_on done [] s = s
  prune_snapshots offsite_on done (x ∷ xs) s = prune_snapshots offsite_on done xs (
      if is_prunable d c offsite_on done x
      then (delete_snapshot c.mode (client_dir d c) x.id s).1
      else s)

  unfoldable pub prune_hot : Bool → List Text → List Snapshot → P.State → P.State
  unfolding prune_snapshots is_prunable
  prune_hot offsite_on done snaps s =
      if c.retention_days == 0 then s else prune_snapshots offsite_on done (behind_first snaps) s
