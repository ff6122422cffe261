-- ===== src/Lifecycle/Prune/Offsite.antt =====
-- Which objects a pass may take from the remote.
use backitup.Prelude.{
  ◌≡◌, ◌≢◌, ◌∙◌, inl, inr, true, false, ◌||◌, not, List, [], ◌∷◌, ◌++◌, Text, ok, none, some, All,
  any, arith, ◌==◌, nat_eq, text_eq, Bool-cases, append_cancel, append_cancel_right,
}
use backitup.Prelude.Rows.{any-select}
use backitup.Model.{Client, Mode, OffsiteObject}
use backitup.FilePath.{separator}
use backitup.Store.{Db}
use backitup.Store.Objects.{is_object, list_offsite_objects, delete_offsite_object}
use backitup.Lifecycle.{Platform, Deps, World, tool, database, pruned}
use backitup.Lifecycle.Naming.{offsite_dir, object_path, archive_name, archive_suffix}
use backitup.Lifecycle.Observed.{Observed}
use backitup.Lifecycle.Keeps.{query-cases}
use backitup.Lifecycle.Maintains.{
  Maintains, Maintains-return, Maintains-exec, Maintains-alert, Maintains-act, Maintains-bind,
  Maintains-attempt,
}
use backitup.Lifecycle.Prune.{is_older, behind_first, prune_objects, prune_offsite}

archive_name-injective : (m : Mode) (i j : Text) → archive_name m i ≡ archive_name m j → i ≡ j
archive_name-injective Mode.targz i j e = e
archive_name-injective Mode.rsync i j e = append_cancel_right i j archive_suffix e
archive_name-injective (Mode.other m) i j e = e

object_path-injective :
    (dir : Text) (m : Mode) (i j : Text) → object_path dir m i ≡ object_path dir m j → i ≡ j
unfolding object_path
object_path-injective dir m i j e =
    archive_name-injective m i j
      (append_cancel (dir ++ separator) (archive_name m i) (archive_name m j) e)

module _ (P : Platform) (L : Observed P) (d : Deps) (c : Client) (i : Text) where
  -- The snapshot is recorded for the client's remote, and its object is there.
  abbrev pub IsStored : Db → P.State → Type 0
  IsStored db s =
      (any (is_object c.id i c.offsite_remote) db.objects ≡ true)
      × (L.has c.offsite_remote (object_path (offsite_dir c) c.mode i) s ≡ true)

  -- Nothing of a list that has this snapshot id is too old.
  abbrev pub Recent : List OffsiteObject → Type 0
  Recent os =
      All (λ o. o.snapshot_id ≡ i → is_older c.offsite_retention_days d.now o.uploaded_at ≡ false)
        os

  delete-IsStored :
      (j : Text) (db : Db) (s : P.State)
      → j ≢ i
      → IsStored db s
      → IsStored (delete_offsite_object c.id j c.offsite_remote db) s
  unfolding delete_offsite_object
  delete-IsStored j db s n h = (
    any-select (is_object c.id i c.offsite_remote) (λ o. not (is_object c.id j c.offsite_remote o))
          db.objects (λ o q. ground (arith, n, q))
        ∙ h.0,
    h.1,
  )

  prune_objects-IsStored :
      (os : List OffsiteObject) → Recent os → Maintains P IsStored (prune_objects P d c os)
  unfolding prune_objects
  prune_objects-IsStored [] r = Maintains-return none
  prune_objects-IsStored (o ∷ os) r =
      elim (Bool-cases (is_older c.offsite_retention_days d.now o.uploaded_at)) [
        | inr young ↦ rw young (prune_objects-IsStored os r.1)
        | inl old ↦
            let other : o.snapshot_id ≢ i = λ e. ground (arith, r.0 e, old) in
            rw old (
              Maintains-attempt {E = Text} {A = Unit {0}} _ _ _
                (Maintains-act
                  (P.delete_object c.offsite_remote
                    (object_path (offsite_dir c) c.mode o.snapshot_id))
                  λ db s h. (
                    h.0,
                    L.has-delete_object c.offsite_remote _ _ s (λ e.
                          other (object_path-injective (offsite_dir c) c.mode o.snapshot_id i e))
                        ∙ h.1,
                  ))
                (λ e. Maintains-return (some (tool e)))
                (λ _.
                  Maintains-bind _ _ (Maintains-alert d.has_webhook (pruned c.id o.snapshot_id))
                    λ _.
                      Maintains-attempt {A = Unit {0}} _ _ _
                        (Maintains-exec
                          (λ db.
                            (ok tt, delete_offsite_object c.id o.snapshot_id c.offsite_remote db))
                          (λ db s h. delete-IsStored o.snapshot_id db s other h))
                        (λ e. Maintains-return (some (database e)))
                        (λ _. prune_objects-IsStored os r.1)))
      ]

  -- On a platform with the observed laws, pruning of the remote leaves the row and the object of
  -- a snapshot of the client on its remote while every listed object with that snapshot id, but the
  -- newest object, is within the offsite horizon; so it does wherever it stops.
  pub prune_offsite-IsStored :
      (w : World P)
      → Recent (behind_first (list_offsite_objects c.id w.db))
      → IsStored w.db w.sys
      → IsStored (prune_offsite P d c w).1.db (prune_offsite P d c w).1.sys
  unfolding prune_offsite
  prune_offsite-IsStored w r h =
      elim (Bool-cases (c.disable_offsite_pruning || c.offsite_retention_days == 0)) [
        | inl off ↦ rw off h
        | inr on ↦
            let (fs, q) = query-cases (list_offsite_objects c.id) w in
            elim q [
              | inl p ↦
                  rw (on, p)
                    ((prune_objects-IsStored (behind_first (list_offsite_objects c.id w.db)) r).at
                      (record w { faults = fs }) h)
              | inr p ↦ rw (on, p) h
            ]
      ]
