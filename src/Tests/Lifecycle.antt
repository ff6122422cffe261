-- ===== src/Tests/Lifecycle.antt =====
-- The workers in a world with two snapshots.
use backitup.Prelude.{
  ◌+◌, ◌*◌, ◌≤◌, ◌≡◌, refl, subst, sort_by, false, [], ◌∷◌, codes, arith, nat_eq, text_eq, All,
}
use backitup.Model.{Client}
use backitup.Model.Slug.{slug, to_lower}
use backitup.Lifecycle.Naming.{object_path, offsite_dir}
use backitup.Lifecycle.Upload.{newest_first, offsited_set, upload_client, offsite_client}
use backitup.Lifecycle.Upload.Recorded.{Tracked}
use backitup.Lifecycle.Upload.Sessions.{upload_client-Tracked, offsite_client-Tracked}
use backitup.Lifecycle.Prune.{has_suffix, is_older, prune_offsite}
use backitup.Lifecycle.Prune.Offsite.{IsStored, prune_offsite-IsStored}
use backitup.Lifecycle.Prune.Kept.{Present}
use backitup.Lifecycle.Pass.{process_client}
use backitup.Lifecycle.Pass.Safety.{
  process_client-unsent, process_client-newest, process_client-recent,
  process_client-retention_days,
}
use backitup.Store.Objects.{list_offsite_objects}
use backitup.Clock.{day}
use backitup.Clock.Stamp.{stamp_lt}
use backitup.Tests.Lab.{lab, lab_laws}
use backitup.Lifecycle.{World}
use backitup.Tests.Fixtures.{nas, old, young, object, deps, world, db, present}

process_client-unsent_example :
    Present lab lab_laws deps nas (codes "b") (process_client lab deps nas world).1.sys
unfolding lab_laws has_suffix text_eq nat_eq offsited_set list_offsite_objects sort_by
process_client-unsent_example =
    process_client-unsent lab lab_laws deps nas (codes "b") world refl refl refl refl

process_client-newest_example :
    Present lab lab_laws deps nas (codes "b") (process_client lab deps nas world).1.sys
unfolding lab_laws has_suffix text_eq nat_eq newest_first sort_by
process_client-newest_example =
    process_client-newest lab lab_laws deps nas (codes "b") world (old ∷ young ∷ []) (old ∷ [])
      young refl refl refl refl ((λ e. ground (arith, e), tt), (tt, tt)) refl

-- A year of retention holds both snapshots.
abbrev roomy : Client
roomy = record nas { retention_days = 365 }

process_client-recent_example :
    Present lab lab_laws deps roomy (codes "a") (process_client lab deps roomy world).1.sys
unfolding lab_laws has_suffix text_eq nat_eq newest_first sort_by
process_client-recent_example =
    process_client-recent lab lab_laws deps roomy (codes "a") world refl
      (λ snaps e.
        let same : (old ∷ young ∷ []) ≡ snaps = cc in
        subst
          (λ l.
            All
              (λ x. x.id ≡ codes "a" → is_older roomy.retention_days deps.now x.created_at ≡ false)
              (newest_first l))
          same ((λ h. refl), ((λ h. refl), tt)))
      refl

process_client-retention_days_example :
    Present lab lab_laws deps roomy (codes "a") (process_client lab deps roomy world).1.sys
unfolding lab_laws has_suffix text_eq nat_eq
process_client-retention_days_example =
    process_client-retention_days lab lab_laws deps roomy (codes "a") world refl (omega arith)
      (λ snaps e.
        let same : (old ∷ young ∷ []) ≡ snaps = cc in
        subst
          (λ l.
            All (λ x. x.id ≡ codes "a" → deps.now ≤ x.created_at + roomy.retention_days * day) l)
          same ((λ h. omega arith), ((λ h. omega arith), tt)))
      refl

tracked : Tracked lab lab_laws deps nas world.db world.sys
unfolding lab_laws object_path offsite_dir text_eq nat_eq slug to_lower
tracked = (λ e r. refl, tt)

upload_client-Tracked_example :
    Tracked lab lab_laws deps nas
      (upload_client lab deps nas world).1.db
      (upload_client lab deps nas world).1.sys
upload_client-Tracked_example = upload_client-Tracked lab lab_laws deps nas world tracked

offsite_client-Tracked_example :
    Tracked lab lab_laws deps nas
      (offsite_client lab deps nas world).1.db
      (offsite_client lab deps nas world).1.sys
offsite_client-Tracked_example = offsite_client-Tracked lab lab_laws deps nas world tracked

-- Half a year of retention holds the object.
abbrev frugal : Client
frugal = record nas { offsite_retention_days = 180 }

-- Three objects: one of today, the recent one, and one that is pruned.
abbrev stocked : World lab
stocked = record world {
  db = record db {
    objects =
        object
        ∷ record object { id = 2; snapshot_id = codes "b"; uploaded_at = present }
        ∷ record object { id = 3; snapshot_id = []; uploaded_at = day }
        ∷ [];
  };
}

prune_offsite-IsStored_example :
    IsStored lab lab_laws deps frugal
      (codes "a")
      (prune_offsite lab deps frugal stocked).1.db
      (prune_offsite lab deps frugal stocked).1.sys
unfolding lab_laws object_path offsite_dir text_eq nat_eq slug to_lower list_offsite_objects sort_by
    stamp_lt
prune_offsite-IsStored_example =
    prune_offsite-IsStored lab lab_laws deps frugal (codes "a") stocked
      ((λ e. refl), ((λ e. cc), tt)) (refl, refl)
