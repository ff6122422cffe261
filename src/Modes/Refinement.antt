-- ===== src/Modes/Refinement.antt =====
-- The modes, on a disk and remotes as documented, are a platform as the workers rely on.
use backitup.Prelude.{
  ℕ, ◌≡◌, ◌≢◌, refl, ap, Bool, true, false, List, Text, Outcome, ok, err, Option, All, arith,
  nat_eq, text_eq,
}
use backitup.FilePath.{join, is_name}
use backitup.Model.{Mode}
use backitup.Lifecycle.{Platform, Snapshot}
use backitup.Lifecycle.Observed.{Observed}
use backitup.Modes.{Disk, Documented}
use backitup.Modes.Targz
use backitup.Modes.Targz.{list_archives, in_list, archive_of}
use backitup.Modes.Rclone
use backitup.Modes.Rclone.{Cloud, DocumentedCloud, copyto, deletefile}
use backitup.Modes.Platform.{platform, is_present}
use backitup.Modes.Listed.{IsNamed}
use backitup.Model.{Client}
use backitup.Modes.Kept.{
  targz-IsNamed, rsync-IsNamed, targz-remove, rsync-remove, rsync-delete, entries-IsName,
}
use backitup.Lifecycle.{Deps, World, client_dir}
use backitup.Lifecycle.Upload.{contains, offsited_set}
use backitup.Lifecycle.Prune.Kept.{is_whole}
use backitup.Lifecycle.Pass.{process_client, offsite_on}
use backitup.Lifecycle.Pass.Safety.{process_client-unsent}

module _ (D : Disk) (L : Documented D) (C : Cloud) (R : DocumentedCloud C)
    (parse_time : Text → Option ℕ) (path_match : Text → Text → Bool) (config : Text) where
  abbrev P : Platform
  P = platform D C parse_time path_match config

  abbrev on_disk : Mode → Text → Text → P.State → Bool
  on_disk = is_present D C parse_time path_match config

  listed :
      (m : Mode) (dir : Text) (s : P.State) (xs : List Snapshot)
      → P.list m dir s ≡ ok xs
      → All IsNamed xs
  listed Mode.targz dir s xs h = targz-IsNamed D L dir s.0 xs h
  listed Mode.rsync dir s xs h = rsync-IsNamed D L parse_time dir s.0 xs h
  listed (Mode.other m) dir s xs h = absurd (ground (arith, h))

  deleted :
      (m : Mode) (dir i j : Text) (s : P.State)
      → is_name i ≡ true
      → i ≢ j
      → on_disk m dir j (P.delete_snapshot m dir i s).1 ≡ on_disk m dir j s
  unfolding Targz.delete_snapshot
  deleted Mode.targz dir i j s v n = targz-remove D L dir i j s.0 v n
  deleted Mode.rsync dir i j s v n = rsync-delete D L path_match dir i j s.0 v n
  deleted (Mode.other m) dir i j s v n = refl

  removed :
      (m : Mode) (dir i j : Text) (s : P.State)
      → is_name i ≡ true
      → i ≢ j
      → on_disk m dir j (P.remove_file (join dir i) s) ≡ on_disk m dir j s
  removed Mode.targz dir i j s v n = targz-remove D L dir i j s.0 v n
  removed Mode.rsync dir i j s v n = rsync-remove D L dir i j s.0 v
  removed (Mode.other m) dir i j s v n = refl

  uploaded :
      (path remote o : Text) (s : P.State) (n : ℕ)
      → (P.upload path remote o s).0 ≡ ok n
      → C.has remote o (P.upload path remote o s).1.1 ≡ true
  unfolding Rclone.upload
  uploaded path remote o s n h = by_run (C.run (copyto config path remote o) s.1).0 refl h
    where
      by_run :
          (r : Outcome Text Text)
          → (C.run (copyto config path remote o) s.1).0 ≡ r
          → Rclone.size_after (D.stat_size path s.0) r ≡ ok n
          → C.has remote o (C.run (copyto config path remote o) s.1).1 ≡ true
      by_run (ok out) q e = R.has-copyto config path remote o s.1 q
      by_run (err x) q e = absurd (ground (arith, e))

  same_present :
      (m : Mode) (dir j : Text) (d : D.State) (c e : C.State)
      → on_disk m dir j (d, c) ≡ on_disk m dir j (d, e)
  same_present Mode.targz dir j d c e = refl
  same_present Mode.rsync dir j d c e = refl
  same_present (Mode.other m) dir j d c e = refl

  same_remotes :
      (m : Mode) (dir : Text) (x : Snapshot) (s : P.State) → (P.prepare_offsite m dir x s).1.1 ≡ s.1
  same_remotes Mode.targz dir x s = refl
  same_remotes Mode.rsync dir x s = refl
  same_remotes (Mode.other m) dir x s = refl

  observed : Observed P
  unfolding Rclone.upload Rclone.delete
  observed = record {
    present = on_disk;
    has = λ remote o s. C.has remote o s.1;
    list-IsName = λ m dir s e. listed m dir s _ e;
    read_dir-IsName = λ dir s. entries-IsName D L dir s.0;
    present-delete_snapshot = deleted;
    present-remove_file = removed;
    has-prepare_offsite = λ m dir x remote o s. ap (C.has remote o) (same_remotes m dir x s);
    has-remove_file = λ path remote o s. refl;
    has-upload = λ path remote o s h. uploaded path remote o s _ h;
    has-upload_other = λ path r q remote o s h. R.has-copyto_other config path r q remote o s.1 h;
    has-delete_object = λ remote o q s n. R.has-deletefile config remote o q s.1 n;
    present-delete_object = λ remote o m dir j s. same_present m dir j s.0 _ s.1;
  }

-- On a disk and remotes that behave as documented, the two modes and rclone are a platform with the laws
-- that the workers rely on, where a snapshot is present if the directory has an entry of its name and
-- an object if it is on the remote.
pub platform_refines :
    (D : Disk) (L : Documented D) (C : Cloud) (R : DocumentedCloud C) (parse_time : Text → Option ℕ)
    (path_match : Text → Text → Bool) (config : Text)
    → (O : Observed (platform D C parse_time path_match config)) × (O.present
        ≡ is_present D C parse_time path_match config)
      × (O.has ≡ (λ remote o s. C.has remote o s.1))
unfolding observed
platform_refines D L C R parse_time path_match config =
    (observed D L C R parse_time path_match config, refl, refl)

-- On a disk and remotes that behave as documented, a maintenance pass over a client of either mode that
-- has offsite on leaves in the client's directory every archive or snapshot directory of which no
-- upload is recorded and whose name is not that of a partial upload, whichever statements fail.
pub process_client-is_present :
    (D : Disk) (L : Documented D) (C : Cloud) (R : DocumentedCloud C) (parse_time : Text → Option ℕ)
    (path_match : Text → Text → Bool) (config : Text) (d : Deps) (c : Client) (i : Text)
    (w : World (platform D C parse_time path_match config))
    → is_whole i ≡ true
    → offsite_on (platform D C parse_time path_match config) d c ≡ true
    → contains i (offsited_set c.id w.db) ≡ false
    → is_present D C parse_time path_match config c.mode (client_dir d c) i w.sys ≡ true
    → is_present D C parse_time path_match config c.mode
        (client_dir d c)
        i
        (process_client (platform D C parse_time path_match config) d c w).1.sys
      ≡ true
unfolding observed
process_client-is_present D L C R parse_time path_match config d c i w whole on unsent h =
    process_client-unsent (platform D C parse_time path_match config)
      (observed D L C R parse_time path_match config) d c i w whole on unsent h
