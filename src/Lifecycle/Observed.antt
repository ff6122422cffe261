-- ===== src/Lifecycle/Observed.antt =====
-- What the workers rely on of the disk and of rclone: which snapshots are on disk, which objects
-- lie on a remote, and that a call touches no other.
use backitup.Prelude.{ℕ, ◌≡◌, ◌≢◌, Bool, true, List, Text, ok, All}
use backitup.FilePath.{join, is_name}
use backitup.Model.{Mode}
use backitup.Lifecycle.{Platform, Snapshot}

pub record Observed (P : Platform) : Type 0 where
  -- a snapshot in a client's directory; an object on a remote
  pub present : Mode → Text → Text → P.State → Bool
  pub has : Text → Text → P.State → Bool
  -- what is listed has the name of an entry of a directory
  pub list-IsName :
      (m : Mode) (dir : Text) (s : P.State) {xs : List Snapshot}
      → P.list m dir s ≡ ok xs
      → All (λ x. is_name x.id ≡ true) xs
  pub read_dir-IsName :
      (dir : Text) (s : P.State) → All (λ e. is_name e.name ≡ true) (P.read_dir dir s)
  -- deleting a snapshot or a file leaves every other snapshot, and removes no object
  pub present-delete_snapshot :
      (m : Mode) (dir i j : Text) (s : P.State)
      → is_name i ≡ true
      → i ≢ j
      → present m dir j (P.delete_snapshot m dir i s).1 ≡ present m dir j s
  pub present-remove_file :
      (m : Mode) (dir name j : Text) (s : P.State)
      → is_name name ≡ true
      → name ≢ j
      → present m dir j (P.remove_file (join dir name) s) ≡ present m dir j s
  pub has-prepare_offsite :
      (m : Mode) (dir : Text) (x : Snapshot) (remote o : Text) (s : P.State)
      → has remote o (P.prepare_offsite m dir x s).1 ≡ has remote o s
  pub has-remove_file :
      (path remote o : Text) (s : P.State) → has remote o (P.remove_file path s) ≡ has remote o s
  -- an upload that succeeds leaves its object, and no upload removes one
  pub has-upload :
      (path remote o : Text) (s : P.State) {n : ℕ}
      → (P.upload path remote o s).0 ≡ ok n
      → has remote o (P.upload path remote o s).1 ≡ true
  pub has-upload_other :
      (path r q remote o : Text) (s : P.State)
      → has remote o s ≡ true
      → has remote o (P.upload path r q s).1 ≡ true
  -- deleting an object leaves every other object, and no snapshot is touched
  pub has-delete_object :
      (remote o q : Text) (s : P.State)
      → o ≢ q
      → has remote q (P.delete_object remote o s).1 ≡ has remote q s
  pub present-delete_object :
      (remote o : Text) (m : Mode) (dir j : Text) (s : P.State)
      → present m dir j (P.delete_object remote o s).1 ≡ present m dir j s
