-- ===== src/Modes.antt =====
-- internal/mode: the server sides of the two modes, on the calls of the package `os`. A path is a
-- text; `time.Parse` with the layout of a snapshot's name is a parameter of the listing.
pub mod Targz
pub mod Rsync
pub mod RsyncClient
pub mod Rclone
pub mod Platform
pub mod Listed
pub mod Kept
pub mod Refinement
pub mod Unsized
use backitup.Prelude.{
  ℕ, ◌≡◌, ◌≢◌, Bool, true, false, List, Text, Outcome, ok, err, Option, any, All, ◌==◌, text_eq,
}
use backitup.FilePath.{join, is_name}
use backitup.Archive.{Children, Written, TarWriter}

-- `fs.DirEntry`; the time of the last change and the size of its `Info`.
pub record DirEntry : Type 0 where
  pub name : Text
  pub is_dir : Bool
  pub info : Outcome Text (ℕ × ℕ)

pub data DirError : Type 0 where
  not_exist : DirError
  refused : Text → DirError

pub record Disk : Type 1 where
  pub State : Type 0
  pub read_dir : Text → State → Outcome DirError (List DirEntry)
  pub readlink : Text → State → Option Text
  pub remove : Text → State → Outcome Text (Unit {0}) × State
  pub remove_all : Text → State → Outcome Text (Unit {0}) × State
  pub stat_size : Text → State → Outcome Text ℕ
  pub checksum : Text → State → Outcome Text Text
  -- a new temporary file; the directory that an archive is made of, and the writers; the file with the archive, and
  -- the errors of closing the archive's writers and the file
  pub create_temp : State → Outcome Text Text × State
  pub tree : Text → State → Outcome Text Children
  pub tar_writer : State → TarWriter
  pub write_archive : Text → Written → State → State
  pub close_tar : State → Option Text
  pub close_gzip : State → Option Text
  pub close_file : Text → State → Option Text

abbrev pub named : Text → Outcome DirError (List DirEntry) → Bool
named j (ok es) = any (λ e. e.name == j) es
named j (err e) = false

-- Whether a directory has an entry.
abbrev pub has_entry : (D : Disk) → Text → Text → D.State → Bool
has_entry D dir j s = named j (D.read_dir dir s)

-- What the server relies on of the disk, for paths that `filepath.Join` makes: an entry has a name; a
-- removal of a file or an empty directory takes the entry of no other path, and that of a whole
-- directory none beside it.
pub record Documented (D : Disk) : Type 0 where
  pub read_dir-IsName :
      (dir : Text) (s : D.State) {es : List DirEntry}
      → D.read_dir dir s ≡ ok es
      → All (λ e. is_name e.name ≡ true) es
  pub has_entry-remove :
      (path dir j : Text) (s : D.State)
      → path ≢ join dir j
      → has_entry D dir j (D.remove path s).1 ≡ has_entry D dir j s
  pub has_entry-remove_all :
      (dir i j : Text) (s : D.State)
      → is_name i ≡ true
      → i ≢ j
      → has_entry D dir j (D.remove_all (join dir i) s).1 ≡ has_entry D dir j s
