-- ===== src/Modes/Rsync.antt =====
-- internal/mode/rsync/server.go: a snapshot is a directory, and `latest` links to one.
use backitup.Prelude.{
  ℕ, Bool, false, ◌||◌, not, List, [], ◌∷◌, Text, Outcome, ok, err, Option, none, some, ◌==◌,
  text_eq, if◌then◌else◌, codes,
}
use backitup.FilePath.{join}
use backitup.Archive.{tar_gz}
use backitup.Lifecycle.{Snapshot}
use backitup.Modes.{DirEntry, Disk, DirError, not_exist, refused}
use backitup.Modes.Targz.{in_list}

abbrev pub snapshots_dir : Text → Text
snapshots_dir client_dir = join client_dir (codes "snapshots")

abbrev pub latest : Text
latest = codes "latest"

module _ (parse_time : Text → Option ℕ) where
  -- The time of a snapshot is in its name, or else that of the directory.
  abbrev pub snapshot_of : Text → Outcome Text (ℕ × ℕ) → Outcome Text Snapshot
  snapshot_of name (ok (time, size)) = ok (record {
    id = name;
    created_at = elim (parse_time name) [ none ↦ time | some t ↦ t ];
    bytes = 0;
  })
  snapshot_of name (err e) = err e

  unfoldable pub list_snapshots : List DirEntry → Outcome Text (List Snapshot)
  list_snapshots [] = ok []
  list_snapshots (e ∷ es) =
      let rest = list_snapshots es in
      if e.name == latest || not e.is_dir then rest else in_list (snapshot_of e.name e.info) rest

  -- What the reading of the directory gives.
  abbrev pub listing : Outcome DirError (List DirEntry) → Outcome Text (List Snapshot)
  listing (ok es) = list_snapshots es
  listing (err not_exist) = ok []
  listing (err (refused t)) = err t

  unfoldable pub list : (D : Disk) → Text → D.State → Outcome Text (List Snapshot)
  list D client_dir s = listing (D.read_dir (snapshots_dir client_dir) s)

-- `os.Readlink`, whose error leaves the empty text.
abbrev pub target : Option Text → Text
target none = []
target (some t) = t

module _ (D : Disk) (path_match : Text → Text → Bool) where
  -- The temporary file goes where the archive or the closing fails.
  abbrev give_up : Text → Text → D.State → Outcome Text Text × D.State
  give_up e path s = (err e, (D.remove path s).1)

  abbrev finish_temp : Text → Option Text → D.State → Outcome Text Text × D.State
  finish_temp path (some e) s = give_up e path s
  finish_temp path none s = elim (D.close_file path s) [
    | some e ↦ give_up e path s
    | none ↦ (ok path, s)
  ]

  abbrev pack : Text → Outcome Text Text × D.State → Outcome Text Text × D.State
  pack snap_path (err e, s) = (err e, s)
  pack snap_path (ok path, s) =
      let (archive, error) =
        tar_gz path_match [] false (D.tar_writer s) (D.tree snap_path s) (D.close_tar s)
          (D.close_gzip s) in
      finish_temp path error (D.write_archive path archive s)

  unfoldable pub prepare_offsite : Text → Snapshot → D.State → Outcome Text Text × D.State
  prepare_offsite client_dir snap s =
      pack (join (snapshots_dir client_dir) snap.id) (D.create_temp s)

  unfoldable pub delete_snapshot : Text → Text → D.State → Outcome Text (Unit {0}) × D.State
  delete_snapshot client_dir id s =
      if target (D.readlink (join (snapshots_dir client_dir) latest) s) == id
      then (err (codes "refusing to delete the current latest"), s)
      else D.remove_all (join (snapshots_dir client_dir) id) s
