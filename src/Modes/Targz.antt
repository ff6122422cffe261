-- ===== src/Modes/Targz.antt =====
-- internal/mode/targz/server.go: each archive in the client's directory is a snapshot.
use backitup.Prelude.{ℕ, ◌||◌, not, List, [], ◌∷◌, Text, Outcome, ok, err, if◌then◌else◌, codes}
use backitup.FilePath.{join}
use backitup.Lifecycle.{Snapshot}
use backitup.Lifecycle.Prune.{has_suffix}
use backitup.Modes.{DirEntry, Disk, DirError, not_exist, refused}

-- A snapshot in front of the others, where neither is an error.
abbrev pub in_list :
    Outcome Text Snapshot → Outcome Text (List Snapshot) → Outcome Text (List Snapshot)
in_list (err e) rest = err e
in_list (ok x) (err e) = err e
in_list (ok x) (ok xs) = ok (x ∷ xs)

abbrev pub archive_of : Text → Outcome Text (ℕ × ℕ) → Outcome Text Snapshot
archive_of name (ok (time, size)) = ok (record { id = name; created_at = time; bytes = size })
archive_of name (err e) = err e

unfoldable pub list_archives : List DirEntry → Outcome Text (List Snapshot)
list_archives [] = ok []
list_archives (e ∷ es) =
    let rest = list_archives es in
    if e.is_dir || not (has_suffix e.name (codes ".tar.gz"))
    then rest
    else in_list (archive_of e.name e.info) rest

-- What the reading of the directory gives.
abbrev pub listing : Outcome DirError (List DirEntry) → Outcome Text (List Snapshot)
listing (ok es) = list_archives es
listing (err not_exist) = ok []
listing (err (refused t)) = err t

module _ (D : Disk) where
  unfoldable pub list : Text → D.State → Outcome Text (List Snapshot)
  list client_dir s = listing (D.read_dir client_dir s)

  unfoldable pub prepare_offsite : Text → Snapshot → D.State → Outcome Text Text × D.State
  prepare_offsite client_dir snap s = (ok (join client_dir snap.id), s)

  unfoldable pub delete_snapshot : Text → Text → D.State → Outcome Text (Unit {0}) × D.State
  delete_snapshot client_dir id s = D.remove (join client_dir id) s
