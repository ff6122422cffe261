-- ===== src/Modes/Platform.antt =====
-- The platform of the workers, made of the modes, the disk and rclone: `mode.Server` registers the two modes; the disk and the remotes are apart.
use backitup.Prelude.{
  ℕ, Bool, false, List, [], ◌∷◌, Text, Outcome, ok, err, Option, nat_eq, text_eq, codes,
}
use backitup.Model.{Mode}
use backitup.Lifecycle.{Platform, Snapshot, Entry}
use backitup.Modes.{DirEntry, Disk, DirError, has_entry}
use backitup.Modes.Targz
use backitup.Modes.Rsync
use backitup.Modes.Rsync.{snapshots_dir}
use backitup.Modes.Rclone
use backitup.Modes.Rclone.{Cloud, DocumentedCloud}

-- The entries of which the time of the last change can be read.
abbrev pub with_known : DirEntry → Outcome Text (ℕ × ℕ) → List Entry → List Entry
with_known e (ok (time, size)) rest =
    record { name = e.name; is_dir = e.is_dir; mod_time = time } ∷ rest
with_known e (err x) rest = rest

abbrev pub known_entries : List DirEntry → List Entry
known_entries [] = []
known_entries (e ∷ es) = with_known e e.info (known_entries es)

abbrev pub entries_of : Outcome DirError (List DirEntry) → List Entry
entries_of (ok es) = known_entries es
entries_of (err e) = []

module _ (D : Disk) (C : Cloud) (parse_time : Text → Option ℕ) (path_match : Text → Text → Bool)
    (config : Text) where
  abbrev pub unregistered : Text
  unregistered = codes "no such mode"

  abbrev list_mode : Mode → Text → D.State → Outcome Text (List Snapshot)
  list_mode Mode.targz dir s = Targz.list D dir s
  list_mode Mode.rsync dir s = Rsync.list parse_time D dir s
  list_mode (Mode.other m) dir s = err unregistered

  abbrev prepare_mode : Mode → Text → Snapshot → D.State → Outcome Text Text × D.State
  prepare_mode Mode.targz dir x s = Targz.prepare_offsite D dir x s
  prepare_mode Mode.rsync dir x s = Rsync.prepare_offsite D path_match dir x s
  prepare_mode (Mode.other m) dir x s = (err unregistered, s)

  abbrev delete_mode : Mode → Text → Text → D.State → Outcome Text (Unit {0}) × D.State
  delete_mode Mode.targz dir id s = Targz.delete_snapshot D dir id s
  delete_mode Mode.rsync dir id s = Rsync.delete_snapshot D path_match dir id s
  delete_mode (Mode.other m) dir id s = (err unregistered, s)

  -- A call on the disk, and one on the remotes.
  abbrev on_disk {ℓ} : {A : Type ℓ} → A × D.State → C.State → A × (D.State × C.State)
  on_disk (a, d) c = (a, (d, c))

  abbrev on_remotes {ℓ} : {A : Type ℓ} → D.State → A × C.State → A × (D.State × C.State)
  on_remotes d (a, c) = (a, (d, c))

  abbrev pub platform : Platform
  platform = record {
    State = D.State × C.State;
    list = λ m dir s. list_mode m dir s.0;
    prepare_offsite = λ m dir x s. on_disk (prepare_mode m dir x s.0) s.1;
    delete_snapshot = λ m dir id s. on_disk (delete_mode m dir id s.0) s.1;
    read_dir = λ dir s. entries_of (D.read_dir dir s.0);
    remove_file = λ path s. ((D.remove path s.0).1, s.1);
    checksum = λ path s. D.checksum path s.0;
    upload = λ path remote o s.
        on_remotes s.0 (Rclone.upload C config (D.stat_size path s.0) path remote o s.1);
    delete_object = λ remote o s. on_remotes s.0 (Rclone.delete C config remote o s.1);
    lsf = λ remote dir s. Rclone.lsf C config remote dir s.1;
  }

  -- A snapshot is on disk: its archive or its directory is.
  abbrev pub is_present : Mode → Text → Text → D.State × C.State → Bool
  is_present Mode.targz dir j s = has_entry D dir j s.0
  is_present Mode.rsync dir j s = has_entry D (snapshots_dir dir) j s.0
  is_present (Mode.other m) dir j s = false
