-- ===== src/Lifecycle/Integrity.antt =====
-- internal/lifecycle/lifecycle.go: the check of the newest snapshot at the end of a pass, with that of
-- an archive in internal/archiveutil/archiveutil.go. It only logs, so its result is what is logged.
use backitup.Prelude.{List, [], ◌∷◌, Text, Option, none, some, ◌==◌, nat_eq, if◌then◌else◌}
use backitup.FilePath.{join}
use backitup.Model.{Client, Mode}
use backitup.Lifecycle.{Snapshot}

-- What the disk and `compress/gzip` say of a file: the error of its opening, of the header, and of
-- reading it to the end.
pub record GzipFile : Type 0 where
  pub open_error : Option Text
  pub header_error : Option Text
  pub stream_error : Option Text

abbrev pub or_else : Option Text → Option Text → Option Text
or_else (some e) later = some e
or_else none later = later

-- The first error.
unfoldable pub verify_gzip : GzipFile → Option Text
verify_gzip f = or_else f.open_error (or_else f.header_error f.stream_error)

pub data Logged : Type 0 where
  nothing : Logged
  integrity_fail : Text → Text → Logged
  empty_snapshot : Text → Logged

abbrev pub failed_check : Text → Option Text → Logged
failed_check id none = nothing
failed_check id (some e) = integrity_fail id e

module _ (gzip_file : Text → GzipFile) where
  abbrev pub verify_newest : Mode → Text → Snapshot → Logged
  verify_newest Mode.targz client_dir s =
      failed_check s.id (verify_gzip (gzip_file (join client_dir s.id)))
  verify_newest Mode.rsync client_dir s = if s.bytes == 0 then empty_snapshot s.id else nothing
  verify_newest (Mode.other m) client_dir s = nothing

  -- The snapshots are sorted, the newest first.
  unfoldable pub verify_latest : Client → Text → List Snapshot → Logged
  verify_latest c client_dir [] = nothing
  verify_latest c client_dir (s ∷ snaps) = verify_newest c.mode client_dir s
