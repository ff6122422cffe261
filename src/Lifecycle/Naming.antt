-- ===== src/Lifecycle/Naming.antt =====
-- internal/lifecycle/lifecycle.go: where a client's objects lie on its remote.
use backitup.Prelude.{[], ◌++◌, Text, if◌then◌else◌, ◌==◌, text_eq, codes}
use backitup.FilePath.{separator}
use backitup.Model.{Client, Mode}
use backitup.Model.Slug.{slug}

abbrev pub archive_suffix : Text
archive_suffix = codes ".tar.gz"

-- The directory that the operator chose, or the client's slug.
unfoldable pub offsite_dir : Client → Text
offsite_dir c = if c.offsite_dir == [] then slug c.name else c.offsite_dir

-- A snapshot directory of rsync becomes one archive.
abbrev pub archive_name : Mode → Text → Text
archive_name Mode.rsync id = id ++ archive_suffix
archive_name Mode.targz id = id
archive_name (Mode.other m) id = id

unfoldable pub object_path : Text → Mode → Text → Text
object_path dir m snapshot_id = dir ++ separator ++ archive_name m snapshot_id
