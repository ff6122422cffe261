-- ===== src/Tests/Modes.antt =====
-- The modes on a disk in memory, and an archive of a small directory.
use backitup.Prelude.{
  ℕ, ◌≡◌, refl, Bool, true, false, List, [], ◌∷◌, Text, ok, Option, none, some, All, select, length,
  codes, ◌==◌, text_eq, nat_eq, trim_right,
}
use backitup.Archive.{
  Children, nil, child, file, dir, unopened, TarWriter, tar_gz, excluded, close_writers, trim_slash,
  base_from,
}
use backitup.Archive.Walk.{all_entries, is_visible, write_root, entries, tar_gz-eq-write_all}
use backitup.Archive.Readable.{tar_gz_readable, headers_of, is_file, total_size, is_readable}
use backitup.Lifecycle.{World, client_dir}
use backitup.Lifecycle.Observed.{Observed}
use backitup.Modes.Platform.{platform, is_present}
use backitup.Modes.Refinement.{platform_refines}
use backitup.Tests.Memory.{memory, accepting, memory_laws, remotes, remotes_laws, Placed}
use backitup.Tests.Fixtures.{nas, deps, db}

abbrev no_time : Text → Option ℕ
no_time s = none

abbrev same_text : Text → Text → Bool
same_text p s = p == s

platform_refines_example :
    (O : Observed (platform memory remotes no_time same_text [])) × (O.present
      ≡ is_present memory remotes no_time same_text [])
    × (O.has ≡ (λ remote o s. remotes.has remote o s.1))
platform_refines_example =
    platform_refines memory memory_laws remotes remotes_laws no_time same_text []

abbrev archive : Placed
archive = record {
  dir = client_dir deps nas;
  entry = record { name = codes "c.tar.gz"; is_dir = false; info = ok (0, 9) };
}

abbrev stored : World (platform memory remotes no_time same_text [])
stored = record { db = db; faults = []; sys = (archive ∷ [], []); alerted = []; sent = [] }

-- Two files, of which one lies in a directory that is excluded, and cannot be opened.
abbrev source : Children
source =
    child (codes "a") (file 3)
      (child (codes "cache") (dir (child (codes "b") (unopened 4 (codes "denied")) nil)) nil)

abbrev patterns : List Text
patterns = codes "cache/" ∷ []

-- A writer that is full behind the first header.
abbrev full : TarWriter
full = record {
  header_error = λ h w. elim w.headers [ [] ↦ none | h ∷ hs ↦ some (codes "full") ];
  copy_error = λ n w. none;
}

tar_gz-eq-write_all_example :
    tar_gz same_text patterns false full (ok source) none none
    ≡ close_writers none none (write_root same_text patterns false full (ok source))
tar_gz-eq-write_all_example =
    tar_gz-eq-write_all same_text patterns false full (ok source) none none

visible_readable :
    All
      (λ e. is_readable e.node ≡ true)
      (select (is_visible same_text patterns false) (all_entries source))
unfolding entries excluded trim_slash trim_right base_from text_eq nat_eq
visible_readable = (refl, tt)

tar_gz_readable_example :
    let visible = select (is_visible same_text patterns false) (all_entries source) in
    let (archive, error) = tar_gz same_text patterns false accepting (ok source) none none in
    (error ≡ none)
    × (archive.headers ≡ headers_of false visible)
    × (archive.files ≡ length (select (λ e. is_file e.node) visible))
    × (archive.bytes ≡ total_size visible)
tar_gz_readable_example =
    tar_gz_readable same_text patterns false accepting source ((λ h w. refl), λ n w. refl)
      visible_readable
