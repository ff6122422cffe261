-- ===== src/Archive/Readable.antt =====
-- What an archive holds where the disk refuses nothing.
use backitup.Prelude.{
  ℕ, ◌+◌, ◌≡◌, refl, sym, ap, ◌∙◌, Bool, true, false, List, [], ◌∷◌, ◌++◌, Text, ok, none, select,
  length, All, append_nil, arith, if◌then◌else◌,
}
use mathlib.Core.List.{append_assoc}
use backitup.Archive.{
  Node, file, symlink, special, dir, vanished, unlisted, unresolved, unopened, unread, TarWriter,
  header_of, Children, Header, Written, nothing_written, write_entry, tar_gz,
}
use backitup.Archive.Entry.{write_entry_lem}
use backitup.Archive.Walk.{Listed, all_entries, is_visible, write_all, tar_gz-eq-write_all}

-- What an entry that can be read adds.
abbrev pub own_headers : Bool → Text → Node → List Header
own_headers skip rel (file n) = record { name = rel; size = n; link = [] } ∷ []
own_headers skip rel (symlink t) =
    if skip then [] else record { name = rel; size = 0; link = t } ∷ []
own_headers skip rel (dir cs) = record { name = rel ++ b'/' ∷ []; size = 0; link = [] } ∷ []
own_headers skip rel _ = []

abbrev pub headers_of : Bool → List Listed → List Header
headers_of skip [] = []
headers_of skip (e ∷ es) = own_headers skip e.rel e.node ++ headers_of skip es

abbrev pub is_file : Node → Bool
is_file (file n) = true
is_file _ = false

abbrev pub size_of : Node → ℕ
size_of (file n) = n
size_of _ = 0

abbrev pub total_size : List Listed → ℕ
total_size [] = 0
total_size (e ∷ es) = size_of e.node + total_size es

abbrev pub is_readable : Node → Bool
is_readable (vanished e) = false
is_readable (unlisted e) = false
is_readable (unresolved e) = false
is_readable (unopened n e) = false
is_readable (unread n e) = false
is_readable _ = true

-- What was written, with an entry, and with entries, behind it.
abbrev added : Bool → Text → Node → Written → Written
added skip rel node w = record {
  headers = w.headers ++ own_headers skip rel node;
  files = w.files + (if is_file node then 1 else 0);
  bytes = w.bytes + size_of node;
}

abbrev with_entries : Bool → List Listed → Written → Written
with_entries skip es w = record {
  headers = w.headers ++ headers_of skip es;
  files = w.files + length (select (λ e. is_file e.node) es);
  bytes = w.bytes + total_size es;
}

-- The writers refuse nothing.
abbrev pub AreAccepted : TarWriter → Type 0
AreAccepted out =
    ((h : Header) (w : Written) → out.header_error h w ≡ none)
    × ((n : ℕ) (w : Written) → out.copy_error n w ≡ none)

module _ (m : Text → Text → Bool) (ps : List Text) (skip : Bool) (out : TarWriter)
    (fine : AreAccepted out) where
  write_entry_readable :
      (rel : Text) (node : Node) (w : Written)
      → is_readable node ≡ true
      → write_entry m ps skip out rel node w ≡ (none, added skip rel node w)
  unfolding write_entry
  write_entry_readable rel (file n) w h = rw (fine.0 (header_of rel n []) w, fine.1 n) refl
  write_entry_readable rel (symlink t) w h =
      rw (fine.0 (header_of rel 0 t) w) (ground (arith, append_nil w.headers))
  write_entry_readable rel special w h = ground (arith, append_nil w.headers)
  write_entry_readable rel (dir cs) w h =
      rw (fine.0 (header_of (rel ++ b'/' ∷ []) 0 []) w) (ground (arith))
  write_entry_readable rel (vanished x) w h = absurd (cc)
  write_entry_readable rel (unresolved x) w h = absurd (cc)
  write_entry_readable rel (unopened n x) w h = absurd (cc)
  write_entry_readable rel (unread n x) w h = absurd (cc)
  write_entry_readable rel (unlisted x) w h = absurd (cc)

  write_all_readable :
      (es : List Listed) (w : Written)
      → All (λ e. is_readable e.node ≡ true) es
      → write_all m ps skip out es w ≡ (none, with_entries skip es w)
  unfolding write_all
  write_all_readable [] w h = ground (arith, append_nil w.headers)
  write_all_readable (e ∷ es) w h =
      rw
        (sym (write_entry_lem m ps skip out e.rel e.node w)
          ∙ write_entry_readable e.rel e.node w h.0)
        (write_all_readable es (added skip e.rel e.node w) h.1
          ∙ ap (λ v. (none, v))
              (ground (
                arith,
                append_assoc w.headers (own_headers skip e.rel e.node) (headers_of skip es),
              )))

-- Where every visible entry can be read and the writers take everything and are closed without an
-- error, the archive has no error; it holds a header for each visible file, directory and, unless they
-- are skipped, symbolic link, in the order of the tree, and the counts are those of the visible files
-- and of their bytes.
pub tar_gz_readable :
    (path_match : Text → Text → Bool) (patterns : List Text) (skip_symlinks : Bool)
    (out : TarWriter) (src : Children)
    → AreAccepted out
    → All
        (λ e. is_readable e.node ≡ true)
        (select (is_visible path_match patterns skip_symlinks) (all_entries src))
    → let visible = select (is_visible path_match patterns skip_symlinks) (all_entries src) in
      let (archive, error) = tar_gz path_match patterns skip_symlinks out (ok src) none none in
      (error ≡ none)
      × (archive.headers ≡ headers_of skip_symlinks visible)
      × (archive.files ≡ length (select (λ e. is_file e.node) visible))
      × (archive.bytes ≡ total_size visible)
tar_gz_readable m ps skip out src fine h =
    let visible = select (is_visible m ps skip) (all_entries src) in
    rw
      (
        tar_gz-eq-write_all m ps skip out (ok src) none none,
        write_all_readable m ps skip out fine visible nothing_written h,
      )
      (refl, refl, omega arith, omega arith)
