-- ===== src/Archive.antt =====
-- internal/archiveutil/archiveutil.go: the walk over a directory that makes an archive. A directory is
-- a tree whose children stand in the order of their names, as `filepath.WalkDir` visits them; what the
-- disk refuses is a node of its own, and what the writers refuse is a parameter, with what was written
-- before as an argument. `path.Match` is a parameter, whose error counts as no match; the archive is the
-- list of its headers. A file does not change while it is read, and the walk is not cancelled.
pub mod Entry
pub mod Walk
pub mod Readable
use backitup.Prelude.{
  ℕ, ◌+◌, Bool, true, false, ◌&&◌, ◌||◌, not, List, [], ◌∷◌, ◌++◌, Text, Option, none, some,
  Outcome, ok, err, any, ◌==◌, nat_eq, text_eq, trim_right, if◌then◌else◌,
}

mutual
  pub data Node : Type 0 where
    -- a regular file with its bytes, a symbolic link with its target, and a socket, device or FIFO
    file : ℕ → Node
    symlink : Text → Node
    special : Node
    dir : Children → Node
    -- what cannot be examined or listed, and a link that cannot be read
    vanished unlisted unresolved : Text → Node
    -- a file that cannot be opened, or not be read to its end
    unopened unread : ℕ → Text → Node

  pub data Children : Type 0 where
    nil : Children
    child : Text → Node → Children → Children

-- `tar.Header`; a link has its target.
pub record Header : Type 0 where
  pub name : Text
  pub size : ℕ
  pub link : Text

-- What the archive has so far.
pub record Written : Type 0 where
  pub headers : List Header
  pub files : ℕ
  pub bytes : ℕ

-- The errors of `FileInfoHeader` and `WriteHeader`, and of the writer in `io.Copy`.
pub record TarWriter : Type 0 where
  pub header_error : Header → Written → Option Text
  pub copy_error : ℕ → Written → Option Text

abbrev pub nothing_written : Written
nothing_written = record { headers = []; files = 0; bytes = 0 }

-- `path.Base` of a path with no slash at its end.
unfoldable pub base_from : Text → Text → Text
base_from last [] = last
base_from last (c ∷ cs) = base_from (if c == b'/' then [] else last ++ c ∷ []) cs

abbrev pub base : Text → Text
base p = base_from [] p

unfoldable pub trim_slash : Text → Text
trim_slash [] = []
trim_slash (c ∷ cs) = c ∷ trim_right (λ x. x == b'/') cs

abbrev pub relative : Text → Text → Text
relative up name = if up == [] then name else up ++ b'/' ∷ name

abbrev pub header_of : Text → ℕ → Text → Header
header_of name size link = record { name = name; size = size; link = link }

abbrev pub write_header : Header → Written → Written
write_header h w = record w { headers = w.headers ++ h ∷ [] }

abbrev pub count_file : ℕ → Written → Written
count_file n w = record w { files = w.files + 1; bytes = w.bytes + n }

-- What a write leaves, by its error.
abbrev pub written_or : Option Text → Written → Written → Option Text × Written
written_or (some e) before after = (some e, before)
written_or none before after = (none, after)

-- An error ends the walk.
abbrev pub and_then :
    Option Text × Written → (Written → Option Text × Written) → Option Text × Written
and_then (none, w) rest = rest w
and_then (some e, w) rest = (some e, w)

-- The error of the walk, or of the writers that are closed behind it.
abbrev pub close_writers : Option Text → Option Text → Option Text × Written → Written × Option Text
close_writers close_tar close_gzip (some e, w) = (w, some e)
close_writers (some e) close_gzip (none, w) = (w, some e)
close_writers none close_gzip (none, w) = (w, close_gzip)

module _ (out : TarWriter) where
  abbrev pub put_header : Header → Written → Option Text × Written
  put_header h w = written_or (out.header_error h w) w (write_header h w)

  abbrev pub copy_file : ℕ → Written → Option Text × Written
  copy_file n w = written_or (out.copy_error n w) w (count_file n w)

abbrev pub stop : Text → Written → Option Text × Written
stop e w = (some e, w)

module _ (path_match : Text → Text → Bool) (patterns : List Text) (skip_symlinks : Bool) where
  unfoldable pub excluded : Text → Bool
  unfolding trim_slash
  excluded rel =
      any (λ p. path_match (trim_slash p) rel || path_match (trim_slash p) (base rel)) patterns

  module _ (out : TarWriter) where
    -- What the walk writes for an entry itself, with the error that ends it.
    unfoldable pub write_entry : Text → Node → Written → Option Text × Written
    write_entry rel (file n) w = and_then (put_header out (header_of rel n []) w) (copy_file out n)
    write_entry rel (symlink target) w =
        if skip_symlinks then (none, w) else put_header out (header_of rel 0 target) w
    write_entry rel special w = (none, w)
    write_entry rel (dir cs) w = put_header out (header_of (rel ++ b'/' ∷ []) 0 []) w
    write_entry rel (vanished e) w = (some e, w)
    write_entry rel (unlisted e) w =
        and_then (put_header out (header_of (rel ++ b'/' ∷ []) 0 []) w) (stop e)
    write_entry rel (unresolved e) w = if skip_symlinks then (none, w) else (some e, w)
    write_entry rel (unopened n e) w = and_then (put_header out (header_of rel n []) w) (stop e)
    write_entry rel (unread n e) w = and_then (put_header out (header_of rel n []) w) (stop e)

    -- The callback of the walk at an entry, and what follows below it. An excluded directory is not
    -- entered.
    unfoldable mutual
      pub walk : Text → Node → Written → Option Text × Written
      walk rel (dir cs) w =
          let below = walk_children rel cs in
          if excluded rel then (none, w) else and_then (write_entry rel (dir cs) w) below
      walk rel (file n) w = if excluded rel then (none, w) else write_entry rel (file n) w
      walk rel (symlink t) w = if excluded rel then (none, w) else write_entry rel (symlink t) w
      walk rel special w = if excluded rel then (none, w) else write_entry rel special w
      walk rel (vanished e) w = if excluded rel then (none, w) else write_entry rel (vanished e) w
      walk rel (unlisted e) w = if excluded rel then (none, w) else write_entry rel (unlisted e) w
      walk rel (unresolved e) w =
          if excluded rel then (none, w) else write_entry rel (unresolved e) w
      walk rel (unopened n e) w =
          if excluded rel then (none, w) else write_entry rel (unopened n e) w
      walk rel (unread n e) w = if excluded rel then (none, w) else write_entry rel (unread n e) w

      pub walk_children : Text → Children → Written → Option Text × Written
      walk_children up nil w = (none, w)
      walk_children up (child name node cs) w =
          and_then (walk (relative up name) node w) (walk_children up cs)

    -- The root itself is not written; it may not be examined or listed.
    abbrev pub walk_root : Outcome Text Children → Option Text × Written
    walk_root (err e) = (some e, nothing_written)
    walk_root (ok src) = walk_children [] src nothing_written

    unfoldable pub tar_gz :
        Outcome Text Children → Option Text → Option Text → Written × Option Text
    tar_gz src close_tar close_gzip = close_writers close_tar close_gzip (walk_root src)
