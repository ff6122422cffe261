-- ===== src/Tests/Memory.antt =====
-- A disk and remotes in memory, which behave as documented.
use backitup.Prelude.{
  ◌≡◌, ◌≢◌, refl, ap, true, false, ◌&&◌, ◌||◌, not, List, [], ◌∷◌, Text, Outcome, ok, err, none,
  All, any, select, append_cancel, subst, arith, ◌==◌, ==_refl, text_eq, nat_eq, Bool-cases, inl,
  inr, codes, if◌then◌else◌,
}
use backitup.Prelude.Rows.{any-select}
use backitup.FilePath.{join, is_name}
use backitup.FilePath.Joins.{join_ne}
use backitup.Archive.{nil, TarWriter}
use backitup.Modes.{DirEntry, Disk, Documented}
use backitup.Modes.Rclone.{Cloud, DocumentedCloud, full_args, object_at, copyto, deletefile}

pub record Placed : Type 0 where
  pub dir : Text
  pub entry : DirEntry

abbrev pub entries_at : Text → List Placed → List DirEntry
entries_at dir [] = []
entries_at dir (p ∷ ps) =
    let rest = entries_at dir ps in
    if p.dir == dir && is_name p.entry.name then p.entry ∷ rest else rest

abbrev pub without : Text → List Placed → List Placed
without path ps = select (λ p. not (join p.dir p.entry.name == path)) ps

-- Writers that take everything.
abbrev pub accepting : TarWriter
accepting = record { header_error = λ h w. none; copy_error = λ n w. none }

abbrev pub memory : Disk
memory = record {
  State = List Placed;
  read_dir = λ dir s. ok (entries_at dir s);
  readlink = λ path s. none;
  remove = λ path s. (ok tt, without path s);
  remove_all = λ path s. (ok tt, without path s);
  stat_size = λ path s. ok 1;
  checksum = λ path s. ok path;
  create_temp = λ s. (ok (codes "/tmp/t"), s);
  tree = λ path s. ok nil;
  tar_writer = λ s. accepting;
  write_archive = λ path w s. s;
  close_tar = λ s. none;
  close_gzip = λ s. none;
  close_file = λ path s. none;
}

pub entries_at-IsName :
    (dir : Text) (ps : List Placed) → All (λ e. is_name e.name ≡ true) (entries_at dir ps)
entries_at-IsName dir [] = tt
entries_at-IsName dir (p ∷ ps) = elim (Bool-cases (p.dir == dir && is_name p.entry.name)) [
  | inl e ↦ rw e (ground (arith, e), entries_at-IsName dir ps)
  | inr e ↦ rw e (entries_at-IsName dir ps)
]

pub has_entry-without :
    (path dir j : Text) (ps : List Placed)
    → path ≢ join dir j
    → any (λ e. e.name == j) (entries_at dir (without path ps))
      ≡ any (λ e. e.name == j) (entries_at dir ps)
has_entry-without path dir j [] n = refl
has_entry-without path dir j (p ∷ ps) n = elim (Bool-cases (join p.dir p.entry.name == path)) [
  | inr e ↦ rw e (elim (Bool-cases (p.dir == dir && is_name p.entry.name)) [
    | inl f ↦ rw f (ap (λ b. p.entry.name == j || b) (has_entry-without path dir j ps n))
    | inr f ↦ rw f (has_entry-without path dir j ps n)
  ])
  | inl e ↦ rw e (elim (Bool-cases (p.dir == dir && is_name p.entry.name)) [
    | inl f ↦ rw f (
        let other : (p.entry.name == j) ≡ false = ground (arith, e, f, n) in
        rw other (has_entry-without path dir j ps n))
    | inr f ↦ rw f (has_entry-without path dir j ps n)
  ])
]

-- The command behind the options.
abbrev pub command : List Text → List Text
command (a ∷ b ∷ c ∷ d ∷ rest) = if c == codes "--config" then rest else c ∷ d ∷ rest
command args = args

abbrev pub run_command : List Text → List Text → Outcome Text Text × List Text
run_command (cmd ∷ path ∷ target ∷ []) s = (ok [], target ∷ s)
run_command (cmd ∷ target ∷ []) s = (ok [], select (λ t. not (t == target)) s)
run_command args s = (err (codes "usage"), s)

abbrev pub remotes : Cloud
remotes = record {
  State = List Text;
  run = λ args s. run_command (command args) s;
  has = λ remote o s. any (λ t. t == object_at remote o) s;
}

pub command-full_args :
    (config a b : Text) (rest : List Text)
    → (a == codes "--config") ≡ false
    → command (full_args config (a ∷ b ∷ rest)) ≡ a ∷ b ∷ rest
unfolding full_args
command-full_args config a b rest h = elim (Bool-cases (config == [])) [
  | inl e ↦ rw (e, h) refl
  | inr e ↦ rw (e, ==_refl (codes "--config")) refl
]

pub memory_laws : Documented memory
memory_laws = record {
  read_dir-IsName = λ dir s {es} e.
      let same : entries_at dir s ≡ es = cc in
      subst (All (λ x. is_name x.name ≡ true)) same (entries_at-IsName dir s);
  has_entry-remove = λ path dir j s n. has_entry-without path dir j s n;
  has_entry-remove_all =
      λ dir i j s v n. has_entry-without (join dir i) dir j s (join_ne dir i j v n);
}

command-copyto :
    (config path remote o : Text)
    → command (copyto config path remote o) ≡ codes "copyto" ∷ path ∷ object_at remote o ∷ []
unfolding text_eq nat_eq
command-copyto config path remote o =
    command-full_args config (codes "copyto") path (object_at remote o ∷ []) refl

command-deletefile :
    (config remote o : Text)
    → command (deletefile config remote o) ≡ codes "deletefile" ∷ object_at remote o ∷ []
unfolding text_eq nat_eq
command-deletefile config remote o =
    command-full_args config (codes "deletefile") (object_at remote o) [] refl

two_objects : (remote o q : Text) → o ≢ q → object_at remote o ≢ object_at remote q
two_objects remote o q n e = n (ap behind (append_cancel remote (b':' ∷ o) (b':' ∷ q) e))
  where
    behind : Text → Text
    behind [] = []
    behind (c ∷ cs) = cs

pub remotes_laws : DocumentedCloud remotes
remotes_laws = record {
  has-copyto = λ config path remote o s e.
      rw (command-copyto config path remote o) (rw (==_refl (object_at remote o)) refl);
  has-copyto_other =
      λ config path r q remote o s h. rw (command-copyto config path r q) (ground (arith, h));
  has-deletefile = λ config remote o q s n. rw (command-deletefile config remote o) (
      any-select (λ t. t == object_at remote q) (λ t. not (t == object_at remote o)) s
        (λ t h. ground (arith, h, two_objects remote o q n)));
}
