-- ===== src/Archive/Walk.antt =====
-- The walk against a plain description: the entries of the tree one after the other, of which those
-- are written that neither are excluded nor lie below an excluded directory.
use backitup.Prelude.{
  ◌≡◌, refl, sym, ap, ◌∙◌, Bool, true, false, ◌||◌, not, List, [], ◌∷◌, ◌++◌, Text, Option, Outcome,
  ok, err, none, some, any, select, arith, Bool-cases, inl, inr, if◌then◌else◌,
}
use backitup.Archive.Entry.{wanted, write_wanted, write_entry_lem, and_then_end, and_then_cong}
use backitup.Archive.{
  Node, file, symlink, special, dir, vanished, unlisted, unresolved, unopened, unread, TarWriter,
  walk_root, Children, nil, child, Written, nothing_written, relative, excluded, write_entry,
  and_then, walk, walk_children, tar_gz, close_writers,
}

-- An entry, with its path and those of the directories above it.
pub record Listed : Type 0 where
  pub rel : Text
  pub above : List Text
  pub node : Node

unfoldable mutual
  pub entries : List Text → Text → Node → List Listed
  entries up rel (dir cs) =
      record { rel = rel; above = up; node = dir cs } ∷ entries_below (rel ∷ up) rel cs
  entries up rel (file n) = record { rel = rel; above = up; node = file n } ∷ []
  entries up rel (symlink t) = record { rel = rel; above = up; node = symlink t } ∷ []
  entries up rel special = record { rel = rel; above = up; node = special } ∷ []
  entries up rel (vanished e) = record { rel = rel; above = up; node = vanished e } ∷ []
  entries up rel (unresolved e) = record { rel = rel; above = up; node = unresolved e } ∷ []
  entries up rel (unopened n e) = record { rel = rel; above = up; node = unopened n e } ∷ []
  entries up rel (unread n e) = record { rel = rel; above = up; node = unread n e } ∷ []
  entries up rel (unlisted e) = record { rel = rel; above = up; node = unlisted e } ∷ []

  pub entries_below : List Text → Text → Children → List Listed
  entries_below up rel nil = []
  entries_below up rel (child name node cs) =
      entries up (relative rel name) node ++ entries_below up rel cs

-- Every entry of a directory, with its paths.
abbrev pub all_entries : Children → List Listed
all_entries src = entries_below [] [] src

select-append {ℓ} :
    {A : Type ℓ} (p : A → Bool) (xs ys : List A) → select p (xs ++ ys) ≡ select p xs ++ select p ys
select-append p [] ys = refl
select-append p (x ∷ xs) ys = ground (arith, select-append p xs ys)

and_then_assoc :
    (r : Option Text × Written) (f g h : Written → Option Text × Written)
    → ((w : Written) → h w ≡ and_then (f w) g)
    → and_then r h ≡ and_then (and_then r f) g
and_then_assoc (none, w) f g h e = e w
and_then_assoc (some x, w) f g h e = refl

module _ (m : Text → Text → Bool) (ps : List Text) (skip : Bool) where
  abbrev pub is_visible : Listed → Bool
  is_visible e = not (excluded m ps skip e.rel || any (excluded m ps skip) e.above)

  -- Nothing below an excluded directory is visible.
  mutual
    unfolding entries

    entries_hidden :
        (up : List Text) (rel : Text) (node : Node)
        → any (excluded m ps skip) up ≡ true
        → select is_visible (entries up rel node) ≡ []
    entries_hidden up rel (dir cs) h =
        ground (arith, h, below_hidden (rel ∷ up) rel cs (ground (arith, h)))
    entries_hidden up rel (file n) h = ground (arith, h)
    entries_hidden up rel (symlink t) h = ground (arith, h)
    entries_hidden up rel special h = ground (arith, h)
    entries_hidden up rel (vanished e) h = ground (arith, h)
    entries_hidden up rel (unresolved e) h = ground (arith, h)
    entries_hidden up rel (unopened n e) h = ground (arith, h)
    entries_hidden up rel (unread n e) h = ground (arith, h)
    entries_hidden up rel (unlisted e) h = ground (arith, h)

    below_hidden :
        (up : List Text) (rel : Text) (cs : Children)
        → any (excluded m ps skip) up ≡ true
        → select is_visible (entries_below up rel cs) ≡ []
    below_hidden up rel nil h = refl
    below_hidden up rel (child name node cs) h =
        rw
          (
            select-append is_visible (entries up (relative rel name) node)
                (entries_below up rel cs),
            entries_hidden up (relative rel name) node h,
            below_hidden up rel cs h,
          )
          refl

  module _ (out : TarWriter) where
    -- Writes what entries ask for, until something is refused.
    unfoldable pub write_all : List Listed → Written → Option Text × Written
    write_all [] w = (none, w)
    write_all (e ∷ es) w = and_then (write_wanted out (wanted skip e.rel e.node) w) (write_all es)

    write_all-append :
        (xs ys : List Listed) (w : Written)
        → write_all (xs ++ ys) w ≡ and_then (write_all xs w) (write_all ys)
    unfolding write_all
    write_all-append [] ys w = refl
    write_all-append (e ∷ es) ys w =
        and_then_assoc (write_wanted out (wanted skip e.rel e.node) w) (write_all es) (write_all ys)
          (write_all (es ++ ys)) (write_all-append es ys)

    leaf_visible :
        (e : Listed) (w : Written)
        → any (excluded m ps skip) e.above ≡ false
        → (if excluded m ps skip e.rel then (none, w) else write_entry m ps skip out e.rel e.node w)
          ≡ write_all (select is_visible (e ∷ [])) w
    unfolding write_all
    leaf_visible e w h = elim (Bool-cases (excluded m ps skip e.rel)) [
      | inl x ↦ rw x refl
      | inr x ↦ rw (x, h) (write_entry_lem m ps skip out e.rel e.node w ∙ sym (and_then_end _))
    ]

    mutual
      unfolding walk entries write_all

      walk-eq-write_all :
          (up : List Text) (rel : Text) (node : Node) (w : Written)
          → any (excluded m ps skip) up ≡ false
          → walk m ps skip out rel node w ≡ write_all (select is_visible (entries up rel node)) w
      walk-eq-write_all up rel (dir cs) w h = elim (Bool-cases (excluded m ps skip rel)) [
        | inl x ↦ rw (x, below_hidden (rel ∷ up) rel cs (rw x refl)) refl
        | inr x ↦
            rw (x, h)
              (and_then_cong (write_entry m ps skip out rel (dir cs) w)
                (write_wanted out (wanted skip rel (dir cs)) w) (walk_children m ps skip out rel cs)
                (write_all (select is_visible (entries_below (rel ∷ up) rel cs)))
                (write_entry_lem m ps skip out rel (dir cs) w)
                (λ w'. walk_children-eq-write_all (rel ∷ up) rel cs w' (rw (x, h) refl)))
      ]
      walk-eq-write_all up rel (file n) w h =
          leaf_visible (record { rel = rel; above = up; node = file n }) w h
      walk-eq-write_all up rel (symlink t) w h =
          leaf_visible (record { rel = rel; above = up; node = symlink t }) w h
      walk-eq-write_all up rel special w h =
          leaf_visible (record { rel = rel; above = up; node = special }) w h
      walk-eq-write_all up rel (vanished e) w h =
          leaf_visible (record { rel = rel; above = up; node = vanished e }) w h
      walk-eq-write_all up rel (unresolved e) w h =
          leaf_visible (record { rel = rel; above = up; node = unresolved e }) w h
      walk-eq-write_all up rel (unopened n e) w h =
          leaf_visible (record { rel = rel; above = up; node = unopened n e }) w h
      walk-eq-write_all up rel (unread n e) w h =
          leaf_visible (record { rel = rel; above = up; node = unread n e }) w h
      walk-eq-write_all up rel (unlisted e) w h =
          leaf_visible (record { rel = rel; above = up; node = unlisted e }) w h

      walk_children-eq-write_all :
          (up : List Text) (rel : Text) (cs : Children) (w : Written)
          → any (excluded m ps skip) up ≡ false
          → walk_children m ps skip out rel cs w
            ≡ write_all (select is_visible (entries_below up rel cs)) w
      walk_children-eq-write_all up rel nil w h = refl
      walk_children-eq-write_all up rel (child name node cs) w h =
          and_then_cong _ _ _ _ (walk-eq-write_all up (relative rel name) node w h)
            (λ w'. walk_children-eq-write_all up rel cs w' h)
          ∙ sym (
              write_all-append (select is_visible (entries up (relative rel name) node))
                (select is_visible (entries_below up rel cs)) w)
          ∙ ap (λ es. write_all es w)
              (sym (
                select-append is_visible (entries up (relative rel name) node)
                  (entries_below up rel cs)))

    -- What a plain writing of a directory gives, which may not be examined or listed.
    abbrev pub write_root : Outcome Text Children → Option Text × Written
    write_root (err e) = (some e, nothing_written)
    write_root (ok src) = write_all (select is_visible (all_entries src)) nothing_written

    walk_root-eq-write_root :
        (src : Outcome Text Children) → walk_root m ps skip out src ≡ write_root src
    walk_root-eq-write_root (err e) = refl
    walk_root-eq-write_root (ok src) = walk_children-eq-write_all [] [] src nothing_written refl

-- For every directory, an archive is what its visible entries ask for, one after the other in the order
-- of the tree, up to the first thing that the disk or the writers refuse: those that match no pattern by
-- their path or their name, and lie below no directory that does. A file asks for its header and its
-- bytes, a directory for its header, a symbolic link, unless they are skipped, for its header with its
-- target, and a special file for nothing.
pub tar_gz-eq-write_all :
    (path_match : Text → Text → Bool) (patterns : List Text) (skip_symlinks : Bool)
    (out : TarWriter) (src : Outcome Text Children) (close_tar close_gzip : Option Text)
    → tar_gz path_match patterns skip_symlinks out src close_tar close_gzip
      ≡ close_writers close_tar close_gzip (write_root path_match patterns skip_symlinks out src)
unfolding tar_gz
tar_gz-eq-write_all m ps skip out src t g =
    ap (close_writers t g) (walk_root-eq-write_root m ps skip out src)
