-- ===== src/Modes/Kept.antt =====
-- What the listings and the removals of the modes do on a disk as documented.
use backitup.Prelude.{
  ℕ, ◌≡◌, ◌≢◌, refl, sym, subst, ◌∙◌, Bool, true, false, List, [], ◌∷◌, Text, Outcome, ok, err,
  Option, All, arith, ◌==◌, nat_eq, text_eq, Bool-cases, inl, inr, codes,
}
use backitup.FilePath.{join, is_name}
use backitup.Lifecycle.{Snapshot}
use backitup.Modes.{DirEntry, Disk, DirError, not_exist, refused, Documented, has_entry, named}
use backitup.Modes.Targz
use backitup.Modes.Targz.{list_archives, in_list, archive_of}
use backitup.Modes.Rsync
use backitup.Modes.Rsync.{snapshots_dir, latest, list_snapshots, snapshot_of}
use backitup.Modes.Platform.{entries_of}
use backitup.FilePath.Joins.{join_ne, join_below}
use backitup.Modes.Listed.{
  IsNamed, archives-IsNamed, snapshots-IsNamed, known_entries-IsName, nameless,
}

module _ (D : Disk) (L : Documented D) where
  has_entry_nil : (dir : Text) (s : D.State) → has_entry D dir [] s ≡ false
  has_entry_nil dir s = by_read (D.read_dir dir s) refl
    where
      by_read : (r : Outcome DirError (List DirEntry)) → D.read_dir dir s ≡ r → named [] r ≡ false
      by_read (ok es) q = nameless es (L.read_dir-IsName dir s q)
      by_read (err e) q = refl

  pub targz-IsNamed :
      (dir : Text) (s : D.State) (xs : List Snapshot) → Targz.list D dir s ≡ ok xs → All IsNamed xs
  unfolding Targz.list
  targz-IsNamed dir s xs h = by_read (D.read_dir dir s) refl h
    where
      by_read :
          (r : Outcome DirError (List DirEntry))
          → D.read_dir dir s ≡ r
          → Targz.listing r ≡ ok xs
          → All IsNamed xs
      by_read (ok es) q e = archives-IsNamed es xs (L.read_dir-IsName dir s q) e
      by_read (err not_exist) q e = let same : [] ≡ xs = cc in subst (All IsNamed) same tt
      by_read (err (refused x)) q e = absurd (ground (arith, e))

  pub rsync-IsNamed :
      (parse_time : Text → Option ℕ) (dir : Text) (s : D.State) (xs : List Snapshot)
      → Rsync.list parse_time D dir s ≡ ok xs
      → All IsNamed xs
  unfolding Rsync.list
  rsync-IsNamed parse_time dir s xs h = by_read (D.read_dir (snapshots_dir dir) s) refl h
    where
      by_read :
          (r : Outcome DirError (List DirEntry))
          → D.read_dir (snapshots_dir dir) s ≡ r
          → Rsync.listing parse_time r ≡ ok xs
          → All IsNamed xs
      by_read (ok es) q e =
          snapshots-IsNamed parse_time es xs (L.read_dir-IsName (snapshots_dir dir) s q) e
      by_read (err not_exist) q e = let same : [] ≡ xs = cc in subst (All IsNamed) same tt
      by_read (err (refused x)) q e = absurd (ground (arith, e))

  -- A removal of a file in the client's directory, and the deletion of a snapshot.
  pub targz-remove :
      (dir i j : Text) (s : D.State)
      → is_name i ≡ true
      → i ≢ j
      → has_entry D dir j (D.remove (join dir i) s).1 ≡ has_entry D dir j s
  targz-remove dir i j s v n = L.has_entry-remove (join dir i) dir j s (join_ne dir i j v n)

  pub rsync-remove :
      (dir i j : Text) (s : D.State)
      → is_name i ≡ true
      → has_entry D (snapshots_dir dir) j (D.remove (join dir i) s).1
        ≡ has_entry D (snapshots_dir dir) j s
  rsync-remove dir i [] s v =
      has_entry_nil (snapshots_dir dir) (D.remove (join dir i) s).1
      ∙ sym (has_entry_nil (snapshots_dir dir) s)
  rsync-remove dir i (c ∷ cs) s v =
      L.has_entry-remove (join dir i) (snapshots_dir dir) (c ∷ cs) s
        (join_below dir i (codes "snapshots") (c ∷ cs) v (λ h. cc) (λ h. cc))

  pub rsync-delete :
      (m : Text → Text → Bool) (dir i j : Text) (s : D.State)
      → is_name i ≡ true
      → i ≢ j
      → has_entry D (snapshots_dir dir) j (Rsync.delete_snapshot D m dir i s).1
        ≡ has_entry D (snapshots_dir dir) j s
  unfolding Rsync.delete_snapshot
  rsync-delete m dir i j s v n =
      elim (Bool-cases (Rsync.target (D.readlink (join (snapshots_dir dir) latest) s) == i)) [
        | inl e ↦ rw e refl
        | inr e ↦ rw e (L.has_entry-remove_all (snapshots_dir dir) i j s v n)
      ]

  pub entries-IsName :
      (dir : Text) (s : D.State) → All (λ e. is_name e.name ≡ true) (entries_of (D.read_dir dir s))
  entries-IsName dir s = by_read (D.read_dir dir s) refl
    where
      by_read :
          (r : Outcome DirError (List DirEntry))
          → D.read_dir dir s ≡ r
          → All (λ e. is_name e.name ≡ true) (entries_of r)
      by_read (ok es) q = known_entries-IsName es (L.read_dir-IsName dir s q)
      by_read (err e) q = tt
