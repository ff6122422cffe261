-- ===== src/Lifecycle/Prune/Kept.antt =====
-- What the prunings of partial uploads and of the remote leave on the disk.
use backitup.Prelude.{
  ℕ, ◌≡◌, ap, ◌||◌, ◌∙◌, Bool, true, not, List, [], ◌∷◌, Text, All, ok, none, some, arith,
  Bool-cases, codes, ◌==◌, nat_eq, inl, inr,
}
use backitup.FilePath.{is_name}
use backitup.Model.{Client, OffsiteObject}
use backitup.Lifecycle.{Platform, Entry, Deps, client_dir, tool, database, pruned}
use backitup.Lifecycle.Observed.{Observed}
use backitup.Lifecycle.Keeps.{
  Keeps, Keeps-return, Keeps-exec, Keeps-query, Keeps-alert, Keeps-act, Keeps-change, Keeps-if,
  Keeps-bind, Keeps-attempt,
}
use backitup.Lifecycle.Prune.{
  has_suffix, is_orphan, remove_orphans, prune_part_orphans, prune_objects, prune_offsite, is_older,
}
use backitup.Store.Objects.{delete_offsite_object}
use backitup.Lifecycle.Naming.{offsite_dir, object_path}

-- An id that is not the name of a partial upload.
abbrev pub is_whole : Text → Bool
is_whole i = not (has_suffix i (codes ".tar.gz.part"))

is_orphan-has_suffix :
    (age now : ℕ) (e : Entry)
    → is_orphan age now e ≡ true
    → has_suffix e.name (codes ".tar.gz.part") ≡ true
unfolding is_orphan
is_orphan-has_suffix age now e h = ground arith

module _ (P : Platform) (L : Observed P) (d : Deps) (c : Client) (i : Text) where
  -- The snapshot is in the client's directory.
  abbrev pub Present : P.State → Type 0
  Present s = L.present c.mode (client_dir d c) i s ≡ true

  remove_orphans-Present :
      (es : List Entry) (s : P.State)
      → All (λ e. is_name e.name ≡ true) es
      → is_whole i ≡ true
      → Present s
      → Present (remove_orphans P d c es s)
  unfolding remove_orphans
  remove_orphans-Present [] s named whole h = h
  remove_orphans-Present (e ∷ es) s named whole h =
      remove_orphans-Present es _ named.1 whole
        (elim (Bool-cases (is_orphan d.part_orphan_age d.now e)) [
          | inl orphan ↦
              let part = is_orphan-has_suffix d.part_orphan_age d.now e orphan in
              rw orphan (
                L.present-remove_file c.mode (client_dir d c) e.name i s named.0
                  (λ q. ground (arith, ap is_whole q))
                ∙ h)
          | inr kept ↦ rw kept h
        ])

  pub prune_part_orphans-Keeps : is_whole i ≡ true → Keeps P Present (prune_part_orphans P d c)
  unfolding prune_part_orphans
  prune_part_orphans-Keeps whole = Keeps-change _ λ s h.
      remove_orphans-Present (P.read_dir (client_dir d c) s) s
        (L.read_dir-IsName (client_dir d c) s) whole h

  prune_objects-Keeps : (os : List OffsiteObject) → Keeps P Present (prune_objects P d c os)
  unfolding prune_objects
  prune_objects-Keeps [] = Keeps-return none
  prune_objects-Keeps (o ∷ os) =
      Keeps-if (not (is_older c.offsite_retention_days d.now o.uploaded_at)) _ _
        (prune_objects-Keeps os)
        (Keeps-attempt {E = Text} {A = Unit {0}} _ _ _
          (Keeps-act
            (P.delete_object c.offsite_remote (object_path (offsite_dir c) c.mode o.snapshot_id))
            λ s h.
              L.present-delete_object c.offsite_remote
                (object_path (offsite_dir c) c.mode o.snapshot_id) c.mode (client_dir d c) i s
              ∙ h)
          (λ e. Keeps-return (some (tool e)))
          (λ _. Keeps-bind _ _ (Keeps-alert d.has_webhook (pruned c.id o.snapshot_id)) λ _.
            Keeps-attempt {A = Unit {0}} _ _ _
              (Keeps-exec
                (λ db. (ok tt, delete_offsite_object c.id o.snapshot_id c.offsite_remote db)))
              (λ e. Keeps-return (some (database e))) (λ _. prune_objects-Keeps os)))

  pub prune_offsite-Keeps : Keeps P Present (prune_offsite P d c)
  unfolding prune_offsite
  prune_offsite-Keeps =
      Keeps-if (c.disable_offsite_pruning || c.offsite_retention_days == 0) _ _ (Keeps-return none)
        (Keeps-attempt _ _ _ (Keeps-query _) (λ e. Keeps-return _) (λ objs. prune_objects-Keeps _))
