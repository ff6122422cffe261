-- ===== src/Lifecycle/Prune/Hot.antt =====
-- Which snapshots a pass may take from the disk.
use backitup.Prelude.{
  ◌≡◌, refl, ◌∙◌, Bool, true, false, List, [], ◌∷◌, Text, All, if◌then◌else◌, ◌==◌, nat_eq,
  Bool-cases, inl, inr,
}
use backitup.FilePath.{is_name}
use backitup.Model.{Client}
use backitup.Lifecycle.{Platform, Snapshot, Deps, client_dir}
use backitup.Lifecycle.Observed.{Observed}
use backitup.Lifecycle.Prune.{is_prunable, prune_snapshots, prune_hot, behind_first}

All-behind_first {ℓ κ} :
    {A : Type ℓ} (Q : A → Type κ) (xs : List A) → All Q xs → All Q (behind_first xs)
All-behind_first Q [] h = tt
All-behind_first Q (x ∷ xs) h = h.1

module _ (P : Platform) (L : Observed P) (d : Deps) (c : Client) where
  prune_snapshots-present :
      (on : Bool) (done : List Text) (xs : List Snapshot) (i : Text) (s : P.State)
      → All (λ x. is_name x.id ≡ true) xs
      → All (λ x. x.id ≡ i → is_prunable d c on done x ≡ false) xs
      → L.present c.mode (client_dir d c) i (prune_snapshots P d c on done xs s)
        ≡ L.present c.mode (client_dir d c) i s
  unfolding prune_snapshots
  prune_snapshots-present on done [] i s n h = refl
  prune_snapshots-present on done (x ∷ xs) i s n h =
      prune_snapshots-present on done xs i _ n.1 h.1 ∙ step
    where
      step :
          L.present c.mode (client_dir d c) i (
            if is_prunable d c on done x
            then (P.delete_snapshot c.mode (client_dir d c) x.id s).1
            else s)
          ≡ L.present c.mode (client_dir d c) i s
      step = elim (Bool-cases (is_prunable d c on done x)) [
        | inl taken ↦
            rw taken
              (L.present-delete_snapshot c.mode (client_dir d c) x.id i s n.0 (λ e. cc (h.0 e)))
        | inr kept ↦ rw kept
      ]

  -- A snapshot stays on disk if it is the newest, or if none of the others with its id is outside
  -- the hot horizon and, with offsite on, recorded as uploaded.
  pub prune_hot-present :
      (on : Bool) (done : List Text) (snaps : List Snapshot) (i : Text) (s : P.State)
      → All (λ x. is_name x.id ≡ true) snaps
      → All (λ x. x.id ≡ i → is_prunable d c on done x ≡ false) (behind_first snaps)
      → L.present c.mode (client_dir d c) i (prune_hot P d c on done snaps s)
        ≡ L.present c.mode (client_dir d c) i s
  unfolding prune_hot
  prune_hot-present on done snaps i s n h = elim (Bool-cases (c.retention_days == 0)) [
    | inl off ↦ rw off
    | inr days ↦ rw days (
        prune_snapshots-present on done (behind_first snaps) i s
          (All-behind_first (λ x. is_name x.id ≡ true) snaps n) h)
  ]
