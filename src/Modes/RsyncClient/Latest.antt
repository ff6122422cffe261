-- ===== src/Modes/RsyncClient/Latest.antt =====
-- When the link on the server is moved.
use backitup.Prelude.{
  ℕ, ◌≡◌, ◌≢◌, refl, sym, ap, ◌∙◌, ◌⊎◌, inl, inr, Bool, true, false, List, ◌++◌, Text, Outcome, ok,
  err, Option, none, some, trim_space, text_eq, arith, codes, Bool-cases, Outcome-cases,
  Option-cases,
}
use backitup.FilePath.{join}
use backitup.Uploader.{BackupOpts, BackupResult}
use backitup.Modes.RsyncClient.{
  Process, host_key_options, ssh_options, ssh_transport, sync_args, flip_args, run_rsync, output_of,
  done, linked, staged, flip_latest, flipped, synced, backup, join_space,
}

module _ (env : Text → Text) (P : Process) where
  -- What the client relies on: rsync writes below its destination alone, a copy that ends without an
  -- error is complete, and a link is copied whole or not at all. The link on the server and the
  -- snapshots there that are complete; a link on the client.
  pub record Documented (o : BackupOpts) (host snap : Text) : Type 0 where
    pub latest : P.State → Option Text
    pub complete : Text → P.State → Bool
    pub link : Text → P.State → Option Text
    pub link-symlink :
        (t path : Text) (s : P.State)
        → (P.symlink t path s).0 ≡ ok tt
        → link path (P.symlink t path s).1 ≡ some t
    pub latest-mkdir_temp : (s : P.State) → latest (P.mkdir_temp s).1 ≡ latest s
    pub latest-symlink : (t path : Text) (s : P.State) → latest (P.symlink t path s).1 ≡ latest s
    pub latest-remove_all : (path : Text) (s : P.State) → latest (P.remove_all path s) ≡ latest s
    pub complete-mkdir_temp :
        (j : Text) (s : P.State) → complete j (P.mkdir_temp s).1 ≡ complete j s
    pub complete-symlink :
        (j t path : Text) (s : P.State) → complete j (P.symlink t path s).1 ≡ complete j s
    pub complete-remove_all :
        (j path : Text) (s : P.State) → complete j (P.remove_all path s) ≡ complete j s
    pub latest-sync :
        (ssh : Text) (s : P.State) → latest (P.run (sync_args env o host ssh snap) s).1 ≡ latest s
    pub complete-sync :
        (ssh : Text) (s : P.State)
        → (P.run (sync_args env o host ssh snap) s).0.0 ≡ false
        → complete snap (P.run (sync_args env o host ssh snap) s).1 ≡ true
    pub complete-sync_other :
        (ssh j : Text) (s : P.State)
        → snap ≢ j
        → complete j (P.run (sync_args env o host ssh snap) s).1 ≡ complete j s
    pub complete-flip :
        (ssh path j : Text) (s : P.State)
        → complete j (P.run (flip_args o host ssh path) s).1 ≡ complete j s
    pub latest-flip :
        (ssh path : Text) (s : P.State)
        → (P.run (flip_args o host ssh path) s).0.0 ≡ false
        → latest (P.run (flip_args o host ssh path) s).1 ≡ link path s
    pub latest-flip_failed :
        (ssh path : Text) (s : P.State)
        → (latest (P.run (flip_args o host ssh path) s).1 ≡ latest s)
          ⊎ (latest (P.run (flip_args o host ssh path) s).1 ≡ link path s)

module _ (env : Text → Text) (P : Process) (o : BackupOpts) (host snap : Text)
    (L : Documented env P o host snap) where
  -- The snapshot that the link is of is complete.
  abbrev complete_at : Option Text → P.State → Bool
  complete_at none s = true
  complete_at (some j) s = L.complete j s

  abbrev is_usable : P.State → Bool
  is_usable s = complete_at (L.latest s) s

  -- How a move of the link ends.
  abbrev Ended : P.State → Outcome Text (Unit {0}) × P.State → Type 0
  Ended s (r, s') =
      ((j : Text) → L.complete j s' ≡ L.complete j s)
      × ((L.latest s' ≡ some snap) ⊎ ((L.latest s' ≡ L.latest s) × ((e : Text) × (r ≡ err e))))

  -- What holds behind a backup: the link is of a complete snapshot, and, where there was no error,
  -- of the one that the result names.
  abbrev pub Flipped : BackupResult × P.State → Type 0
  Flipped (r, s') =
      (is_usable s' ≡ true)
      × ((r.failed ≡ true) ⊎ ((L.latest s' ≡ some r.snapshot_id) × (r.snapshot_id ≡ snap)))

  failed_run : (r : Bool × Text × Text) → r.0 ≡ true → (e : Text) × (done (output_of P r) ≡ err e)
  failed_run (true, out, errors) h = (trim_space errors, refl)
  failed_run (false, out, errors) h = absurd cc

  module _ (ssh : Text) where
    run_flip :
        (path : Text) (s : P.State)
        → L.link path s ≡ some snap
        → Ended s (let (r, s') = run_rsync P (flip_args o host ssh path) s in (done r, s'))
    unfolding run_rsync
    run_flip path s h = (
      λ j. L.complete-flip ssh path j s,
      elim (Bool-cases (P.run (flip_args o host ssh path) s).0.0) [
        | inl f ↦ elim (L.latest-flip_failed ssh path s) [
          | inl q ↦ inr (q, failed_run (P.run (flip_args o host ssh path) s).0 f)
          | inr q ↦ inl (q ∙ h)
        ]
        | inr f ↦ inl (L.latest-flip ssh path s f ∙ h)
      ],
    )

    linked-Ended :
        (stage : Text) (s : P.State) (m : Outcome Text (Unit {0}) × P.State)
        → (m.0 ≡ ok tt → L.link (join stage (codes "latest")) m.1 ≡ some snap)
        → L.latest m.1 ≡ L.latest s
        → ((j : Text) → L.complete j m.1 ≡ L.complete j s)
        → Ended s (linked P o host ssh snap stage m)
    linked-Ended stage s (err e, s1) link l c = (c, inr (l, (e, refl)))
    linked-Ended stage s (ok _, s1) link l c =
        let (c', l') = run_flip (join stage (codes "latest")) s1 (link refl) in
        (λ j. c' j ∙ c j, elim l' [ inl q ↦ inl q | inr (q, f) ↦ inr (q ∙ l, f) ])

    staged-Ended :
        (s : P.State) (m : Outcome Text Text × P.State)
        → L.latest m.1 ≡ L.latest s
        → ((j : Text) → L.complete j m.1 ≡ L.complete j s)
        → Ended s (staged P o host ssh snap m)
    staged-Ended s (err e, s1) l c = (c, inr (l, (e, refl)))
    staged-Ended s (ok stage, s1) l c =
        let path = join stage (codes "latest") in
        let m = P.symlink snap path s1 in
        let (c', l') =
          linked-Ended stage s1 m (L.link-symlink snap path s1) (L.latest-symlink snap path s1)
            (λ j. L.complete-symlink j snap path s1) in
        let s3 = (linked P o host ssh snap stage m).1 in
        (
          λ j. L.complete-remove_all j stage s3 ∙ c' j ∙ c j,
          elim l' [
            | inl q ↦ inl (L.latest-remove_all stage s3 ∙ q)
            | inr (q, f) ↦ inr (L.latest-remove_all stage s3 ∙ q ∙ l, f)
          ],
        )

    flip_latest-Ended : (s : P.State) → Ended s (flip_latest P o host ssh snap s)
    unfolding flip_latest
    flip_latest-Ended s =
        staged-Ended s (P.mkdir_temp s) (L.latest-mkdir_temp s) (λ j. L.complete-mkdir_temp j s)

    still_usable :
        (s : P.State) (m : Outcome Text (Unit {0}) × P.State)
        → L.complete snap s ≡ true
        → is_usable s ≡ true
        → Ended s m
        → is_usable m.1 ≡ true
    still_usable s m done u (c, l) = elim l [
      | inl q ↦ rw q (c snap ∙ done)
      | inr (q, f) ↦ rw q (same (L.latest s) ∙ u)
    ]
      where
        same : (x : Option Text) → complete_at x m.1 ≡ complete_at x s
        same none = refl
        same (some j) = c j

    flipped-Flipped :
        (started ended : ℕ) (out : Text) (s : P.State) (m : Outcome Text (Unit {0}) × P.State)
        → L.complete snap s ≡ true
        → is_usable s ≡ true
        → Ended s m
        → Flipped (flipped P o host ssh snap started ended out m)
    flipped-Flipped started ended out s (err e, s') done u h =
        (still_usable s (err e, s') done u h, inl refl)
    flipped-Flipped started ended out s (ok _, s') done u (c, l) = (
      still_usable s (ok tt, s') done u (c, l),
      elim l [ inl q ↦ inr (q, refl) | inr (q, (e, f)) ↦ absurd (ground (arith, f)) ],
    )

    ran : (r : Bool × Text × Text) {out : Text} → output_of P r ≡ ok out → r.0 ≡ false
    ran (true, out, errors) h = absurd (ground (arith, h))
    ran (false, out, errors) h = refl

    -- The copy leaves what the link is of.
    synced-Flipped :
        (started ended : ℕ) (s : P.State)
        → L.latest s ≢ some snap
        → is_usable s ≡ true
        → Flipped
            (synced P o host ssh snap started ended (run_rsync P (sync_args env o host ssh snap) s))
    unfolding run_rsync
    synced-Flipped started ended s fresh u =
        let args : List Text = sync_args env o host ssh snap in
        let s1 = (P.run args s).1 in
        let kept : is_usable s1 ≡ true = rw (L.latest-sync ssh s) (same (L.latest s) fresh ∙ u) in
        elim (Outcome-cases (output_of P (P.run args s).0)) [
          | inl (out, q) ↦ rw q (
              flipped-Flipped started ended out s1 (flip_latest P o host ssh snap s1)
                (L.complete-sync ssh s (ran (P.run args s).0 q)) kept (flip_latest-Ended s1))
          | inr (e, q) ↦ rw q (kept, inl refl)
        ]
      where
        same :
            (x : Option Text)
            → x ≢ some snap
            → complete_at x (P.run (sync_args env o host ssh snap) s).1 ≡ complete_at x s
        same none n = refl
        same (some j) n = L.complete-sync_other ssh j s (λ e. n (ap some (sym e)))

  -- With a process as documented, where the address of the server has this host, and the link is of a
  -- complete snapshot, or there is none, but not of one of this name, a backup leaves the link of a
  -- complete snapshot, or none, whatever fails; and it returns an error, or its result names the new
  -- snapshot and the link is of that.
  pub backup-Flipped :
      (split_host_port : Text → Option (Text × Text)) (started ended : ℕ) (s : P.State)
      {port : Text}
      → split_host_port o.ssh_server ≡ some (host, port)
      → L.latest s ≢ some snap
      → is_usable s ≡ true
      → Flipped (backup P split_host_port env o snap started ended s)
  unfolding backup ssh_transport
  backup-Flipped split_host_port started ended s {port} q fresh u =
      elim (Bool-cases (P.look_path s)) [
        | inr n ↦ rw n (u, inl refl)
        | inl y ↦ elim (Option-cases (host_key_options split_host_port env o)) [
          | inl k ↦ rw (y, q, k) (u, inl refl)
          | inr (keys, k) ↦
              rw (y, q, k)
                (synced-Flipped (join_space (ssh_options split_host_port env o port ++ keys))
                  started ended s fresh u)
        ]
      ]
