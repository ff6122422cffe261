-- ===== src/Lifecycle/Pass/Safety.antt =====
-- What a maintenance pass over one client leaves on the disk.
use backitup.Prelude.{
  ℕ, ◌+◌, ◌*◌, ◌≤◌, ◌≡◌, ◌≢◌, sym, ◌∙◌, ap, true, false, List, [], ◌∷◌, Text, ok, Option, none,
  some, All, sort_by, sort_by-All, arith, nat_eq, text_eq,
}
use backitup.Prelude.Rows.{DistinctBy, All-mono}
use backitup.Store.Runs.{prune_runs}
use backitup.FilePath.{is_name}
use backitup.Model.{Client}
use backitup.Lifecycle.{Platform, Snapshot, Failure, Deps, World, client_dir, return, database}
use backitup.Lifecycle.Observed.{Observed}
use backitup.Lifecycle.Keeps.{
  Keeps, Keeps-return, Keeps-exec, Keeps-change, Keeps-if, Keeps-bind, Keeps-attempt,
}
use backitup.Lifecycle.Upload.{contains, newest_first, offsited_set}
use backitup.Lifecycle.Prune.{is_prunable, is_older, behind_first, prune_hot}
use backitup.Clock.{day}
use backitup.Lifecycle.Prune.Horizon.{max_days, is_older_within}
use backitup.Lifecycle.Prune.Kept.{is_whole, Present, prune_part_orphans-Keeps, prune_offsite-Keeps}
use backitup.Lifecycle.Prune.Hot.{prune_hot-present}
use backitup.Lifecycle.Upload.Loading.{load_snapshots-sys}
use backitup.Lifecycle.Verify.Kept.{verify_offsite_objects-Keeps, check_stale_alert-Keeps}
use backitup.Lifecycle.Pass.{process_client, finish_client, process_listed, offsite_on, keep_days}

module _ (P : Platform) (L : Observed P) (d : Deps) (c : Client) (i : Text) where
  -- Nothing behind the newest snapshot that has this id can be pruned.
  abbrev Spared : List Text → List Snapshot → Type 0
  Spared done snaps =
      All (λ x. x.id ≡ i → is_prunable d c (offsite_on P d c) done x ≡ false) (behind_first snaps)

  finish_client-Keeps :
      (snaps : List Snapshot) (done : List Text)
      → All (λ x. is_name x.id ≡ true) snaps
      → Spared done snaps
      → Keeps P (Present P L d c i) (finish_client P d c snaps done)
  unfolding finish_client
  finish_client-Keeps snaps done named spared =
      Keeps-bind _ _
        (Keeps-change (prune_hot P d c (offsite_on P d c) done snaps)
          (λ s h. prune_hot-present P L d c (offsite_on P d c) done snaps i s named spared ∙ h))
        λ _.
          Keeps-bind _ _
            (Keeps-if (offsite_on P d c) _ _ (verify_offsite_objects-Keeps d c) (Keeps-return tt))
            λ _. Keeps-bind _ _ (check_stale_alert-Keeps d c) λ _.
              Keeps-attempt {A = ℕ} _ _ _
                (Keeps-exec
                  λ db. let (n, db') = prune_runs c.id (keep_days P d) d.now db in (ok n, db'))
                (λ e. Keeps-return (some (database e))) (λ _. Keeps-return none)

  process_listed-Keeps :
      (snaps : List Snapshot) (done : List Text)
      → All (λ x. is_name x.id ≡ true) snaps
      → is_whole i ≡ true
      → Spared done snaps
      → Keeps P (Present P L d c i) (process_listed P d c snaps done)
  unfolding process_listed
  process_listed-Keeps snaps done named whole spared =
      Keeps-bind _ _ (prune_part_orphans-Keeps P L d c i whole) λ _.
        Keeps-bind _ _
          (Keeps-if (offsite_on P d c) _ _ (prune_offsite-Keeps P L d c i) (Keeps-return none)) go
    where
      go :
          (pruning : Option Failure)
          → Keeps P
              (Present P L d c i)
              (elim pruning [ some e ↦ return (some e) | none ↦ finish_client P d c snaps done ])
      go none = finish_client-Keeps snaps done named spared
      go (some e) = Keeps-return (some e)

  process_client-Present :
      (w : World P)
      → is_whole i ≡ true
      → ((snaps : List Snapshot)
          → P.list c.mode (client_dir d c) w.sys ≡ ok snaps
          → Spared (offsited_set c.id w.db) (newest_first snaps))
      → Present P L d c i w.sys
      → Present P L d c i (process_client P d c w).1.sys
  unfolding process_client newest_first
  process_client-Present w whole spared h =
      load_snapshots-sys P d c w (λ e. return (some e)) (process_listed P d c) (λ e. Keeps-return _)
        (λ snaps e.
          process_listed-Keeps _ _
            (sort_by-All (λ x. is_name x.id ≡ true) _ snaps
              (L.list-IsName c.mode (client_dir d c) w.sys e))
            whole (spared snaps e))
        h

  -- On a platform with the observed laws, a snapshot of a client with offsite on, of which no upload
  -- is recorded and whose id is not the name of a partial upload, is on disk behind a maintenance
  -- pass if it was in front of it: whatever the listing says, and whichever calls fail.
  pub process_client-unsent :
      (w : World P)
      → is_whole i ≡ true
      → offsite_on P d c ≡ true
      → contains i (offsited_set c.id w.db) ≡ false
      → Present P L d c i w.sys
      → Present P L d c i (process_client P d c w).1.sys
  unfolding is_prunable
  process_client-unsent w whole on unsent h =
      process_client-Present w whole (λ snaps e. spared (behind_first (newest_first snaps))) h
    where
      spared :
          (xs : List Snapshot)
          → All
              (λ x.
                x.id ≡ i → is_prunable d c (offsite_on P d c) (offsited_set c.id w.db) x ≡ false)
              xs
      spared [] = tt
      spared (x ∷ xs) = (
        λ e. ground (arith, on, unsent, ap (λ j. contains j (offsited_set c.id w.db)) e),
        spared xs,
      )

  -- On a platform with the observed laws, the newest snapshot that the mode lists is on disk behind
  -- a maintenance pass if it was in front of it, whatever the retention and the uploads, provided
  -- that the listing names no id twice and that its id is not the name of a partial upload.
  pub process_client-newest :
      (w : World P) (snaps rest : List Snapshot) (x : Snapshot)
      → is_whole i ≡ true
      → P.list c.mode (client_dir d c) w.sys ≡ ok snaps
      → newest_first snaps ≡ x ∷ rest
      → x.id ≡ i
      → DistinctBy (λ y. y.id) (x ∷ rest)
      → Present P L d c i w.sys
      → Present P L d c i (process_client P d c w).1.sys
  process_client-newest w snaps rest x whole listed sorted same distinct h =
      process_client-Present w whole (λ s e. spared s cc) h
    where
      spared : (s : List Snapshot) → s ≡ snaps → Spared (offsited_set c.id w.db) (newest_first s)
      spared s q =
          rw (q, sorted)
            (All-mono (λ y. y.id ≢ x.id) _ rest (λ y other e. elim (other (e ∙ sym same)) [ ])
              distinct.0)

  -- On a platform with the observed laws, a snapshot whose id is not the name of a partial upload
  -- stays on disk through a maintenance pass while every listed snapshot with its id is within the
  -- hot horizon.
  pub process_client-recent :
      (w : World P)
      → is_whole i ≡ true
      → ((snaps : List Snapshot)
          → P.list c.mode (client_dir d c) w.sys ≡ ok snaps
          → All
              (λ x. x.id ≡ i → is_older c.retention_days d.now x.created_at ≡ false)
              (newest_first snaps))
      → Present P L d c i w.sys
      → Present P L d c i (process_client P d c w).1.sys
  unfolding is_prunable
  process_client-recent w whole recent h =
      process_client-Present w whole (λ s e. spared (newest_first s) (recent s e)) h
    where
      spared :
          (xs : List Snapshot)
          → All (λ x. x.id ≡ i → is_older c.retention_days d.now x.created_at ≡ false) xs
          → Spared (offsited_set c.id w.db) xs
      spared [] h = tt
      spared (x ∷ xs) h =
          All-mono (λ y. y.id ≡ i → is_older c.retention_days d.now y.created_at ≡ false) _ xs
            (λ y young e. ground (arith, young e)) h.1

  -- On a platform with the observed laws, where the client keeps snapshots for at most 106751 days, a
  -- snapshot whose id is not the name of a partial upload stays on disk through a maintenance pass
  -- while every listed snapshot with its id was created at most so many times 24 hours before.
  pub process_client-retention_days :
      (w : World P)
      → is_whole i ≡ true
      → c.retention_days ≤ max_days
      → ((snaps : List Snapshot)
          → P.list c.mode (client_dir d c) w.sys ≡ ok snaps
          → All (λ x. x.id ≡ i → d.now ≤ x.created_at + c.retention_days * day) snaps)
      → Present P L d c i w.sys
      → Present P L d c i (process_client P d c w).1.sys
  unfolding newest_first sort_by
  process_client-retention_days w whole small recent h =
      process_client-recent w whole
        (λ snaps e. sort_by-All _ _ snaps (
          All-mono (λ x. x.id ≡ i → d.now ≤ x.created_at + c.retention_days * day) _ snaps
            (λ x young q. is_older_within c.retention_days d.now x.created_at small (young q))
            (recent snaps e)))
        h
