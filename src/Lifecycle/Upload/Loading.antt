-- ===== src/Lifecycle/Upload/Loading.antt =====
-- How a pass over one client starts.
use backitup.Prelude.{◌≡◌, refl, inl, inr, List, Text, Outcome, ok, err, Bool-cases}
use backitup.Model.{Client}
use backitup.Lifecycle.{
  Platform, Snapshot, Failure, no_server_mode, tool, database, Deps, World, Action, client_dir,
  handle, query,
}
use backitup.Lifecycle.Keeps.{Keeps, query-cases}
use backitup.Lifecycle.Upload.{newest_first, offsited_set, load_snapshots, is_registered}

-- What the rest is run on: a listing of the mode in the state at the start, sorted, and the uploads
-- that the database has then.
pub load_snapshots-sys :
    (P : Platform) (d : Deps) (c : Client) (w : World P) {A : Type 0} (fail : Failure → Action P A)
    (rest : List Snapshot → List Text → Action P A) {Q : P.State → Type 0}
    → ((e : Failure) → Keeps P Q (fail e))
    → ((snaps : List Snapshot)
        → P.list c.mode (client_dir d c) w.sys ≡ ok snaps
        → Keeps P Q (rest (newest_first snaps) (offsited_set c.id w.db)))
    → Q w.sys
    → Q (load_snapshots P d c fail rest w).1.sys
unfolding load_snapshots
load_snapshots-sys P d c w fail rest {Q} kf kr h = elim (Bool-cases (is_registered c.mode)) [
  | inr e ↦ rw e ((kf no_server_mode).at w h)
  | inl e ↦ rw e (listed (P.list c.mode (client_dir d c) w.sys) refl)
]
  where
    queried :
        (snaps : List Snapshot)
        → P.list c.mode (client_dir d c) w.sys ≡ ok snaps
        → Q
            (handle
              (query (offsited_set c.id) w).0
              (λ e. fail (database e))
              (λ done. rest (newest_first snaps) done)
              (query (offsited_set c.id) w).1).1.sys
    queried snaps p =
        let (fs, q) = query-cases (offsited_set c.id) w in
        elim q [
          | inl answered ↦ rw answered ((kr snaps p).at (record w { faults = fs }) h)
          | inr failed ↦ rw failed ((kf (database _)).at (record w { faults = fs }) h)
        ]

    listed :
        (r : Outcome Text (List Snapshot))
        → P.list c.mode (client_dir d c) w.sys ≡ r
        → Q
            (handle
              (P.list c.mode (client_dir d c) w.sys)
              (λ e. fail (tool e))
              (λ snaps w'.
                handle
                  (query (offsited_set c.id) w').0
                  (λ e. fail (database e))
                  (λ done. rest (newest_first snaps) done)
                  (query (offsited_set c.id) w').1)
              w).1.sys
    listed (ok snaps) p = rw p (queried snaps p)
    listed (err e) p = rw p ((kf (tool e)).at w h)
