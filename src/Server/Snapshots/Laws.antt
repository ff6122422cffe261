-- ===== src/Server/Snapshots/Laws.antt =====
-- What a deletion in bulk leaves on disk.
use backitup.Prelude.{
  ◌≡◌, ◌≢◌, ◌∙◌, Bool, true, false, List, [], ◌∷◌, Text, some, All, text_eq, nat_eq, Bool-cases,
  inl, inr,
}
use backitup.FilePath.{is_name}
use backitup.Model.{Client}
use backitup.Store.Clients.{get_client_by_slug}
use backitup.Lifecycle.{Platform, World, Action}
use backitup.Lifecycle.Observed.{Observed}
use backitup.Lifecycle.Keeps.{Keeps, Keeps-return, Keeps-act, Keeps-attempt, query-cases}
use backitup.Lifecycle.Upload.{is_registered}
use backitup.Server.Response.{Response, internal_error}
use backitup.Server.Snapshots.{
  is_bad_id, hot_dir, resolve_client, resolve_client_and_mode, delete_snapshots,
  post_bulk_delete_snapshots,
}

-- What holds of the answer to a query that fails, and of what the handler does with the client that is
-- there, holds of the handler.
resolve_client_lem :
    {P : Platform} {A : Type 0} (base name : Text) (answer : Response → A)
    (rest : Client → Action P A) (c : Client) (w : World P) (Q : A × World P → Type 0)
    → get_client_by_slug name w.db ≡ some c
    → ((fs : List Bool) → Q (answer internal_error, record w { faults = fs }))
    → ((fs : List Bool) → Q (rest c (record w { faults = fs })))
    → Q (resolve_client P base name answer rest w)
unfolding resolve_client
resolve_client_lem base name answer rest c w Q found failed going =
    let (fs, e) = query-cases (get_client_by_slug name) w in
    elim e [ inl p ↦ rw (p, found) (going fs) | inr p ↦ rw p (failed fs) ]

resolve_client_and_mode_lem :
    {P : Platform} {A : Type 0} (base name : Text) (answer : Response → A)
    (rest : Client → Action P A) (c : Client) (w : World P) (Q : A × World P → Type 0)
    → get_client_by_slug name w.db ≡ some c
    → ((fs : List Bool) → Q (answer internal_error, record w { faults = fs }))
    → ((fs : List Bool) → Q (rest c (record w { faults = fs })))
    → Q (resolve_client_and_mode P base name answer rest w)
unfolding resolve_client_and_mode
resolve_client_and_mode_lem {P} base name answer rest c w Q found failed going =
    resolve_client_lem base name answer _ c w Q found failed λ fs.
      elim (Bool-cases (is_registered c.mode)) [
        | inl e ↦ rw e (going fs)
        | inr e ↦ rw e (failed fs)
      ]

module _ (P : Platform) (L : Observed P) (base : Text) (c : Client) where
  abbrev HasSnapshot : Text → P.State → Type 0
  HasSnapshot j s = L.present c.mode (hot_dir P base c) j s ≡ true

  delete_snapshots-Keeps :
      (j : Text) (ids : List Text) (failed : Bool)
      → All (λ i. is_bad_id i ≡ false → (is_name i ≡ true) × (i ≢ j)) ids
      → Keeps P (HasSnapshot j) (delete_snapshots P base c ids failed)
  unfolding delete_snapshots
  delete_snapshots-Keeps j [] failed apart = Keeps-return failed
  delete_snapshots-Keeps j (i ∷ ids) failed apart = elim (Bool-cases (is_bad_id i)) [
    | inl bad ↦ rw bad (delete_snapshots-Keeps j ids failed apart.1)
    | inr good ↦ rw good (
        Keeps-attempt {E = Text} {A = Unit {0}} _ _ _
          (Keeps-act (P.delete_snapshot c.mode (hot_dir P base c) i) λ s h.
            L.present-delete_snapshot c.mode (hot_dir P base c) i j s (apart.0 good).0
              (apart.0 good).1
            ∙ h)
          (λ e. delete_snapshots-Keeps j ids true apart.1)
          (λ _. delete_snapshots-Keeps j ids failed apart.1))
  ]

-- On a platform with the observed laws, a deletion in bulk leaves on disk every snapshot of the client
-- whose id is not among the ids, whichever calls and statements fail, provided that each id that the
-- handler does not turn away is the name of an entry of a directory.
pub post_bulk_delete_snapshots-present :
    (P : Platform) (L : Observed P) (base name : Text) (c : Client) (ids : List Text) (j : Text)
    (w : World P)
    → get_client_by_slug name w.db ≡ some c
    → All (λ i. is_bad_id i ≡ false → (is_name i ≡ true) × (i ≢ j)) ids
    → L.present c.mode (hot_dir P base c) j w.sys ≡ true
    → L.present c.mode
        (hot_dir P base c)
        j
        (post_bulk_delete_snapshots P base name (some ids) w).1.sys
      ≡ true
unfolding post_bulk_delete_snapshots
post_bulk_delete_snapshots-present P L base name c [] j w found apart h = h
post_bulk_delete_snapshots-present P L base name c (i ∷ ids) j w found apart h =
    resolve_client_and_mode_lem base name (λ r. r) _ c w
      (λ r. L.present c.mode (hot_dir P base c) j r.1.sys ≡ true) found (λ fs. h)
      λ fs.
        (delete_snapshots-Keeps P L base c j (i ∷ ids) false apart).at (record w { faults = fs }) h
