-- ===== src/Tests/Store.antt =====
-- The store with two clients.
use backitup.Prelude.{◌≡◌, refl, [], ◌∷◌, codes, arith, nat_eq, text_eq, err}
use backitup.Store.{empty_db, conflict}
use backitup.Store.Clients.{rotate_client_creds, delete_client}
use backitup.Store.Clients.Rotation.{rotate_client_creds-rotate_client_creds}
use backitup.Store.Clients.Deletion.{IsGone, SameFor, delete_client-IsGone}
use backitup.Store.Invariant.{IsSound, creates_client, records_run, deletes_client}
use backitup.Store.Invariant.Laws.{replay, replay-empty-IsSound}
use backitup.Tests.Fixtures.{nas, run, db, present}

replay-empty-IsSound_example :
    IsSound (replay (creates_client nas present ∷ records_run run ∷ deletes_client 1 ∷ []) empty_db)
replay-empty-IsSound_example =
    replay-empty-IsSound (creates_client nas present ∷ records_run run ∷ deletes_client 1 ∷ [])

rotate_client_creds_example :
    (rotate_client_creds 1 (codes "k2") [] [] 1 (rotate_client_creds 1 (codes "k") [] [] 1 db).1).0
    ≡ err conflict
unfolding rotate_client_creds nat_eq
rotate_client_creds_example =
    rotate_client_creds-rotate_client_creds 1 1 (codes "k") [] [] (codes "k2") [] [] db refl

delete_client-IsGone_example : IsGone 1 (delete_client 1 db).1 × SameFor 2 (delete_client 1 db).1 db
unfolding delete_client nat_eq
delete_client-IsGone_example = delete_client-IsGone 1 2 db refl (omega arith)
