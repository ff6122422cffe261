-- ===== src/Tests/Snapshots.antt =====
-- A deletion on the lab's platform.
use backitup.Prelude.{◌≡◌, refl, true, [], ◌∷◌, some, codes, arith, text_eq, nat_eq, sort_by}
use backitup.Clock.Stamp.{text_lt}
use backitup.Model.Slug.{slug}
use backitup.Store.Clients.{get_client_by_slug}
use backitup.Server.Snapshots.{post_bulk_delete_snapshots}
use backitup.Server.Snapshots.Laws.{post_bulk_delete_snapshots-present}
use backitup.Tests.Lab.{lab, lab_laws, on_disk}
use backitup.Tests.Fixtures.{nas, world}

post_bulk_delete_snapshots-present_example :
    on_disk
      (codes "b")
      (post_bulk_delete_snapshots lab
        (codes "/data")
        (codes "nas")
        (some (codes "a" ∷ []))
        world).1.sys
    ≡ true
unfolding get_client_by_slug text_eq nat_eq sort_by text_lt slug lab_laws
post_bulk_delete_snapshots-present_example =
    post_bulk_delete_snapshots-present lab lab_laws (codes "/data") (codes "nas") nas
      (codes "a" ∷ []) (codes "b") world refl ((λ good. (refl, λ e. ground (arith, e))), tt) refl
