-- ===== src/Server/Clients/Changes/Laws.antt =====
-- What the forms of a client can store, and what its pages can show.
use backitup.Prelude.{
  ℕ, ◌≤◌, ◌<◌, ◌^◌, ◌≡◌, true, Text, Option, none, some, All, any, arith, ◌==◌, nat_eq, text_eq,
  Bool-cases, Option-cases, inl, inr, trim_space,
}
use backitup.Prelude.Rows.{All-update}
use backitup.Model.{Client}
use backitup.Store.{Db}
use backitup.Store.Clients.{get_client_by_slug, update_client_offsite, update_client_retention}
use backitup.Store.Remotes.{get_remote_by_name}
use backitup.Server.Forms.Laws.{atoi_default-bound}
use backitup.Server.Clients.Changes.{
  OffsiteForm, RetentionForm, hot_days, is_known_remote, set_offsite, set_checked, cron_error,
  updated, post_update_client_offsite, post_update_client_retention,
}

-- Every client's remote is empty or in the table.
abbrev pub HasRemotes : Db → Type 0
HasRemotes d = All (λ c. is_known_remote c.offsite_remote d ≡ true) d.clients

set_offsite-HasRemotes :
    (name : Text) (f : OffsiteForm) (c : Client) (d : Db)
    → is_known_remote f.offsite_remote d ≡ true
    → HasRemotes d
    → HasRemotes (set_offsite name f c d).1
unfolding set_offsite update_client_offsite is_known_remote get_remote_by_name
set_offsite-HasRemotes name f c d known h = elim (Bool-cases (any (λ x. x.id == c.id) d.clients)) [
  | inr e ↦ rw e h
  | inl e ↦ rw e (
      All-update (λ x. is_known_remote x.offsite_remote d ≡ true) (λ x. x.id == c.id) _ d.clients
        (λ x k. known) h)
]

set_checked-HasRemotes :
    (name : Text) (f : OffsiteForm) (d : Db) → HasRemotes d → HasRemotes (set_checked name f d).1
unfolding set_checked
set_checked-HasRemotes name f d h = elim (Bool-cases (is_known_remote f.offsite_remote d)) [
  | inr e ↦ rw e h
  | inl e ↦ elim (Option-cases (get_client_by_slug name d)) [
    | inl g ↦ rw (e, g) h
    | inr (c, g) ↦ rw (e, g) (set_offsite-HasRemotes name f c d e h)
  ]
]

-- A form for the offsite settings of a client, refused or not, keeps it so that every client's remote
-- is empty or in the table of remotes.
pub post_update_client_offsite-HasRemotes :
    (parse_cron : Text → Option Text) (name : Text) (form : Option OffsiteForm) (d : Db)
    → HasRemotes d
    → HasRemotes (post_update_client_offsite parse_cron name form d).1
unfolding post_update_client_offsite
post_update_client_offsite-HasRemotes parse_cron name none d h = h
post_update_client_offsite-HasRemotes parse_cron name (some f) d h =
    elim (Option-cases (cron_error parse_cron (trim_space f.offsite_cron))) [
      | inl e ↦ rw (post_update_client_offsite, e) (set_checked-HasRemotes name f d h)
      | inr (why, e) ↦ rw (post_update_client_offsite, e) h
    ]

-- At least a day, and an int of 64 bits.
abbrev pub HasDays : Client → Type 0
HasDays c = (1 ≤ c.retention_days) × (c.retention_days < 2 ^ 63)

update_client_retention-HasDays :
    (name : Text) (id hot offsite interval : ℕ) (d : Db)
    → 1 ≤ hot
    → hot < 2 ^ 63
    → All HasDays d.clients
    → All HasDays (updated name (update_client_retention id hot offsite interval d)).1.clients
unfolding update_client_retention
update_client_retention-HasDays name id hot offsite interval d low high h =
    elim (Bool-cases (any (λ x. x.id == id) d.clients)) [
      | inr e ↦ rw e h
      | inl e ↦ rw e (All-update HasDays (λ x. x.id == id) _ d.clients (λ x k. (low, high)) h)
    ]

hot_days-bounds : (f : RetentionForm) → (1 ≤ hot_days f) × (hot_days f < 2 ^ 63)
unfolding hot_days
hot_days-bounds f =
    let high = atoi_default-bound f.retention_days 14 (omega arith) in
    (ground arith, ground (arith, high))

-- A form for the retention of a client, whatever it says, keeps it so that every client's days on disk
-- are at least one and fit an int of 64 bits.
pub post_update_client_retention-HasDays :
    (name : Text) (form : Option RetentionForm) (d : Db)
    → All HasDays d.clients
    → All HasDays (post_update_client_retention name form d).1.clients
unfolding post_update_client_retention
post_update_client_retention-HasDays name none d h = h
post_update_client_retention-HasDays name (some f) d h =
    elim (Option-cases (get_client_by_slug name d)) [
      | inl e ↦ rw (post_update_client_retention, e) h
      | inr (c, e) ↦
          let (low, high) = hot_days-bounds f in
          rw (post_update_client_retention, e)
            (update_client_retention-HasDays name c.id (hot_days f) _ _ d low high h)
    ]
