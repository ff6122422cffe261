-- ===== src/Store/Clients.antt =====
-- The `clients` table.
pub mod Rotation
pub mod Deletion
use backitup.Prelude.{
  ℕ, ◌+◌, Bool, true, false, List, [], ◌∷◌, ◌++◌, Option, Text, ok, err, any, find, select, update,
  sort_by, ◌&&◌, not, ◌==◌, nat_eq, text_eq, if◌then◌else◌, codes,
}
use backitup.Clock.Stamp.{text_lt}
use backitup.Model.{Client, is_valid}
use backitup.Model.Slug.{slug}
use backitup.Store.{Db, Answer, unique, check, not_found, conflict}

-- An empty upload mode is stored as `all`.
abbrev pub upload_mode_or_all : Text → Text
upload_mode_or_all m = if m == [] then codes "all" else m

-- The id, the time and the defaults of `version` and `disable_offsite_pruning` are the table's.
abbrev pub insert_client : Client → ℕ → Db → Db
insert_client c now d = record d {
  clients = d.clients ++ row ∷ [];
  next_client = d.next_client + 1;
}
  where
    row : Client
    row = record c {
      id = d.next_client;
      created_at = now;
      version = 1;
      disable_offsite_pruning = false;
      offsite_upload_mode = upload_mode_or_all c.offsite_upload_mode;
    }

-- The name is unique, and the mode one of the two.
unfoldable pub create_client : Client → ℕ → Db → Answer ℕ
create_client c now d =
    if any (λ r. r.name == c.name) d.clients
    then (err unique, d)
    else if not (is_valid c.mode)
    then (err check, d)
    else (ok d.next_client, insert_client c now d)

unfoldable pub list_clients : Db → List Client
list_clients d = sort_by (λ a b. text_lt a.name b.name) d.clients

unfoldable pub get_client_by_slug : Text → Db → Option Client
unfolding list_clients
get_client_by_slug s d = find (λ c. slug c.name == s) (list_clients d)

unfoldable pub get_client : ℕ → Db → Option Client
get_client id d = find (λ c. c.id == id) d.clients

-- `UPDATE clients SET … WHERE id=?`, with the error for no row.
set_client : ℕ → (Client → Client) → Db → Answer (Unit {0})
set_client id f d =
    if any (λ c. c.id == id) d.clients
    then (ok tt, record d { clients = update (λ c. c.id == id) f d.clients })
    else (err not_found, d)

unfoldable pub update_client_offsite : ℕ → Text → Text → Text → Text → Bool → Db → Answer (Unit {0})
unfolding set_client
update_client_offsite id remote dir cron upload_mode disable_pruning = set_client id λ c. record c {
  offsite_remote = remote;
  offsite_dir = dir;
  offsite_cron = cron;
  offsite_upload_mode = upload_mode_or_all upload_mode;
  disable_offsite_pruning = disable_pruning;
}

unfoldable pub update_client_retention : ℕ → ℕ → ℕ → ℕ → Db → Answer (Unit {0})
unfolding set_client
update_client_retention id hot_days offsite_days interval = set_client id λ c. record c {
  retention_days = hot_days;
  offsite_retention_days = offsite_days;
  expected_interval_secs = interval;
}

-- Compare and swap on the version; no row means a deleted client or a version that has moved.
unfoldable pub rotate_client_creds : ℕ → Text → Text → Text → ℕ → Db → Answer (Unit {0})
rotate_client_creds id pub_key token_hash token_prefix old_version d =
    if any (λ c. c.id == id && c.version == old_version) d.clients
    then (
      ok tt,
      record d { clients = update (λ c. c.id == id && c.version == old_version) rotated d.clients },
    )
    else if any (λ c. c.id == id) d.clients
    then (err conflict, d)
    else (err not_found, d)
  where
    rotated : Client → Client
    rotated c = record c {
      ssh_pub_key = pub_key;
      token_hash = token_hash;
      token_prefix = token_prefix;
      version = c.version + 1;
    }

-- The rows that refer to the client go with it (ON DELETE CASCADE).
abbrev pub delete_rows : ℕ → Db → Db
delete_rows id d = record d {
  clients = select (λ c. not (c.id == id)) d.clients;
  runs = select (λ r. not (r.client_id == id)) d.runs;
  objects = select (λ o. not (o.client_id == id)) d.objects;
  offsite_runs = select (λ r. not (r.client_id == id)) d.offsite_runs;
}

unfoldable pub delete_client : ℕ → Db → Answer (Unit {0})
delete_client id d =
    if any (λ c. c.id == id) d.clients then (ok tt, delete_rows id d) else (err not_found, d)
