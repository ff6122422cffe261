-- ===== src/Server/Clients/Creation.antt =====
-- internal/server/clients.go: `postClients`.
pub mod Laws
use backitup.Prelude.{
  ℕ, Bool, true, false, ◌||◌, not, [], Text, Outcome, ok, err, Option, none, some, ◌==◌, text_eq,
  if◌then◌else◌, codes, trim_space, trim_slashes,
}
use backitup.Model.{Client, Mode, is_valid}
use backitup.Store.{Db, Answer}
use backitup.Store.Clients.{create_client}
use backitup.Server.Response.{Response, page, bad_request, internal_error}
use backitup.Server.Forms.{atoi_default}
use backitup.Server.Clients.{
  Settings, Disk, Site, Draws, Creds, generate_client_creds, regen_authorized_keys,
}

pub record ClientForm : Type 0 where
  pub name : Text
  pub mode : Text
  pub source_label : Text
  pub retention_days : Text
  pub offsite_retention_days : Text
  pub expected_interval_secs : Text
  pub offsite_remote : Text
  pub offsite_dir : Text
  pub offsite_cron : Text
  pub skip_symlinks : Text

-- `model.Mode(s)`
unfoldable pub mode_of : Text → Mode
mode_of s =
    if s == codes "targz"
    then Mode.targz
    else if s == codes "rsync"
    then Mode.rsync
    else Mode.other s

-- The client that a form describes, with its new credentials.
unfoldable pub client_of : ClientForm → Creds → Client
unfolding mode_of
client_of f creds = record {
  id = 0;
  name = f.name;
  mode = mode_of f.mode;
  source_label = f.source_label;
  excludes = [];
  skip_symlinks = f.skip_symlinks == codes "1";
  retention_days = atoi_default f.retention_days 14;
  offsite_retention_days = atoi_default f.offsite_retention_days 90;
  expected_interval_secs = atoi_default f.expected_interval_secs 0;
  offsite_remote = f.offsite_remote;
  offsite_dir = trim_space (trim_slashes f.offsite_dir);
  offsite_cron = trim_space f.offsite_cron;
  offsite_upload_mode = [];
  disable_offsite_pruning = false;
  ssh_pub_key = creds.pub_line;
  token_hash = creds.token_hash;
  token_prefix = creds.token_prefix;
  enabled = true;
  created_at = 0;
  version = 0;
}

module _ (parses : Text → Bool) (st : Settings) (k : Disk) where
  -- The insert, and the rewrite of the keys, whose failure is only logged.
  unfoldable pub insert_created : ClientForm → Creds → ℕ → Site → Response × Site
  unfolding client_of
  insert_created f creds now s = answer (create_client (client_of f creds) now s.db)
    where
      answer : Answer ℕ → Response × Site
      answer (ok id, d) = (page, (regen_authorized_keys parses st k (record s { db = d })).1)
      answer (err e, d) = (
        bad_request (codes "Could not create client (is the name already taken?)."),
        record s { db = d },
      )

  -- The form is `none` where it cannot be parsed. The page shows the credentials.
  unfoldable pub post_clients : Draws → Option ClientForm → ℕ → Site → Response × Site
  unfolding mode_of
  post_clients ds none now s = (bad_request (codes "invalid form"), s)
  post_clients ds (some f) now s =
      if f.name == [] || not (is_valid (mode_of f.mode))
      then (bad_request (codes "Name is required and mode must be targz or rsync."), s)
      else elim (generate_client_creds ds f.name) [
        | none ↦ (internal_error, s)
        | some creds ↦ insert_created f creds now s
      ]
