-- ===== src/Server/Clients.antt =====
-- internal/server/clients.go: the clients of the fleet. Here the credentials of a client and the
-- rewrite of authorized_keys; the children hold the handlers. A statement of the database fails only
-- by its constraints. What a request draws at random, and how the disk answers it, are arguments.
pub mod Creation
pub mod Credentials
pub mod Changes
pub mod Page
pub mod Commands
pub mod Keys
pub mod Current
use backitup.Prelude.{
  ℕ, Bool, true, false, not, List, [], ◌∷◌, ◌++◌, Text, Outcome, ok, err, Option, none, some,
  length, take, leb, ◌==◌, text_eq, if◌then◌else◌, codes,
}
use backitup.FilePath.{join}
use backitup.Model.{Client, Mode}
use backitup.Model.Slug.{slug}
use backitup.Store.{Db}
use backitup.Store.Clients.{list_clients}
use backitup.AuthKeys.Render.{render}

-- The fields of `Server` that the handlers read; `auth_keys_dir` is `filepath.Dir` of the path.
pub record Settings : Type 0 where
  pub auth_keys_path : Text
  pub auth_keys_dir : Text
  pub backup_base_dir : Text
  pub rclone_config : Text

-- Which directories can be made, and whether the file of keys can be replaced.
pub record Disk : Type 0 where
  pub makes : Text → Bool
  pub writes : Bool

-- The database, the content of authorized_keys, and the directories that were made.
pub record Site : Type 0 where
  pub db : Db
  pub auth_keys : Text
  pub dirs : List Text

-- What `keys.GenerateKeypair`, `keys.GenerateToken` and `auth.HashPassword` yield in a request.
pub record Draws : Type 0 where
  pub keypair : Text → Outcome Text (Text × Text)
  pub token : Outcome Text Text
  pub hash_password : Text → Outcome Text Text

pub record Creds : Type 0 where
  pub priv_pem : Text
  pub pub_line : Text
  pub token : Text
  pub token_hash : Text
  pub token_prefix : Text

-- `none` is an answer 500.
unfoldable pub generate_client_creds : Draws → Text → Option Creds
generate_client_creds ds name = with_pair (ds.keypair (codes "backitup:" ++ name))
  where
    with_hash : Text × Text → Text → Outcome Text Text → Option Creds
    with_hash pair token (err e) = none
    with_hash pair token (ok hash) = some (record {
      priv_pem = pair.0;
      pub_line = pair.1;
      token = token;
      token_hash = hash;
      token_prefix = if leb 8 (length token) then take 8 token else [];
    })

    with_token : Text × Text → Outcome Text Text → Option Creds
    with_token pair (err e) = none
    with_token pair (ok token) = with_hash pair token (ds.hash_password token)

    with_pair : Outcome Text (Text × Text) → Option Creds
    with_pair (err e) = none
    with_pair (ok pair) = with_token pair ds.token

-- The directory of a client's backups.
unfoldable pub client_dir : Text → Client → Text
client_dir base c = in_mode c.mode
  where
    in_mode : Mode → Text
    in_mode Mode.rsync = join (join base (slug c.name)) (codes "snapshots")
    in_mode Mode.targz = join base (slug c.name)
    in_mode (Mode.other m) = join base (slug c.name)

-- The loop that makes the directories of the enabled clients, up to the first that fails.
unfoldable pub make_dirs : Text → Disk → List Client → List Text → Bool × List Text
unfolding client_dir
make_dirs base k [] dirs = (true, dirs)
make_dirs base k (c ∷ cs) dirs =
    let skipped = make_dirs base k cs dirs in
    let made = make_dirs base k cs (client_dir base c ∷ dirs) in
    if not c.enabled then skipped else if k.makes (client_dir base c) then made else (false, dirs)

module _ (parses : Text → Bool) (st : Settings) (k : Disk) where
  -- The file is replaced as a whole, or left.
  abbrev write_keys : Site → Bool × Site
  write_keys s =
      if k.writes
      then (true, record s { auth_keys = (render parses (list_clients s.db) st.backup_base_dir).0 })
      else (false, s)

  unfoldable pub regen_authorized_keys : Site → Bool × Site
  unfolding make_dirs
  regen_authorized_keys s =
      if st.auth_keys_path == []
      then (true, s)
      else if not (k.makes st.auth_keys_dir)
      then (false, s)
      else let (made, dirs) = make_dirs st.backup_base_dir k (list_clients s.db) s.dirs in
        let s' = record s { dirs = dirs } in if made then write_keys s' else (false, s')
