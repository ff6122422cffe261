-- ===== src/Server/Settings.antt =====
-- internal/server/server.go: the settings of the server and the texts of durations in the templates.
-- The time zone of the alerts is left out.
use backitup.Prelude.{
  ℕ, ◌+◌, ◌-◌, ◌/◌, ◌%◌, [], ◌++◌, Text, ltb, leb, ◌==◌, nat_eq, text_eq, if◌then◌else◌, codes,
  decimal,
}
use backitup.Clock.{second}

-- The settings that `ConfigureIngest` takes.
pub record Ingest : Type 0 where
  pub auth_keys_path : Text
  pub backup_base_dir : Text
  pub public_host : Text
  pub public_api : Text
  pub client_image : Text
  pub ssh_host_key_path : Text

abbrev default_ingest : Ingest
default_ingest = record {
  auth_keys_path = codes "/srv/authkeys/authorized_keys";
  backup_base_dir = codes "/srv/backups";
  public_host = codes "your-server:2222";
  public_api = [];
  client_image = codes "th0rn0/backitup-client:latest";
  ssh_host_key_path = [];
}

-- An empty argument leaves what is there.
abbrev or_keep : Text → Text → Text
or_keep arg old = if arg == [] then old else arg

unfoldable configure_ingest : Ingest → Ingest → Ingest
configure_ingest args s = record {
  auth_keys_path = or_keep args.auth_keys_path s.auth_keys_path;
  backup_base_dir = or_keep args.backup_base_dir s.backup_base_dir;
  public_host = or_keep args.public_host s.public_host;
  public_api = or_keep args.public_api s.public_api;
  client_image = or_keep args.client_image s.client_image;
  ssh_host_key_path = or_keep args.ssh_host_key_path s.ssh_host_key_path;
}

unfoldable configure_rclone : Text → Text → Text
configure_rclone path old = or_keep path old

-- `Round(time.Second)`, half away from zero, in seconds.
abbrev rounded_seconds : ℕ → ℕ
rounded_seconds d = (d + second / 2) / second

unfoldable pub human_seconds : ℕ → Text
human_seconds s =
    if ltb s 60
    then decimal s ++ codes "s"
    else if s % 60 == 0
    then decimal (s / 60) ++ codes "m"
    else decimal (s / 60) ++ codes "m " ++ decimal (s % 60) ++ codes "s"

-- From a time to a time that may lie before it.
unfoldable pub human_duration : ℕ → ℕ → Text
unfolding human_seconds
human_duration from to =
    if leb (to + second / 2) from
    then codes "—"
    else if ltb to from
    then human_seconds 0
    else human_seconds (rounded_seconds (to - from))

unfoldable fmt_interval : ℕ → Text
fmt_interval secs =
    if secs == 0
    then codes "every lifecycle pass"
    else if secs == 3600
    then codes "every 1h"
    else if secs == 21600
    then codes "every 6h"
    else if secs == 43200
    then codes "every 12h"
    else if secs == 86400
    then codes "every 24h"
    else if secs == 604800
    then codes "every 7d"
    else codes "every " ++ decimal secs ++ codes "s"

-- internal/server/clients.go: the address of the control channel in the commands for a client.
unfoldable pub api_base : Ingest → Text → Text
api_base s api_scheme =
    if s.public_api == []
    then (if api_scheme == codes "https" then api_scheme else codes "http")
      ++ codes "://YOUR-SERVER:8080  # set BACKITUP_PUBLIC_API on the server"
    else s.public_api
