-- ===== src/Uploader.antt =====
-- internal/client/run.go, client.go and api.go: one backup on the client, with the requests that it
-- makes to the server and what the network does with each. The clocks, the lock, the log and the
-- deliveries are the data of a trigger. `auth.VerifyPassword`, the length of a report in JSON, the
-- link `latest` of a client's directory, and the modes, an interface, are parameters.
pub mod Laws
pub mod Recorded
use backitup.Prelude.{
  ℕ, ◌+◌, Bool, true, false, ◌||◌, List, [], ◌==◌, Text, Outcome, ok, err, Option, none, some, leb,
  nat_eq, text_eq, if◌then◌else◌, codes,
}
use backitup.Model.{Client, Mode, is_valid}
use backitup.Model.LogTail.{max_log_tail, cap_log_tail}
use backitup.Model.Slug.{slug}
use backitup.Store.{Db}
use backitup.Server.ClientApi.{require_client, get_config, StatusReq, Reply, post_status}

pub record Config : Type 0 where
  pub api_base : Text
  pub token : Text
  pub ssh_server : Text
  pub ssh_user : Text
  pub ssh_key : Text
  pub known_hosts : Text
  pub ca_bundle : Text
  pub source : Text
  pub mode : Mode
  pub insecure_tls : Bool
  pub insecure_ssh : Bool
  pub skip_symlinks : Bool
  pub quiet : Bool

pub data ConfigError : Type 0 where
  invalid_mode no_api_base no_token no_ssh_server no_ssh_key no_source : ConfigError

-- `Validate`; `none` is `nil`.
unfoldable pub validate : Config → Option ConfigError
validate c =
    if not_valid
    then some invalid_mode
    else if c.api_base == []
    then some no_api_base
    else if c.token == []
    then some no_token
    else if c.ssh_server == []
    then some no_ssh_server
    else if c.ssh_key == []
    then some no_ssh_key
    else if c.source == []
    then some no_source
    else none
  where
    not_valid : Bool
    not_valid = if is_valid c.mode then false else true

pub record ConfigResp : Type 0 where
  pub mode : Mode
  pub excludes : List Text
  pub retention_days : ℕ
  pub skip_symlinks : Bool
  pub has_previous_snapshot : Bool

pub record BackupOpts : Type 0 where
  pub source_dir : Text
  pub excludes : List Text
  pub skip_symlinks : Bool
  pub has_previous_snapshot : Bool
  pub ssh_server : Text
  pub ssh_user : Text
  pub ssh_key : Text
  pub known_hosts : Text
  pub insecure_ssh : Bool

-- With whether the backup returned an error beside it.
pub record BackupResult : Type 0 where
  pub snapshot_id : Text
  pub bytes : ℕ
  pub files : ℕ
  pub started_at : ℕ
  pub finished_at : ℕ
  pub failed : Bool

-- `Acquire`: the lock is taken, another run holds it, or the call failed.
pub data Acquired : Type 0 where
  taken held refused : Acquired

-- What becomes of a request: the client reads the answer, the server handles it but the answer is
-- lost, or the server never sees it.
pub data Delivery : Type 0 where
  answered reply_lost request_lost : Delivery

pub record Exchange : Type 0 where
  pub delivery : Delivery
  pub served_at : ℕ

-- One start of the client.
pub record Trigger : Type 0 where
  pub lock : Acquired
  pub fetch : Exchange
  pub first_post : Exchange
  pub last_post : Exchange
  pub started : ℕ
  pub ended : ℕ
  pub log : Text

pub data RunError : Type 0 where
  lock_error fetch_error mode_error backup_error report_error : RunError

abbrev pub exchange {ℓ} : {A : Type ℓ} → Delivery → (Db → Option A × Db) → Db → Option A × Db
exchange answered serve d = serve d
exchange reply_lost serve d = (none, (serve d).1)
exchange request_lost serve d = (none, d)

-- The report of an overlap, and the one that says that the client runs.
unfoldable pub overlap_report : Trigger → StatusReq
overlap_report t = record {
  status = codes "overlap";
  run_id = 0;
  bytes = 0;
  files = 0;
  snapshot_id = [];
  started_at = t.started;
  finished_at = t.started;
  log_tail = t.log;
}

unfoldable pub running_report : Trigger → StatusReq
running_report t = record {
  status = codes "running";
  run_id = 0;
  bytes = 0;
  files = 0;
  snapshot_id = [];
  started_at = t.started;
  finished_at = 0;
  log_tail = [];
}

-- `buildStatus`, where a time that is not set is 0.
unfoldable pub build_status : BackupResult → ℕ → StatusReq
build_status res now = record {
  status = if res.failed then codes "failed" else codes "ok";
  run_id = 0;
  bytes = res.bytes;
  files = res.files;
  snapshot_id = res.snapshot_id;
  started_at =
      if res.finished_at == 0
      then (if res.started_at == 0 then now else res.started_at)
      else res.started_at;
  finished_at = if res.finished_at == 0 then now else res.finished_at;
  log_tail = [];
}

unfoldable pub final_report : BackupResult → Trigger → ℕ → StatusReq
final_report res t run_id = record (build_status res t.ended) {
  log_tail = cap_log_tail t.log;
  run_id = run_id;
}

-- The body that the server reads at most.
abbrev pub max_body : ℕ
max_body = max_log_tail + 4096

abbrev pub backup_opts : Config → ConfigResp → BackupOpts
backup_opts cfg scfg = record {
  source_dir = cfg.source;
  excludes = scfg.excludes;
  skip_symlinks = scfg.skip_symlinks || cfg.skip_symlinks;
  has_previous_snapshot = scfg.has_previous_snapshot;
  ssh_server = cfg.ssh_server;
  ssh_user = cfg.ssh_user;
  ssh_key = cfg.ssh_key;
  known_hosts = cfg.known_hosts;
  insecure_ssh = cfg.insecure_ssh;
}

-- The server's mode where it is one, or else that of the flags.
unfoldable pub mode_of : Config → ConfigResp → Mode
mode_of cfg scfg = if is_valid scfg.mode then scfg.mode else cfg.mode

abbrev pub run_id_of : Option ℕ → ℕ
run_id_of none = 0
run_id_of (some id) = id

-- The result of the run, from whether the backup failed and the answer to its report.
abbrev pub result_of : Bool → Option ℕ → Outcome RunError (Unit {0})
result_of true reply = err backup_error
result_of false none = err report_error
result_of false (some id) = ok tt

-- What the client reads of an answer: an id, or an error.
abbrev pub status_reply : Reply × Db → Option ℕ × Db
status_reply (Reply.created id, d) = (some id, d)
status_reply (Reply.bad_request, d) = (none, d)
status_reply (Reply.internal_error, d) = (none, d)

module _ (verify_password : Text → Text → Outcome Text Bool) (body_size : StatusReq → ℕ)
    (has_latest : Text → Bool) (client_mode : Mode → Option (BackupOpts → BackupResult)) where
  -- `GET /api/v1/config`
  unfoldable pub serve_config : Config → ℕ → Db → Option ConfigResp × Db
  serve_config cfg now d = elim (require_client verify_password cfg.token d) [
    | none ↦ (none, d)
    | some cl ↦ (
      some (record {
        mode = cl.mode;
        excludes = cl.excludes;
        retention_days = cl.retention_days;
        skip_symlinks = cl.skip_symlinks;
        has_previous_snapshot = has_latest (slug cl.name);
      }),
      get_config cl now d,
    )
  ]

  -- `POST /api/v1/status`; a body that is too long is not decoded.
  unfoldable pub serve_status : Config → StatusReq → ℕ → Db → Option ℕ × Db
  serve_status cfg req now d = elim (require_client verify_password cfg.token d) [
    | none ↦ (none, d)
    | some cl ↦
        status_reply
          (post_status cl (if leb (body_size req) max_body then some req else none) now d)
  ]

  unfoldable pub fetch_config : Config → Exchange → Db → Option ConfigResp × Db
  fetch_config cfg x d = exchange x.delivery (serve_config cfg x.served_at) d

  unfoldable pub send_status : Config → Exchange → StatusReq → Db → Option ℕ × Db
  send_status cfg x req d = exchange x.delivery (serve_status cfg req x.served_at) d

  -- The run from the answer to its first report on.
  unfoldable pub finish :
      Config → Trigger → BackupResult → Option ℕ × Db → Outcome RunError (Unit {0}) × Db
  finish cfg t res r = (result_of res.failed sent.0, sent.1)
    where
      sent : Option ℕ × Db
      sent = send_status cfg t.last_post (final_report res t (run_id_of r.0)) r.1

  unfoldable pub with_mode :
      Config
      → Trigger
      → ConfigResp
      → Db
      → Option (BackupOpts → BackupResult)
      → Outcome RunError (Unit {0}) × Db
  with_mode cfg t scfg d none = (err mode_error, d)
  with_mode cfg t scfg d (some backup) =
      finish cfg t (backup (backup_opts cfg scfg))
        (send_status cfg t.first_post (running_report t) d)

  unfoldable pub with_config :
      Config → Trigger → Option ConfigResp × Db → Outcome RunError (Unit {0}) × Db
  with_config cfg t (none, d) = (err fetch_error, d)
  with_config cfg t (some scfg, d) = with_mode cfg t scfg d (client_mode (mode_of cfg scfg))

  unfoldable pub with_lock : Config → Trigger → Db → Acquired → Outcome RunError (Unit {0}) × Db
  with_lock cfg t d refused = (err lock_error, d)
  with_lock cfg t d held = (ok tt, (send_status cfg t.first_post (overlap_report t) d).1)
  with_lock cfg t d taken = with_config cfg t (fetch_config cfg t.fetch d)

  -- `Run`, after the client of the API is made.
  unfoldable pub run : Config → Trigger → Db → Outcome RunError (Unit {0}) × Db
  run cfg t d = with_lock cfg t d t.lock
