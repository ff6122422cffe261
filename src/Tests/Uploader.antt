-- ===== src/Tests/Uploader.antt =====
-- Runs of a client whose token is its hash, with a mode that copies one file.
use backitup.Prelude.{
  ℕ, ◌≡◌, ◌≢◌, refl, ◌⊎◌, Bool, true, false, [], ◌∷◌, ◌++◌, Text, Outcome, ok, Option, some, any,
  zero, suc, sort_by, ◌==◌, ◌+◌, ◌≤◌, nat_eq, text_eq, leb, ltb, length, arith, codes, decimal,
  if◌then◌else◌, ◌||◌, subst,
}
use backitup.Clock.Stamp.{text_lt}
use backitup.Model.{Client, Run, RunStatus, Mode, is_valid}
use backitup.Model.Slug.{slug}
use backitup.Model.LogTail.{cap_log_tail}
use backitup.Store.{Db}
use backitup.Store.Clients.{list_clients}
use backitup.Store.Runs.{mark_client_running_run_failed, record_run, update_run}
use backitup.Server.ClientApi.{
  StatusReq, require_client, client_by_token, accepts, get_config, finish_run, post_status,
  run_status, start_run,
}
use backitup.Uploader.{
  Config, ConfigResp, BackupOpts, BackupResult, Acquired, Delivery, Exchange, Trigger, final_report,
  max_body, backup_opts, mode_of, fetch_config, run, with_lock, with_config, with_mode, finish,
  send_status, serve_config, serve_status, build_status, running_report,
}
use backitup.Uploader.Laws.{run-NoneRunning, runs_of}
use backitup.Uploader.Recorded.{run-told, run-held, tells}
use backitup.Tests.Fixtures.{nas, laptop, db, present}

abbrev compare_text : Text → Text → Outcome Text Bool
compare_text token hash = ok (token == hash)

-- The length of a report as JSON: a newline, a quote and a backslash take two bytes, another control
-- character and an angle bracket or ampersand six, a time at most 35, and the names 110.
abbrev byte_size : ℕ → ℕ
byte_size c =
    if c == b'\n' || c == b'"' || c == b'\\'
    then 2
    else if ltb c 32 || c == b'<' || c == b'>' || c == b'&'
    then 6
    else 1

abbrev text_size : Text → ℕ
text_size [] = 0
text_size (c ∷ s) = byte_size c + text_size s

abbrev json_size : StatusReq → ℕ
json_size req =
    180
    + text_size req.status
    + length (decimal req.run_id)
    + length (decimal req.bytes)
    + length (decimal req.files)
    + text_size req.snapshot_id
    + text_size req.log_tail

abbrev no_latest : Text → Bool
no_latest s = false

abbrev one_file : BackupOpts → BackupResult
one_file opts = record {
  snapshot_id = codes "c";
  bytes = 5;
  files = 1;
  started_at = present;
  finished_at = present;
  failed = false;
}

abbrev one_mode : Mode → Option (BackupOpts → BackupResult)
one_mode m = some one_file

abbrev known : Client
known = record nas { token_hash = codes "k" }

abbrev known_db : Db
known_db = record db { clients = known ∷ laptop ∷ [] }

abbrev config : Config
config = record {
  api_base = codes "https://b";
  token = codes "k";
  ssh_server = codes "b:22";
  ssh_user = codes "backitup";
  ssh_key = codes "/key";
  known_hosts = [];
  ca_bundle = [];
  source = codes "/data";
  mode = Mode.targz;
  insecure_tls = false;
  insecure_ssh = false;
  skip_symlinks = false;
  quiet = true;
}

abbrev reached : Exchange
reached = record { delivery = Delivery.answered; served_at = present }

abbrev nightly : Trigger
nightly = record {
  lock = Acquired.taken;
  fetch = reached;
  first_post = reached;
  last_post = reached;
  started = present;
  ended = present;
  log = codes "1 file, \"ok\"";
}

abbrev overlapping : Trigger
overlapping = record nightly { lock = Acquired.held }

require_known : require_client compare_text (codes "k") known_db ≡ some known
unfolding require_client client_by_token accepts list_clients sort_by text_lt text_eq nat_eq
require_known = refl

-- The report of `one_file`, with any id up to the next one.
one_file_fits :
    (opts : BackupOpts) (run_id : ℕ)
    → run_id ≤ 4
    → leb (json_size (final_report (one_file opts) nightly run_id)) max_body ≡ true
unfolding final_report build_status cap_log_tail decimal nat_eq
one_file_fits opts zero h = refl
one_file_fits opts (suc zero) h = refl
one_file_fits opts (suc (suc zero)) h = refl
one_file_fits opts (suc (suc (suc zero))) h = refl
one_file_fits opts (suc (suc (suc (suc zero)))) h = refl
one_file_fits opts (suc (suc (suc (suc (suc n))))) h = absurd (omega (arith, h))

answered_kept : Delivery.answered ≢ Delivery.reply_lost
answered_kept h = absurd (cc)

run-NoneRunning_example :
    runs_of 1 (run compare_text json_size no_latest one_mode config nightly known_db).1.runs ≡ false
run-NoneRunning_example =
    run-NoneRunning compare_text json_size no_latest one_mode config nightly known known_db refl
      refl answered_kept refl
      (λ scfg e backup run_id m h.
        let same : one_file ≡ backup = cc in
        subst
          (λ b.
            leb (json_size (final_report (b (backup_opts config scfg)) nightly run_id)) max_body
            ≡ true)
          same (one_file_fits (backup_opts config scfg) run_id h))
      require_known (omega arith)

nightly_succeeds : (run compare_text json_size no_latest one_mode config nightly known_db).0 ≡ ok tt
unfolding run with_lock with_config fetch_config serve_config require_client text_eq client_by_token
    list_clients sort_by text_lt accepts with_mode finish send_status serve_status get_config
    cap_log_tail slug is_valid nat_eq finish_run post_status run_status start_run
    mark_client_running_run_failed record_run update_run build_status final_report mode_of
    running_report decimal
nightly_succeeds = refl

run-told_example :
    (scfg : ConfigResp) × (backup : BackupOpts → BackupResult) × (run_id : ℕ) × ((fetch_config
        compare_text json_size no_latest one_mode config reached known_db).0
      ≡ some scfg)
    × (one_mode (mode_of config scfg) ≡ some backup)
    × ((backup (backup_opts config scfg)).failed ≡ false)
    × (any
          (tells 1 (final_report (backup (backup_opts config scfg)) nightly run_id))
          (run compare_text json_size no_latest one_mode config nightly known_db).1.runs
        ≡ true)
run-told_example =
    run-told compare_text json_size no_latest one_mode config nightly known known_db refl
      require_known nightly_succeeds

run-held_example :
    ((run compare_text json_size no_latest one_mode config overlapping known_db).0 ≡ ok tt)
    × (((run compare_text json_size no_latest one_mode config overlapping known_db).1.runs
          ≡ known_db.runs)
        ⊎ ((r : Run) × ((run compare_text json_size no_latest one_mode config overlapping
                known_db).1.runs
              ≡ known_db.runs ++ r ∷ [])
            × (r.status ≡ RunStatus.overlap)
            × (r.client_id ≡ 1)))
run-held_example =
    run-held compare_text json_size no_latest one_mode config overlapping known known_db refl
      require_known
