-- ===== src/Server/ClientApi.antt =====
-- internal/server/client_api.go: what a client calls. `auth.VerifyPassword` is a parameter; a request is
-- given as its decoded body, `none` where the decoder refuses it, with numbers that are not negative.
-- A token is its bytes.
pub mod Laws
use backitup.Prelude.{
  ℕ, Bool, true, false, ◌&&◌, ◌||◌, not, List, [], ◌∷◌, Text, Outcome, ok, err, Option, none, some,
  find, take, length, leb, ltb, ◌==◌, nat_eq, text_eq, if◌then◌else◌, codes,
}
use backitup.Model.{Client, Run, RunStatus}
use backitup.Store.{Db, DbError, Answer}
use backitup.Store.Clients.{list_clients}
use backitup.Store.Runs.{record_run, update_run, mark_client_running_run_failed}

module _ (verify_password : Text → Text → Outcome Text Bool) where
  abbrev pub is_verified : Outcome Text Bool → Bool
  is_verified (ok b) = b
  is_verified (err e) = false

  abbrev pub prefix_of : Text → Text
  prefix_of token = if leb 8 (length token) then take 8 token else []

  -- The tests of the loop over the clients.
  unfoldable pub accepts : Text → Client → Bool
  accepts token c =
      c.enabled
      && not (c.token_hash == [])
      && (c.token_prefix == [] || c.token_prefix == prefix_of token)
      && is_verified (verify_password token c.token_hash)

  unfoldable pub client_by_token : Text → Db → Option Client
  client_by_token token d = find (accepts token) (list_clients d)

  -- The bearer token is empty where the header has none; `none` is the answer 401.
  unfoldable pub require_client : Text → Db → Option Client
  require_client token d = if token == [] then none else client_by_token token d

-- The write of `getConfig`, whose answer is the client's settings.
unfoldable pub get_config : Client → ℕ → Db → Db
get_config cl now d = mark_client_running_run_failed cl.id now d

pub record StatusReq : Type 0 where
  pub status : Text
  pub run_id : ℕ
  pub bytes : ℕ
  pub files : ℕ
  pub snapshot_id : Text
  pub started_at : ℕ
  pub finished_at : ℕ
  pub log_tail : Text

pub data Reply : Type 0 where
  created : ℕ → Reply
  bad_request internal_error : Reply

-- `model.RunStatus(req.Status)`
unfoldable pub run_status : Text → RunStatus
run_status s =
    if s == codes "ok"
    then RunStatus.ok
    else if s == codes "failed"
    then RunStatus.failed
    else if s == codes "overlap"
    then RunStatus.overlap
    else if s == codes "running"
    then RunStatus.running
    else RunStatus.unknown s

abbrev pub or_now : ℕ → ℕ → ℕ
or_now now t = if t == 0 then now else t

-- The run that a report describes, with its times.
abbrev pub reported : Client → StatusReq → RunStatus → ℕ → ℕ → Run
reported cl req st started finished = record {
  id = 0;
  client_id = cl.id;
  started_at = started;
  finished_at = finished;
  status = st;
  bytes = req.bytes;
  files = req.files;
  snapshot_id = req.snapshot_id;
  log_tail = req.log_tail;
}

-- The update of a run that the client started.
unfoldable pub finish_run : Client → StatusReq → RunStatus → ℕ → Db → Reply × Db
finish_run cl req st now d =
    answer (update_run req.run_id cl.id (reported cl req st 0 (or_now now req.finished_at)) d)
  where
    answer : Answer (Unit {0}) → Reply × Db
    answer (ok u, d') = (created req.run_id, d')
    answer (err e, d') = (internal_error, d')

-- The insert of a run; one that is running has no end.
unfoldable pub start_run : Client → StatusReq → RunStatus → ℕ → ℕ → Db → Reply × Db
start_run cl req st finished now d =
    answer (record_run (reported cl req st (or_now now req.started_at) finished) d)
  where
    answer : Answer ℕ → Reply × Db
    answer (ok id, d') = (created id, d')
    answer (err e, d') = (internal_error, d')

-- A status other than `running` finishes the run that the report names, or inserts one.
abbrev pub record_result : Client → StatusReq → RunStatus → ℕ → Db → Reply × Db
record_result cl req st now d =
    if ltb 0 req.run_id
    then finish_run cl req st now d
    else start_run cl req st (or_now now req.finished_at) now d

unfoldable pub post_status : Client → Option StatusReq → ℕ → Db → Reply × Db
unfolding run_status
post_status cl none now d = (bad_request, d)
post_status cl (some req) now d = by_status (run_status req.status)
  where
    by_status : RunStatus → Reply × Db
    by_status (RunStatus.unknown s) = (bad_request, d)
    by_status RunStatus.running = start_run cl req RunStatus.running req.finished_at now d
    by_status RunStatus.ok = record_result cl req RunStatus.ok now d
    by_status RunStatus.failed = record_result cl req RunStatus.failed now d
    by_status RunStatus.overlap = record_result cl req RunStatus.overlap now d
