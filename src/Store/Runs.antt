-- ===== src/Store/Runs.antt =====
-- The `runs` table.
pub mod Ownership
pub mod Newest
use backitup.Prelude.{
  ℕ, ◌+◌, ◌-◌, ◌*◌, Bool, true, false, List, [], ◌∷◌, ◌++◌, Option, none, some, Text, Outcome, ok,
  err, any, find, select, update, take, length, sort_by, ◌&&◌, not, ltb, ◌==◌, nat_eq, text_eq,
  if◌then◌else◌, codes,
}
use backitup.Clock.{word, day, times, negate, half_word}
use backitup.Clock.Stamp.{stamp_lt}
use backitup.Model.{Run, RunStatus}
use backitup.Model.LogTail.{cap_log_tail}
use backitup.Store.{Db, Answer, check, foreign_key, not_found, has_client}

abbrev pub is_running : RunStatus → Bool
is_running RunStatus.running = true
is_running _ = false

-- `CHECK (status IN (…))`
abbrev pub is_known : RunStatus → Bool
is_known (RunStatus.unknown s) = false
is_known _ = true

-- Inserts a run with the next id, the log cut to its cap.
unfoldable pub record_run : Run → Db → Answer ℕ
record_run r d =
    if not (is_known r.status)
    then (err check, d)
    else if not (has_client d r.client_id)
    then (err foreign_key, d)
    else (ok d.next_run, record d { runs = d.runs ++ row ∷ []; next_run = d.next_run + 1 })
  where
    row : Run
    row = record r { id = d.next_run; log_tail = cap_log_tail r.log_tail }

-- Overwrites the result of a run of this client; `started_at` stays.
unfoldable pub update_run : ℕ → ℕ → Run → Db → Answer (Unit {0})
update_run id client_id r d =
    if not (any here d.runs)
    then (err not_found, d)
    else if not (is_known r.status)
    then (err check, d)
    else (ok tt, record d { runs = update here finish d.runs })
  where
    here : Run → Bool
    here q = q.id == id && q.client_id == client_id

    finish : Run → Run
    finish q = record q {
      finished_at = r.finished_at;
      status = r.status;
      bytes = r.bytes;
      files = r.files;
      snapshot_id = r.snapshot_id;
      log_tail = cap_log_tail r.log_tail;
    }

-- `ORDER BY started_at DESC`, on the stored texts.
newest_runs : ℕ → Db → List Run
newest_runs client_id d =
    sort_by (λ a b. stamp_lt b.started_at a.started_at)
      (select (λ r. r.client_id == client_id) d.runs)

abbrev pub first {ℓ} : {A : Type ℓ} → List A → Option A
first [] = none
first (x ∷ xs) = some x

unfoldable pub latest_run : ℕ → Db → Option Run
unfolding newest_runs
latest_run client_id d = first (newest_runs client_id d)

unfoldable pub list_runs : ℕ → ℕ → Db → List Run
unfolding newest_runs
list_runs client_id limit d = take limit (newest_runs client_id d)

-- The row of `MAX(started_at)` of each client, as the map from client ids that the caller reads:
-- of rows with one time, the last.
latest_of : ℕ → Option Run → List Run → Option Run
latest_of client_id best [] = best
latest_of client_id best (r ∷ rs) =
    latest_of client_id (if r.client_id == client_id then newer else best) rs
  where
    newer : Option Run
    newer = elim best [
      | none ↦ some r
      | some b ↦ if stamp_lt r.started_at b.started_at then some b else some r
    ]

unfoldable pub latest_run_all_clients : Db → ℕ → Option Run
unfolding latest_of
latest_run_all_clients d client_id = latest_of client_id none d.runs

unfoldable pub get_run : ℕ → Db → Option Run
get_run id d = find (λ r. r.id == id) d.runs

-- How many rows an `UPDATE` or a `DELETE` touches.
abbrev pub rows_affected {ℓ} : {A : Type ℓ} → (A → Bool) → List A → ℕ
rows_affected p xs = length (select p xs)

-- Sets `failed`, the time and a log text on the runs that a test selects.
abbrev fail_runs : (Run → Bool) → ℕ → Text → Db → Db
fail_runs p now message d = record d {
  runs =
      update p (λ r. record r { status = RunStatus.failed; finished_at = now; log_tail = message })
        d.runs;
}

unfoldable pub mark_client_running_run_failed : ℕ → ℕ → Db → Db
mark_client_running_run_failed client_id now =
    fail_runs (λ r. r.client_id == client_id && is_running r.status) now
      (codes "interrupted: client started a new backup without completing the previous run")

unfoldable pub mark_stale_runs_failed : ℕ → ℕ → Db → ℕ × Db
mark_stale_runs_failed older_than now d = (
  rows_affected stale d.runs,
  fail_runs stale now (codes "interrupted: run exceeded maximum allowed duration") d,
)
  where
    stale : Run → Bool
    stale r = is_running r.status && stamp_lt r.started_at older_than

unfoldable pub prune_run_logs : ℕ → Db → ℕ × Db
prune_run_logs older_than d = (
  rows_affected old d.runs,
  record d { runs = update old (λ r. record r { log_tail = [] }) d.runs },
)
  where
    old : Run → Bool
    old r = not (r.log_tail == []) && stamp_lt r.finished_at older_than

-- The time `now` less `keep_days` days, which stops at Go's zero time.
abbrev pub days_before : ℕ → ℕ → ℕ
days_before now keep_days =
    let d = times keep_days day in if ltb d half_word then now - d else now + (word - d)

unfoldable pub prune_runs : ℕ → ℕ → ℕ → Db → ℕ × Db
prune_runs client_id keep_days now d =
    if keep_days == 0
    then (0, d)
    else (rows_affected old d.runs, record d { runs = select (λ r. not (old r)) d.runs })
  where
    old : Run → Bool
    old r = r.client_id == client_id && stamp_lt r.started_at (days_before now keep_days)
