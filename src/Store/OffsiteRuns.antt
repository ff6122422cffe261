-- ===== src/Store/OffsiteRuns.antt =====
-- The `offsite_runs` table: upload sessions.
use backitup.Prelude.{
  ℕ, ◌+◌, Bool, List, [], ◌∷◌, ◌++◌, Text, ok, err, any, select, update, take, sort_by, ◌&&◌, not,
  ◌==◌, nat_eq, text_eq, if◌then◌else◌, codes,
}
use backitup.Clock.Stamp.{stamp_lt}
use backitup.Model.{OffsiteRun}
use backitup.Store.{Db, Answer, foreign_key, has_client}

-- The insert that both ways of recording a session share.
unfoldable pub insert_offsite_run : OffsiteRun → Db → Answer ℕ
insert_offsite_run r d = if not (has_client d r.client_id) then (err foreign_key, d) else (
  ok d.next_offsite_run,
  record d {
    offsite_runs = d.offsite_runs ++ record r { id = d.next_offsite_run } ∷ [];
    next_offsite_run = d.next_offsite_run + 1;
  },
)

abbrev pub running_session : ℕ → Text → ℕ → OffsiteRun
running_session client_id triggered_by started_at = record {
  id = 0;
  client_id = client_id;
  triggered_by = triggered_by;
  started_at = started_at;
  finished_at = 0;
  status = codes "running";
  snapshots_uploaded = 0;
  bytes_uploaded = 0;
  error_text = [];
}

unfoldable pub start_offsite_run : ℕ → Text → ℕ → Db → Answer ℕ
unfolding insert_offsite_run
start_offsite_run client_id triggered_by started_at =
    insert_offsite_run (running_session client_id triggered_by started_at)

unfoldable pub finish_offsite_run : ℕ → Text → ℕ → ℕ → Text → ℕ → Db → Db
finish_offsite_run id status snaps bytes err_text finished_at d = record d {
  offsite_runs =
      update (λ r. r.id == id)
        (λ r. record r {
          status = status;
          snapshots_uploaded = snaps;
          bytes_uploaded = bytes;
          error_text = err_text;
          finished_at = finished_at;
        })
        d.offsite_runs;
}

unfoldable pub mark_stale_offsite_runs_failed : Db → Db
mark_stale_offsite_runs_failed d = record d {
  offsite_runs =
      update (λ r. r.status == codes "running")
        (λ r. record r {
          status = codes "failed";
          error_text = codes "interrupted by server restart";
        })
        d.offsite_runs;
}

unfoldable pub running_offsite_client_ids : Db → ℕ → Bool
running_offsite_client_ids d client_id =
    any (λ r. r.client_id == client_id && r.status == codes "running") d.offsite_runs

unfoldable pub record_offsite_run : OffsiteRun → Db → Answer ℕ
unfolding insert_offsite_run
record_offsite_run r = insert_offsite_run r

unfoldable pub list_offsite_runs : ℕ → ℕ → Db → List OffsiteRun
list_offsite_runs client_id limit d = take limit (
    sort_by (λ a b. stamp_lt b.started_at a.started_at)
      (select (λ r. r.client_id == client_id) d.offsite_runs))
