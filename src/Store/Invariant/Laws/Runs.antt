-- ===== src/Store/Invariant/Laws/Runs.antt =====
-- The statements on runs keep the database well-formed.
use backitup.Prelude.{
  ℕ, ◌+◌, ◌≤◌, ◌<◌, ◌≡◌, refl, Bool, true, not, any, inl, inr, length, update, ◌==◌, nat_eq, ◌&&◌,
  Bool-cases, arith, [], ◌∷◌, ◌++◌,
}
use backitup.Prelude.Rows.{All-snoc, All-select, All-update, DistinctBy-select, DistinctBy-update}
use backitup.Model.{Run}
use backitup.Model.LogTail.{max_log_tail, cap_log_tail, length-cap_log_tail}
use backitup.Store.{Db, has_client}
use backitup.Store.Runs.{
  is_known, record_run, update_run, mark_client_running_run_failed, mark_stale_runs_failed,
  prune_run_logs, prune_runs,
}
use backitup.Store.Invariant.{IsSound}
use backitup.Store.Invariant.Tables.{fresh-snoc}

module _ (d : Db) (v : IsSound d) where
  -- An update of runs that keeps ids and owners, and the cap on the log.
  update_runs-IsSound :
      (p : Run → Bool) (f : Run → Run)
      → ((r : Run) → (f r).id ≡ r.id)
      → ((r : Run) → (f r).client_id ≡ r.client_id)
      → ((r : Run) → length r.log_tail ≤ max_log_tail → length (f r).log_tail ≤ max_log_tail)
      → IsSound (record d { runs = update p f d.runs })
  update_runs-IsSound p f same_id same_owner fits = record {
    clients = v.clients;
    runs = record {
      fresh = All-update (λ r. r.id < d.next_run) p f d.runs (λ r h. rw (same_id r) h) v.runs.fresh;
      ids = DistinctBy-update (λ r. r.id) p f d.runs same_id v.runs.ids;
      owned =
          All-update (λ r. has_client d r.client_id ≡ true) p f d.runs (λ r h. rw (same_owner r) h)
            v.runs.owned;
      capped = All-update (λ r. length r.log_tail ≤ max_log_tail) p f d.runs fits v.runs.capped;
    };
    objects = v.objects;
    sessions = v.sessions;
    users = v.users;
    remotes = v.remotes;
  }

  pub record_run-IsSound : (r : Run) → IsSound (record_run r d).1
  unfolding record_run
  record_run-IsSound r = elim (Bool-cases (not (is_known r.status))) [
    | inl bad ↦ rw bad v
    | inr known ↦ rw known (elim (Bool-cases (has_client d r.client_id)) [
      | inl owned ↦ rw owned (inserted owned)
      | inr absent ↦ rw absent v
    ])
  ]
    where
      row : Run
      row = record r { id = d.next_run; log_tail = cap_log_tail r.log_tail }

      inserted :
          has_client d r.client_id ≡ true
          → IsSound (record d { runs = d.runs ++ row ∷ []; next_run = d.next_run + 1 })
      inserted owned =
          let (fresh, ids) =
            fresh-snoc (λ q. q.id) d.runs d.next_run row refl v.runs.fresh v.runs.ids in
          record {
            clients = v.clients;
            runs = record {
              fresh = fresh;
              ids = ids;
              owned = All-snoc (λ q. has_client d q.client_id ≡ true) d.runs row v.runs.owned owned;
              capped =
                  All-snoc (λ q. length q.log_tail ≤ max_log_tail) d.runs row v.runs.capped
                    (length-cap_log_tail r.log_tail);
            };
            objects = v.objects;
            sessions = v.sessions;
            users = v.users;
            remotes = v.remotes;
          }

  pub update_run-IsSound : (id client_id : ℕ) (r : Run) → IsSound (update_run id client_id r d).1
  unfolding update_run
  update_run-IsSound id client_id r =
      elim (Bool-cases (any (λ q. q.id == id && q.client_id == client_id) d.runs)) [
        | inr absent ↦ rw absent v
        | inl found ↦ rw found (elim (Bool-cases (not (is_known r.status))) [
          | inl bad ↦ rw bad v
          | inr known ↦ rw known (
              update_runs-IsSound _ _ (λ q. refl) (λ q. refl)
                (λ q h. length-cap_log_tail r.log_tail))
        ])
      ]

  pub mark_client_running_run_failed-IsSound :
      (client_id now : ℕ) → IsSound (mark_client_running_run_failed client_id now d)
  unfolding mark_client_running_run_failed
  mark_client_running_run_failed-IsSound client_id now =
      update_runs-IsSound _ _ (λ q. refl) (λ q. refl) (λ q h. omega arith)

  pub mark_stale_runs_failed-IsSound :
      (older_than now : ℕ) → IsSound (mark_stale_runs_failed older_than now d).1
  unfolding mark_stale_runs_failed
  mark_stale_runs_failed-IsSound older_than now =
      update_runs-IsSound _ _ (λ q. refl) (λ q. refl) (λ q h. omega arith)

  pub prune_run_logs-IsSound : (older_than : ℕ) → IsSound (prune_run_logs older_than d).1
  unfolding prune_run_logs
  prune_run_logs-IsSound older_than =
      update_runs-IsSound _ _ (λ q. refl) (λ q. refl) (λ q h. omega arith)

  pub prune_runs-IsSound : (client_id keep now : ℕ) → IsSound (prune_runs client_id keep now d).1
  unfolding prune_runs
  prune_runs-IsSound client_id keep now = elim (Bool-cases (keep == 0)) [
    | inl all ↦ rw all v
    | inr bounded ↦ rw bounded (record {
      clients = v.clients;
      runs = record {
        fresh = All-select (λ r. r.id < d.next_run) _ d.runs v.runs.fresh;
        ids = DistinctBy-select (λ r. r.id) _ d.runs v.runs.ids;
        owned = All-select (λ r. has_client d r.client_id ≡ true) _ d.runs v.runs.owned;
        capped = All-select (λ r. length r.log_tail ≤ max_log_tail) _ d.runs v.runs.capped;
      };
      objects = v.objects;
      sessions = v.sessions;
      users = v.users;
      remotes = v.remotes;
    })
  ]
