-- ===== src/Store/Runs/Ownership.antt =====
-- Which runs a statement may touch.
use backitup.Prelude.{
  ℕ, ◌+◌, ◌≡◌, ◌≢◌, refl, Bool, true, false, ◌&&◌, not, List, [], ◌∷◌, any, select, update, length,
  arith, ◌==◌, nat_eq, Bool-cases, inl, inr, codes,
}
use backitup.Model.{Run, RunStatus}
use backitup.Model.LogTail.{cap_log_tail}
use backitup.Store.{Db}
use backitup.Store.Runs.{
  update_run, mark_client_running_run_failed, prune_runs, is_running, is_known,
}

-- The runs of another client, through an update of selected runs of this one.
select-update_other :
    (client_id other : ℕ) (p : Run → Bool) (f : Run → Run) (rs : List Run)
    → ((r : Run) → p r ≡ true → r.client_id ≡ client_id)
    → ((r : Run) → (f r).client_id ≡ r.client_id)
    → client_id ≢ other
    → select (λ r. r.client_id == other) (update p f rs) ≡ select (λ r. r.client_id == other) rs
select-update_other c other p f [] own same n = refl
select-update_other c other p f (r ∷ rs) own same n =
    ground (arith, own r, same r, n, select-update_other c other p f rs own same n)

-- A client that reports the result of a run, with whatever id, changes no other client's runs.
pub update_run-other :
    (id client_id other : ℕ) (r : Run) (d : Db)
    → client_id ≢ other
    → select (λ q. q.client_id == other) (update_run id client_id r d).1.runs
      ≡ select (λ q. q.client_id == other) d.runs
unfolding update_run
update_run-other id client_id other r d n =
    elim (Bool-cases (any (λ q. q.id == id && q.client_id == client_id) d.runs)) [
      | inr e ↦ rw e refl
      | inl e ↦ rw e (elim (Bool-cases (is_known r.status)) [
        | inr f ↦ rw f refl
        | inl f ↦ rw f (
            select-update_other client_id other (λ q. q.id == id && q.client_id == client_id)
              (λ q. record q {
                finished_at = r.finished_at;
                status = r.status;
                bytes = r.bytes;
                files = r.files;
                snapshot_id = r.snapshot_id;
                log_tail = cap_log_tail r.log_tail;
              })
              d.runs (λ q h. ground (arith, h)) (λ q. refl) n)
      ])
    ]

pub any-failed :
    (client_id : ℕ) (f : Run → Run) (rs : List Run)
    → ((r : Run) → (f r).status ≡ RunStatus.failed)
    → any
        (λ r. r.client_id == client_id && is_running r.status)
        (update (λ r. r.client_id == client_id && is_running r.status) f rs)
      ≡ false
any-failed client_id f [] h = refl
any-failed client_id f (r ∷ rs) h = ground (arith, h r, any-failed client_id f rs h)

-- When a client starts a backup, none of its runs is left running, and no other client's changes.
pub mark_client_running_run_failed-other :
    (client_id other now : ℕ) (d : Db)
    → client_id ≢ other
    → (any
          (λ r. r.client_id == client_id && is_running r.status)
          (mark_client_running_run_failed client_id now d).runs
        ≡ false)
      × (select (λ r. r.client_id == other) (mark_client_running_run_failed client_id now d).runs
          ≡ select (λ r. r.client_id == other) d.runs)
unfolding mark_client_running_run_failed
mark_client_running_run_failed-other client_id other now d n = (
  any-failed client_id _ d.runs (λ r. refl),
  select-update_other client_id other (λ r. r.client_id == client_id && is_running r.status)
      (λ r. record r {
        status = RunStatus.failed;
        finished_at = now;
        log_tail =
            codes "interrupted: client started a new backup without completing the previous run";
      })
      d.runs (λ r h. ground (arith, h)) (λ r. refl) n,
)

select_split :
    (p : Run → Bool) (rs : List Run)
    → length (select p rs) + length (select (λ r. not (p r)) rs) ≡ length rs
select_split p [] = refl
select_split p (r ∷ rs) = ground (arith, select_split p rs)

-- The number that the pruning of runs returns is that of the runs that it removed.
pub length-prune_runs :
    (client_id keep_days now : ℕ) (d : Db)
    → (prune_runs client_id keep_days now d).0
        + length (prune_runs client_id keep_days now d).1.runs
      ≡ length d.runs
unfolding prune_runs
length-prune_runs client_id keep_days now d = elim (Bool-cases (keep_days == 0)) [
  | inl e ↦ rw e (omega arith)
  | inr e ↦ rw e (select_split _ d.runs)
]
