-- ===== src/Server/ClientApi/Laws.antt =====
-- Whom a token lets in, and what a client can write.
use backitup.Prelude.{
  ℕ, ◌≡◌, ◌≢◌, refl, inl, inr, Bool, true, false, List, [], ◌∷◌, ◌++◌, Text, Outcome, ok, err,
  Option, none, some, All, select, arith, if◌then◌else◌, ◌==◌, nat_eq, text_eq, ltb, Bool-cases,
}
use backitup.Prelude.Rows.{find-some, find-none}
use backitup.Model.{Client, Run, RunStatus}
use backitup.Store.{Db, has_client}
use backitup.Store.Clients.{list_clients}
use backitup.Store.Runs.{record_run, is_known}
use backitup.Store.Runs.Ownership.{update_run-other}
use backitup.Server.ClientApi.{
  accepts, is_verified, client_by_token, require_client, StatusReq, Reply, reported, run_status,
  finish_run, start_run, post_status, record_result,
}

is_verified_of :
    (v : Text → Text → Outcome Text Bool) (r : Outcome Text Bool)
    → is_verified v r ≡ true
    → r ≡ ok true
is_verified_of v (ok b) h = ground (arith, h)
is_verified_of v (err e) h = cc

accepts_lem :
    (v : Text → Text → Outcome Text Bool) (token : Text) (c : Client)
    → accepts v token c ≡ true
    → (c.enabled ≡ true) × (c.token_hash ≢ []) × (is_verified v (v token c.token_hash) ≡ true)
unfolding accepts
accepts_lem v token c h = (ground (arith, h), ground (arith, h), ground (arith, h))

-- A request that passes as a client carries a token that is not empty and that the client's hash,
-- which is not empty, verifies, and the client is enabled; where a request with a token that is not
-- empty is refused, no client of the database accepts the token.
pub require_client_lem :
    (verify_password : Text → Text → Outcome Text Bool) (token : Text) (d : Db)
    → ((c : Client)
        → require_client verify_password token d ≡ some c
        → (token ≢ [])
          × (c.enabled ≡ true)
          × (c.token_hash ≢ [])
          × (verify_password token c.token_hash ≡ ok true))
      × (require_client verify_password token d ≡ none
          → token ≢ []
          → All (λ c. accepts verify_password token c ≡ false) (list_clients d))
unfolding require_client client_by_token accepts
require_client_lem v token d = (
  λ c h. elim (Bool-cases (token == [])) [
    | inl e ↦ ground (arith, h, e)
    | inr e ↦
        let (enabled, hash, ver) =
          accepts_lem v token c
            (find-some (accepts v token) (list_clients d) c (ground (arith, h, e))) in
        (ground (arith, e), enabled, hash, is_verified_of v (v token c.token_hash) ver)
  ],
  λ h n. find-none (accepts v token) (list_clients d) (ground (arith, h, n)),
)

select-snoc_other :
    (other : ℕ) (qs : List Run) (q : Run)
    → q.client_id ≢ other
    → select (λ r. r.client_id == other) (qs ++ q ∷ []) ≡ select (λ r. r.client_id == other) qs
select-snoc_other other [] q n = ground (arith, n)
select-snoc_other other (x ∷ xs) q n = ground (arith, select-snoc_other other xs q n)

record_run-other :
    (other : ℕ) (r : Run) (d : Db)
    → r.client_id ≢ other
    → select (λ q. q.client_id == other) (record_run r d).1.runs
      ≡ select (λ q. q.client_id == other) d.runs
unfolding record_run
record_run-other other r d n = elim (Bool-cases (is_known r.status)) [
  | inr e ↦ rw e refl
  | inl e ↦ rw e (elim (Bool-cases (has_client d r.client_id)) [
    | inr f ↦ rw f refl
    | inl f ↦ rw f (select-snoc_other other d.runs _ n)
  ])
]

-- The rows of another client, of an answer.
abbrev other_runs : ℕ → Reply × Db → List Run
other_runs other r = select (λ q. q.client_id == other) r.1.runs

start_run-other :
    (cl : Client) (req : StatusReq) (st : RunStatus) (finished now other : ℕ) (d : Db)
    → cl.id ≢ other
    → other_runs other (start_run cl req st finished now d)
      ≡ select (λ q. q.client_id == other) d.runs
unfolding start_run
start_run-other cl req st finished now other d n = ground (
  arith,
  record_run-other other
      (reported cl req st (if req.started_at == 0 then now else req.started_at) finished) d n,
)

finish_run-other :
    (cl : Client) (req : StatusReq) (st : RunStatus) (now other : ℕ) (d : Db)
    → cl.id ≢ other
    → other_runs other (finish_run cl req st now d) ≡ select (λ q. q.client_id == other) d.runs
unfolding finish_run
finish_run-other cl req st now other d n = ground (
  arith,
  update_run-other req.run_id cl.id other
      (reported cl req st 0 (if req.finished_at == 0 then now else req.finished_at)) d n,
)

record_result-other :
    (cl : Client) (req : StatusReq) (st : RunStatus) (now other : ℕ) (d : Db)
    → cl.id ≢ other
    → other_runs other (record_result cl req st now d) ≡ select (λ q. q.client_id == other) d.runs
record_result-other cl req st now other d n = elim (Bool-cases (ltb 0 req.run_id)) [
  | inl e ↦ rw e (finish_run-other cl req st now other d n)
  | inr e ↦ rw e (
      start_run-other cl req st (if req.finished_at == 0 then now else req.finished_at) now other d
        n)
]

-- A report of a client, whatever it says, changes no run of another client.
pub post_status-other :
    (cl : Client) (req : Option StatusReq) (now other : ℕ) (d : Db)
    → cl.id ≢ other
    → select (λ q. q.client_id == other) (post_status cl req now d).1.runs
      ≡ select (λ q. q.client_id == other) d.runs
unfolding post_status
post_status-other cl none now other d n = refl
post_status-other cl (some req) now other d n = by_status (run_status req.status) refl
  where
    by_status :
        (st : RunStatus)
        → run_status req.status ≡ st
        → other_runs other (post_status cl (some req) now d)
          ≡ select (λ q. q.client_id == other) d.runs
    by_status (RunStatus.unknown s) e = rw e refl
    by_status RunStatus.running e =
        rw e (start_run-other cl req RunStatus.running req.finished_at now other d n)
    by_status RunStatus.ok e = rw e (record_result-other cl req RunStatus.ok now other d n)
    by_status RunStatus.failed e = rw e (record_result-other cl req RunStatus.failed now other d n)
    by_status RunStatus.overlap e =
        rw e (record_result-other cl req RunStatus.overlap now other d n)
