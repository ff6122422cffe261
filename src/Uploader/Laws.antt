-- ===== src/Uploader/Laws.antt =====
-- What a run leaves in the runs table.
use backitup.Prelude.{
  ℕ, ◌<◌, ◌≤◌, ◌≡◌, ◌≢◌, refl, inl, inr, Bool, true, false, ◌&&◌, ◌||◌, not, List, [], ◌∷◌, ◌++◌,
  Text, Outcome, Option, none, some, any, update, ◌==◌, nat_eq, text_eq, ltb, leb, arith,
  Bool-cases, if◌then◌else◌, ◌∙◌, ap, subst, sym,
}
use backitup.Model.{Client, Run, RunStatus, Mode}
use backitup.Store.{Db, has_client}
use backitup.Store.Clients.{list_clients}
use backitup.Store.Runs.{
  record_run, update_run, is_running, is_known, mark_client_running_run_failed,
}
use backitup.Store.Runs.Ownership.{any-failed}
use backitup.Server.ClientApi.{
  require_client, client_by_token, get_config, StatusReq, Reply, run_status, finish_run, start_run,
  post_status, record_result,
}
use backitup.Uploader.{
  Config, ConfigResp, BackupOpts, BackupResult, Acquired, Delivery, Trigger, build_status,
  running_report, final_report, max_body, backup_opts, mode_of, run_id_of, exchange, serve_config,
  serve_status, status_reply, fetch_config, send_status, finish, with_mode, with_config, with_lock,
  run,
}

-- Whether a run of the client is running, and whether one is that has not this id.
abbrev pub runs_of : ℕ → List Run → Bool
runs_of c rs = any (λ r. r.client_id == c && is_running r.status) rs

abbrev runs_beside : ℕ → ℕ → List Run → Bool
runs_beside c id rs = any (λ r. r.client_id == c && is_running r.status && not (r.id == id)) rs

none_running_beside :
    (c id : ℕ) (rs : List Run) → runs_of c rs ≡ false → runs_beside c id rs ≡ false
none_running_beside c id [] h = refl
none_running_beside c id (r ∷ rs) h = ground (arith, h, none_running_beside c id rs)

runs_of-snoc :
    (c : ℕ) (q : Run) (rs : List Run)
    → runs_of c rs ≡ false
    → is_running q.status ≡ false
    → runs_of c (rs ++ q ∷ []) ≡ false
runs_of-snoc c q [] h n = ground (arith, n)
runs_of-snoc c q (r ∷ rs) h n = ground (arith, h, n, runs_of-snoc c q rs)

runs_beside-snoc :
    (c id : ℕ) (q : Run) (rs : List Run)
    → runs_of c rs ≡ false
    → q.id ≡ id
    → runs_beside c id (rs ++ q ∷ []) ≡ false
runs_beside-snoc c id q [] h n = ground (arith, n)
runs_beside-snoc c id q (r ∷ rs) h n = ground (arith, h, n, runs_beside-snoc c id q rs)

-- Where no row has the id, and where the row that has it ends.
runs_of-absent :
    (c id : ℕ) (rs : List Run)
    → runs_beside c id rs ≡ false
    → any (λ q. q.id == id && q.client_id == c) rs ≡ false
    → runs_of c rs ≡ false
runs_of-absent c id [] h a = refl
runs_of-absent c id (r ∷ rs) h a = ground (arith, h, a, runs_of-absent c id rs)

or-false : (i c : ℕ) (b : Bool) {x : Bool} → b ≡ false → x ≡ false → (i == c && b || x) ≡ false
or-false i c b h g = ground (arith, h, g)

runs_of-update :
    (c id : ℕ) (f : Run → Run) (rs : List Run)
    → ((r : Run) → is_running (f r).status ≡ false)
    → runs_beside c id rs ≡ false
    → runs_of c (update (λ q. q.id == id && q.client_id == c) f rs) ≡ false
runs_of-update c id f [] n h = refl
runs_of-update c id f (r ∷ rs) n h = elim (Bool-cases (r.id == id && r.client_id == c)) [
  | inl e ↦ rw e (
      let rest : runs_beside c id rs ≡ false = ground (arith, h) in
      or-false (f r).client_id c (is_running (f r).status) (n r) (runs_of-update c id f rs n rest))
  | inr e ↦ rw e (ground (arith, h, e, runs_of-update c id f rs n (ground (arith, h))))
]

-- The final report of a run whose id the client knows.
finish_run-NoneRunning :
    (cl : Client) (req : StatusReq) (st : RunStatus) (now : ℕ) (d : Db)
    → is_running st ≡ false
    → is_known st ≡ true
    → runs_beside cl.id req.run_id d.runs ≡ false
    → runs_of cl.id (finish_run cl req st now d).1.runs ≡ false
unfolding finish_run update_run
finish_run-NoneRunning cl req st now d n k h =
    elim (Bool-cases (any (λ q. q.id == req.run_id && q.client_id == cl.id) d.runs)) [
      | inr e ↦ rw e (runs_of-absent cl.id req.run_id d.runs h e)
      | inl e ↦ rw (e, k) (runs_of-update cl.id req.run_id _ d.runs (λ r. n) h)
    ]

-- The insert of a run that has ended.
start_run-NoneRunning :
    (cl : Client) (req : StatusReq) (st : RunStatus) (finished now : ℕ) (d : Db)
    → is_running st ≡ false
    → runs_of cl.id d.runs ≡ false
    → runs_of cl.id (start_run cl req st finished now d).1.runs ≡ false
unfolding start_run record_run
start_run-NoneRunning cl req st finished now d n h = elim (Bool-cases (is_known st)) [
  | inr e ↦ rw e h
  | inl e ↦ rw e (elim (Bool-cases (has_client d cl.id)) [
    | inr f ↦ rw f h
    | inl f ↦ rw f (runs_of-snoc cl.id _ d.runs h n)
  ])
]

Ended : RunStatus → Type 0
Ended st = (is_running st ≡ false) × (is_known st ≡ true)

record_result-NoneRunning :
    (cl : Client) (req : StatusReq) (st : RunStatus) (now : ℕ) (d : Db)
    → Ended st
    → runs_beside cl.id req.run_id d.runs ≡ false
    → (req.run_id ≡ 0 → runs_of cl.id d.runs ≡ false)
    → runs_of cl.id (record_result cl req st now d).1.runs ≡ false
unfolding Ended
record_result-NoneRunning cl req st now d (n, k) h z = elim (Bool-cases (ltb 0 req.run_id)) [
  | inl e ↦ rw e (finish_run-NoneRunning cl req st now d n k h)
  | inr e ↦ rw e (start_run-NoneRunning cl req st _ now d n (z (ground (arith, e))))
]

-- The report at the end of a run.
post_status-NoneRunning :
    (cl : Client) (res : BackupResult) (t : Trigger) (id now : ℕ) (d : Db)
    → runs_beside cl.id id d.runs ≡ false
    → (id ≡ 0 → runs_of cl.id d.runs ≡ false)
    → runs_of cl.id (post_status cl (some (final_report res t id)) now d).1.runs ≡ false
unfolding post_status final_report build_status run_status text_eq nat_eq Ended finish_run start_run
post_status-NoneRunning cl res t id now d h z = elim (Bool-cases res.failed) [
  | inl e ↦
      rw e (
        record_result-NoneRunning cl (final_report res t id) RunStatus.failed now d (refl, refl) h
          z)
  | inr e ↦
      rw e
        (record_result-NoneRunning cl (final_report res t id) RunStatus.ok now d (refl, refl) h z)
]

-- What the first report leaves: no run that is running, or the one whose id the client knows.
Started : ℕ → Option ℕ × Db → Type 0
Started c r =
    (runs_beside c (run_id_of r.0) r.1.runs ≡ false)
    × (run_id_of r.0 ≡ 0 → runs_of c r.1.runs ≡ false)

Started-none : (c : ℕ) (r : Option ℕ) (d : Db) → runs_of c d.runs ≡ false → Started c (r, d)
unfolding Started
Started-none c r d h = (none_running_beside c (run_id_of r) d.runs h, λ z. h)

start_run-Started :
    (cl : Client) (req : StatusReq) (st : RunStatus) (finished now : ℕ) (d : Db)
    → 0 < d.next_run
    → runs_of cl.id d.runs ≡ false
    → Started cl.id (status_reply (start_run cl req st finished now d))
unfolding start_run record_run Started
start_run-Started cl req st finished now d p h = elim (Bool-cases (is_known st)) [
  | inr e ↦ rw e (Started-none cl.id none d h)
  | inl e ↦ rw e (elim (Bool-cases (has_client d cl.id)) [
    | inr f ↦ rw f (Started-none cl.id none d h)
    | inl f ↦
        rw f (runs_beside-snoc cl.id d.next_run _ d.runs h refl, λ z. absurd (omega (arith, p, z)))
  ])
]

pub start_run-clients :
    (cl : Client) (req : StatusReq) (st : RunStatus) (finished now : ℕ) (d : Db)
    → (start_run cl req st finished now d).1.clients ≡ d.clients
unfolding start_run record_run
start_run-clients cl req st finished now d = elim (Bool-cases (is_known st)) [
  | inr e ↦ rw e refl
  | inl e ↦ rw e (elim (Bool-cases (has_client d cl.id)) [ inr f ↦ rw f refl | inl f ↦ rw f refl ])
]

pub require_client-clients :
    (v : Text → Text → Outcome Text Bool) (token : Text) (d e : Db)
    → d.clients ≡ e.clients
    → require_client v token d ≡ require_client v token e
unfolding require_client client_by_token list_clients
require_client-clients v token d e h = rw h refl

pub status_reply-snd : (r : Reply × Db) → (status_reply r).1 ≡ r.1
status_reply-snd (Reply.created id, d) = refl
status_reply-snd (Reply.bad_request, d) = refl
status_reply-snd (Reply.internal_error, d) = refl

-- The first report, of whatever length, that the server handles.
first_post-Started :
    (cl : Client) (t : Trigger) (fits : Bool) (now : ℕ) (d : Db)
    → 0 < d.next_run
    → runs_of cl.id d.runs ≡ false
    → Started cl.id
        (status_reply (post_status cl (if fits then some (running_report t) else none) now d))
      × ((status_reply
            (post_status cl (if fits then some (running_report t) else none) now d)).1.clients
          ≡ d.clients)
unfolding post_status running_report run_status text_eq nat_eq
first_post-Started cl t false now d p h = (Started-none cl.id none d h, refl)
first_post-Started cl t true now d p h = (
  start_run-Started cl (running_report t) RunStatus.running 0 now d p h,
  rw (status_reply-snd (start_run cl (running_report t) RunStatus.running 0 now d))
      (start_run-clients cl (running_report t) RunStatus.running 0 now d),
)

-- The id that the client reads of the answer to its first report.
start_run-id :
    (cl : Client) (req : StatusReq) (st : RunStatus) (finished now : ℕ) (d : Db)
    → run_id_of (status_reply (start_run cl req st finished now d)).0 ≤ d.next_run
unfolding start_run record_run
start_run-id cl req st finished now d = elim (Bool-cases (is_known st)) [
  | inr e ↦ rw e (omega arith)
  | inl e ↦ rw e (elim (Bool-cases (has_client d cl.id)) [
    | inr f ↦ rw f (omega arith)
    | inl f ↦ rw f (omega arith)
  ])
]

first_post-id :
    (cl : Client) (t : Trigger) (fits : Bool) (now : ℕ) (d : Db)
    → run_id_of
        (status_reply (post_status cl (if fits then some (running_report t) else none) now d)).0
      ≤ d.next_run
unfolding post_status running_report run_status text_eq nat_eq
first_post-id cl t false now d = omega arith
first_post-id cl t true now d = start_run-id cl (running_report t) RunStatus.running 0 now d

exchange_answered {ℓ} :
    {A : Type ℓ} (x : Delivery) (f : Db → Option A × Db) (d : Db)
    → x ≡ Delivery.answered
    → exchange x f d ≡ f d
exchange_answered x f d e = rw e refl

get_config-NoneRunning :
    (cl : Client) (now : ℕ) (d : Db) → runs_of cl.id (get_config cl now d).runs ≡ false
unfolding get_config mark_client_running_run_failed
get_config-NoneRunning cl now d = any-failed cl.id _ d.runs (λ r. refl)

module _ (v : Text → Text → Outcome Text Bool) (size : StatusReq → ℕ) (latest : Text → Bool)
    (modes : Mode → Option (BackupOpts → BackupResult)) where
  pub serve_status_known :
      (cfg : Config) (cl : Client) (req : StatusReq) (now : ℕ) (d : Db)
      → require_client v cfg.token d ≡ some cl
      → serve_status v size latest modes cfg req now d
        ≡ status_reply (post_status cl (if leb (size req) max_body then some req else none) now d)
  unfolding serve_status
  serve_status_known cfg cl req now d q = rw (q, serve_status) refl

  first-Started :
      (cfg : Config) (t : Trigger) (cl : Client) (x : Delivery) (now : ℕ) (d : Db)
      → x ≢ Delivery.reply_lost
      → require_client v cfg.token d ≡ some cl
      → 0 < d.next_run
      → runs_of cl.id d.runs ≡ false
      → Started cl.id (exchange x (serve_status v size latest modes cfg (running_report t) now) d)
        × ((exchange x (serve_status v size latest modes cfg (running_report t) now) d).1.clients
            ≡ d.clients)
  first-Started cfg t cl Delivery.answered now d n q p h =
      rw (serve_status_known cfg cl (running_report t) now d q)
        (first_post-Started cl t (leb (size (running_report t)) max_body) now d p h)
  first-Started cfg t cl Delivery.reply_lost now d n q p h = absurd (n refl)
  first-Started cfg t cl Delivery.request_lost now d n q p h = (Started-none cl.id none d h, refl)

  first-id :
      (cfg : Config) (t : Trigger) (cl : Client) (x : Delivery) (now : ℕ) (d : Db)
      → require_client v cfg.token d ≡ some cl
      → run_id_of (exchange x (serve_status v size latest modes cfg (running_report t) now) d).0
        ≤ d.next_run
  first-id cfg t cl Delivery.answered now d q =
      rw (serve_status_known cfg cl (running_report t) now d q)
        (first_post-id cl t (leb (size (running_report t)) max_body) now d)
  first-id cfg t cl Delivery.reply_lost now d q = omega arith
  first-id cfg t cl Delivery.request_lost now d q = omega arith

  -- The report of the backup with any id that the server can have given is not too long to be read.
  abbrev ReportFits :
      Config → Trigger → ConfigResp → ℕ → Option (BackupOpts → BackupResult) → Type 0
  ReportFits cfg t scfg next m =
      (backup : BackupOpts → BackupResult) (run_id : ℕ)
      → m ≡ some backup
      → run_id ≤ next
      → leb (size (final_report (backup (backup_opts cfg scfg)) t run_id)) max_body ≡ true

  -- The last report, once the server handles it.
  last-NoneRunning :
      (cfg : Config) (t : Trigger) (cl : Client) (res : BackupResult) (r : Option ℕ × Db)
      → t.last_post.delivery ≡ Delivery.answered
      → leb (size (final_report res t (run_id_of r.0))) max_body ≡ true
      → require_client v cfg.token r.1 ≡ some cl
      → Started cl.id r
      → runs_of cl.id (finish v size latest modes cfg t res r).1.runs ≡ false
  unfolding finish send_status Started
  last-NoneRunning cfg t cl res r e fits q (h, z) =
      rw
        (
          exchange_answered t.last_post.delivery
              (serve_status v size latest modes cfg (final_report res t (run_id_of r.0))
                t.last_post.served_at)
              r.1 e,
          serve_status_known cfg cl (final_report res t (run_id_of r.0)) t.last_post.served_at r.1
              q,
          fits,
        )
        (rw
          (status_reply-snd
            (post_status cl (some (final_report res t (run_id_of r.0))) t.last_post.served_at r.1))
          (post_status-NoneRunning cl res t (run_id_of r.0) t.last_post.served_at r.1 h z))

  with_mode-NoneRunning :
      (cfg : Config) (t : Trigger) (cl : Client) (scfg : ConfigResp) (d : Db)
      (m : Option (BackupOpts → BackupResult))
      → t.first_post.delivery ≢ Delivery.reply_lost
      → t.last_post.delivery ≡ Delivery.answered
      → ReportFits cfg t scfg d.next_run m
      → require_client v cfg.token d ≡ some cl
      → 0 < d.next_run
      → runs_of cl.id d.runs ≡ false
      → runs_of cl.id (with_mode v size latest modes cfg t scfg d m).1.runs ≡ false
  unfolding with_mode send_status
  with_mode-NoneRunning cfg t cl scfg d none first last fits q p h = h
  with_mode-NoneRunning cfg t cl scfg d (some backup) first last fits q p h =
      let (started, same) =
        first-Started cfg t cl t.first_post.delivery t.first_post.served_at d first q p h in
      last-NoneRunning cfg t cl (backup (backup_opts cfg scfg))
        (send_status v size latest modes cfg t.first_post (running_report t) d) last
        (fits backup _ refl (first-id cfg t cl t.first_post.delivery t.first_post.served_at d q))
        (require_client-clients v cfg.token _ d same ∙ q) started

  with_config-NoneRunning :
      (cfg : Config) (t : Trigger) (cl : Client) (r : Option ConfigResp × Db)
      → t.first_post.delivery ≢ Delivery.reply_lost
      → t.last_post.delivery ≡ Delivery.answered
      → ((scfg : ConfigResp)
          → r.0 ≡ some scfg
          → ReportFits cfg t scfg r.1.next_run (modes (mode_of cfg scfg)))
      → require_client v cfg.token r.1 ≡ some cl
      → 0 < r.1.next_run
      → runs_of cl.id r.1.runs ≡ false
      → runs_of cl.id (with_config v size latest modes cfg t r).1.runs ≡ false
  unfolding with_config
  with_config-NoneRunning cfg t cl (none, d) first last fits q p h = h
  with_config-NoneRunning cfg t cl (some scfg, d) first last fits q p h =
      with_mode-NoneRunning cfg t cl scfg d (modes (mode_of cfg scfg)) first last (fits scfg refl) q
        p h

  -- The database after the configuration is fetched.
  pub fetch_config_known :
      (cfg : Config) (t : Trigger) (cl : Client) (d : Db)
      → t.fetch.delivery ≡ Delivery.answered
      → require_client v cfg.token d ≡ some cl
      → (fetch_config v size latest modes cfg t.fetch d).1 ≡ get_config cl t.fetch.served_at d
  unfolding fetch_config serve_config
  fetch_config_known cfg t cl d e q =
      rw
        (
          exchange_answered t.fetch.delivery
              (serve_config v size latest modes cfg t.fetch.served_at) d e,
          q,
          serve_config,
        )
        refl

  pub with_lock_taken :
      (cfg : Config) (t : Trigger) (d : Db) (x : Acquired)
      → x ≡ Acquired.taken
      → with_lock v size latest modes cfg t d x
        ≡ with_config v size latest modes cfg t (fetch_config v size latest modes cfg t.fetch d)
  unfolding with_lock
  with_lock_taken cfg t d x e = rw e refl

  -- Where the client takes the lock, a client of the database is known by the token, the requests
  -- for the configuration and of the last report are answered, the answer of the first report is not
  -- lost after the server handled it, the report of the backup is not too long to be read, whichever id
  -- up to the next one it has, and the ids of runs start above 0, then no run of the client is left
  -- running, whatever the backup did and whether it ran.
  pub run-NoneRunning :
      (cfg : Config) (t : Trigger) (cl : Client) (d : Db)
      → t.lock ≡ Acquired.taken
      → t.fetch.delivery ≡ Delivery.answered
      → t.first_post.delivery ≢ Delivery.reply_lost
      → t.last_post.delivery ≡ Delivery.answered
      → ((scfg : ConfigResp)
          → (fetch_config v size latest modes cfg t.fetch d).0 ≡ some scfg
          → ReportFits cfg t scfg d.next_run (modes (mode_of cfg scfg)))
      → require_client v cfg.token d ≡ some cl
      → 0 < d.next_run
      → runs_of cl.id (run v size latest modes cfg t d).1.runs ≡ false
  unfolding run get_config mark_client_running_run_failed
  run-NoneRunning cfg t cl d lock fetch first last fits q p =
      let known = fetch_config_known cfg t cl d fetch q in
      rw (with_lock_taken cfg t d t.lock lock) (
        with_config-NoneRunning cfg t cl (fetch_config v size latest modes cfg t.fetch d) first last
          (λ scfg e.
            subst (λ x. ReportFits cfg t scfg x.next_run (modes (mode_of cfg scfg))) (sym known)
              (fits scfg e))
          (require_client-clients v cfg.token _ d (ap (λ e. e.clients) known) ∙ q)
          (subst (λ e. 0 < e.next_run) (sym known) p)
          (rw known (get_config-NoneRunning cl t.fetch.served_at d)))
