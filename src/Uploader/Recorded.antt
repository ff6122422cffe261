-- ===== src/Uploader/Recorded.antt =====
-- What the success of a run says of the runs table, and what an overlap leaves there.
use backitup.Prelude.{
  ℕ, ◌≡◌, refl, ◌⊎◌, inl, inr, Bool, true, false, ◌&&◌, List, [], ◌∷◌, ◌++◌, Text, Outcome, ok,
  Option, none, some, any, update, ◌==◌, nat_eq, text_eq, ltb, leb, arith, Bool-cases,
  if◌then◌else◌, ◌∙◌, ap, sym,
}
use backitup.Model.{Client, Run, RunStatus, Mode}
use backitup.Store.{Db, has_client}
use backitup.Store.Runs.{record_run, update_run, mark_client_running_run_failed}
use backitup.Server.ClientApi.{
  require_client, get_config, StatusReq, Reply, run_status, finish_run, start_run, post_status,
  record_result, or_now,
}
use backitup.Uploader.{
  Config, ConfigResp, BackupOpts, BackupResult, Acquired, Delivery, Trigger, build_status,
  running_report, final_report, overlap_report, max_body, backup_opts, mode_of, run_id_of,
  result_of, exchange, serve_status, serve_config, status_reply, fetch_config, send_status, finish,
  with_mode, with_config, with_lock, run,
}
use backitup.Uploader.Laws.{
  start_run-clients, require_client-clients, with_lock_taken, serve_status_known, status_reply-snd,
}

abbrev pub is_ok : RunStatus → Bool
is_ok RunStatus.ok = true
is_ok _ = false

-- A run of the client that is ok and has the figures of the report.
abbrev pub tells : ℕ → StatusReq → Run → Bool
tells c req r =
    r.client_id == c
    && (is_ok r.status
        && (r.bytes == req.bytes && (r.files == req.files && r.snapshot_id == req.snapshot_id)))

any-snoc : (p : Run → Bool) (q : Run) (rs : List Run) → p q ≡ true → any p (rs ++ q ∷ []) ≡ true
any-snoc p q [] h = ground (arith, h)
any-snoc p q (r ∷ rs) h = ground (arith, any-snoc p q rs h)

any-update :
    (here p : Run → Bool) (f : Run → Run) (rs : List Run)
    → ((r : Run) → here r ≡ true → p (f r) ≡ true)
    → any here rs ≡ true
    → any p (update here f rs) ≡ true
any-update here p f [] h a = a
any-update here p f (r ∷ rs) h a = elim (Bool-cases (here r)) [
  | inl e ↦ rw (e, h r e) refl
  | inr e ↦ rw e (ground (arith, any-update here p f rs h (ground (arith, a, e))))
]

same_text : (s : Text) → (s == s) ≡ true
same_text s = ground (arith)

same_nat : (n : ℕ) → (n == n) ≡ true
same_nat n = ground (arith)

same_fields :
    (x c b f : ℕ) (s : Text) → x ≡ c → (x == c && (true && (b == b && (f == f && s == s)))) ≡ true
same_fields x c b f s e = rw (e, same_nat c, same_nat b, same_nat f, same_text s) refl

IsTold : ℕ → StatusReq → Reply × Db → Type 0
IsTold c req r = (id : ℕ) → r.0 ≡ Reply.created id → any (tells c req) r.1.runs ≡ true

finish_run-IsTold :
    (cl : Client) (req : StatusReq) (now : ℕ) (d : Db)
    → IsTold cl.id req (finish_run cl req RunStatus.ok now d)
unfolding IsTold finish_run update_run
finish_run-IsTold cl req now d =
    elim (Bool-cases (any (λ q. q.id == req.run_id && q.client_id == cl.id) d.runs)) [
      | inr e ↦ rw e (λ id h. absurd (cc))
      | inl e ↦ rw e (λ id h.
          any-update (λ q. q.id == req.run_id && q.client_id == cl.id) (tells cl.id req) _ d.runs
            (λ r own.
              same_fields r.client_id cl.id req.bytes req.files req.snapshot_id
                (ground (arith, own)))
            e)
    ]

start_run-IsTold :
    (cl : Client) (req : StatusReq) (finished now : ℕ) (d : Db)
    → IsTold cl.id req (start_run cl req RunStatus.ok finished now d)
unfolding IsTold start_run record_run
start_run-IsTold cl req finished now d = elim (Bool-cases (has_client d cl.id)) [
  | inr e ↦ rw e (λ id h. absurd (cc))
  | inl e ↦ rw e (λ id h.
      any-snoc (tells cl.id req) _ d.runs
        (same_fields cl.id cl.id req.bytes req.files req.snapshot_id refl))
]

record_result-IsTold :
    (cl : Client) (req : StatusReq) (now : ℕ) (d : Db)
    → IsTold cl.id req (record_result cl req RunStatus.ok now d)
record_result-IsTold cl req now d = elim (Bool-cases (ltb 0 req.run_id)) [
  | inl e ↦ rw e (finish_run-IsTold cl req now d)
  | inr e ↦ rw e (start_run-IsTold cl req _ now d)
]

-- The last report, which the server accepted, of a backup that succeeded.
post_status-IsTold :
    (cl : Client) (res : BackupResult) (t : Trigger) (id now : ℕ) (d : Db)
    → res.failed ≡ false
    → IsTold cl.id (final_report res t id) (post_status cl (some (final_report res t id)) now d)
unfolding post_status final_report build_status run_status text_eq nat_eq finish_run start_run
    IsTold
post_status-IsTold cl res t id now d e =
    rw e (record_result-IsTold cl (final_report res t id) now d)

status_reply-some :
    (c id : ℕ) (req : StatusReq) (r : Reply × Db)
    → IsTold c req r
    → (status_reply r).0 ≡ some id
    → any (tells c req) (status_reply r).1.runs ≡ true
unfolding IsTold
status_reply-some c id req (Reply.created k, d) told h = told k refl
status_reply-some c id req (Reply.bad_request, d) told h = absurd (cc)
status_reply-some c id req (Reply.internal_error, d) told h = absurd (cc)

result_of-ok :
    (b : Bool) (r : Option ℕ) → result_of b r ≡ ok tt → (b ≡ false) × (id : ℕ) × (r ≡ some id)
result_of-ok true r h = absurd (cc)
result_of-ok false none h = absurd (cc)
result_of-ok false (some id) h = (refl, id, refl)

first_post-clients :
    (cl : Client) (t : Trigger) (fits : Bool) (now : ℕ) (d : Db)
    → (status_reply
        (post_status cl (if fits then some (running_report t) else none) now d)).1.clients
      ≡ d.clients
unfolding post_status running_report run_status text_eq nat_eq
first_post-clients cl t false now d = refl
first_post-clients cl t true now d =
    rw (status_reply-snd (start_run cl (running_report t) RunStatus.running 0 now d))
      (start_run-clients cl (running_report t) RunStatus.running 0 now d)

sized-told :
    (cl : Client) (res : BackupResult) (t : Trigger) (id k : ℕ) (fits : Bool) (now : ℕ) (d : Db)
    → res.failed ≡ false
    → (status_reply (post_status cl (if fits then some (final_report res t id) else none) now d)).0
      ≡ some k
    → any
        (tells cl.id (final_report res t id))
        (status_reply
          (post_status cl (if fits then some (final_report res t id) else none) now d)).1.runs
      ≡ true
unfolding post_status
sized-told cl res t id k false now d f h = absurd (cc)
sized-told cl res t id k true now d f h =
    status_reply-some cl.id k (final_report res t id)
      (post_status cl (some (final_report res t id)) now d) (post_status-IsTold cl res t id now d f)
      h

-- The runs after an overlap.
Appended : Client → List Run → List Run → Type 0
Appended cl before after =
    (after ≡ before)
    ⊎ ((r : Run) × (after ≡ before ++ r ∷ [])
        × (r.status ≡ RunStatus.overlap)
        × (r.client_id ≡ cl.id))

start_run-overlap :
    (cl : Client) (req : StatusReq) (finished now : ℕ) (d : Db)
    → Appended cl d.runs (start_run cl req RunStatus.overlap finished now d).1.runs
unfolding Appended start_run record_run
start_run-overlap cl req finished now d = elim (Bool-cases (has_client d cl.id)) [
  | inr e ↦ rw e (inl refl)
  | inl e ↦ rw e (inr (_, refl, refl, refl))
]

overlap-Appended :
    (cl : Client) (t : Trigger) (fits : Bool) (now : ℕ) (d : Db)
    → Appended cl d.runs
        (status_reply
          (post_status cl (if fits then some (overlap_report t) else none) now d)).1.runs
unfolding Appended post_status overlap_report run_status text_eq nat_eq
overlap-Appended cl t false now d = inl refl
overlap-Appended cl t true now d =
    rw
      (status_reply-snd
        (start_run cl (overlap_report t) RunStatus.overlap (or_now now t.started) now d))
      (start_run-overlap cl (overlap_report t) (or_now now t.started) now d)

module _ (v : Text → Text → Outcome Text Bool) (size : StatusReq → ℕ) (latest : Text → Bool)
    (modes : Mode → Option (BackupOpts → BackupResult)) where
  first-clients :
      (cfg : Config) (t : Trigger) (cl : Client) (x : Delivery) (now : ℕ) (d : Db)
      → require_client v cfg.token d ≡ some cl
      → (exchange x (serve_status v size latest modes cfg (running_report t) now) d).1.clients
        ≡ d.clients
  first-clients cfg t cl Delivery.answered now d q =
      rw (serve_status_known v size latest modes cfg cl (running_report t) now d q)
        (first_post-clients cl t (leb (size (running_report t)) max_body) now d)
  first-clients cfg t cl Delivery.reply_lost now d q =
      rw (serve_status_known v size latest modes cfg cl (running_report t) now d q)
        (first_post-clients cl t (leb (size (running_report t)) max_body) now d)
  first-clients cfg t cl Delivery.request_lost now d q = refl

  last-told :
      (cfg : Config) (t : Trigger) (cl : Client) (res : BackupResult) (run_id k : ℕ) (x : Delivery)
      (now : ℕ) (d : Db)
      → require_client v cfg.token d ≡ some cl
      → res.failed ≡ false
      → (exchange x (serve_status v size latest modes cfg (final_report res t run_id) now) d).0
        ≡ some k
      → any
          (tells cl.id (final_report res t run_id))
          (exchange x
            (serve_status v size latest modes cfg (final_report res t run_id) now)
            d).1.runs
        ≡ true
  last-told cfg t cl res run_id k Delivery.answered now d q f h =
      let known =
        serve_status_known v size latest modes cfg cl (final_report res t run_id) now d q in
      rw known (
        sized-told cl res t run_id k (leb (size (final_report res t run_id)) max_body) now d f
          (sym (ap (λ r. r.0) known) ∙ h))
  last-told cfg t cl res run_id k Delivery.reply_lost now d q f h = absurd (cc)
  last-told cfg t cl res run_id k Delivery.request_lost now d q f h = absurd (cc)

  with_mode-told :
      (cfg : Config) (t : Trigger) (cl : Client) (scfg : ConfigResp) (d : Db)
      (m : Option (BackupOpts → BackupResult))
      → require_client v cfg.token d ≡ some cl
      → (with_mode v size latest modes cfg t scfg d m).0 ≡ ok tt
      → (backup : BackupOpts → BackupResult) × (run_id : ℕ) × (m ≡ some backup)
        × ((backup (backup_opts cfg scfg)).failed ≡ false)
        × (any
              (tells cl.id (final_report (backup (backup_opts cfg scfg)) t run_id))
              (with_mode v size latest modes cfg t scfg d m).1.runs
            ≡ true)
  unfolding with_mode finish send_status
  with_mode-told cfg t cl scfg d none q h = absurd (cc)
  with_mode-told cfg t cl scfg d (some backup) q h =
      let res : BackupResult = backup (backup_opts cfg scfg) in
      let first : Option ℕ × Db =
        exchange t.first_post.delivery
          (serve_status v size latest modes cfg (running_report t) t.first_post.served_at) d in
      let (fine, k, sent) = result_of-ok res.failed _ h in
      (
        backup,
        run_id_of first.0,
        refl,
        fine,
        last-told cfg t cl res (run_id_of first.0) k t.last_post.delivery t.last_post.served_at
            first.1
            (require_client-clients v cfg.token _ d
                (first-clients cfg t cl t.first_post.delivery t.first_post.served_at d q)
              ∙ q)
            fine sent,
      )

  with_config-told :
      (cfg : Config) (t : Trigger) (cl : Client) (r : Option ConfigResp × Db)
      → require_client v cfg.token r.1 ≡ some cl
      → (with_config v size latest modes cfg t r).0 ≡ ok tt
      → (scfg : ConfigResp) × (backup : BackupOpts → BackupResult) × (run_id : ℕ) × (r.0
          ≡ some scfg)
        × (modes (mode_of cfg scfg) ≡ some backup)
        × ((backup (backup_opts cfg scfg)).failed ≡ false)
        × (any
              (tells cl.id (final_report (backup (backup_opts cfg scfg)) t run_id))
              (with_config v size latest modes cfg t r).1.runs
            ≡ true)
  unfolding with_config
  with_config-told cfg t cl (none, d) q h = absurd (cc)
  with_config-told cfg t cl (some scfg, d) q h =
      let (backup, run_id, m, fine, told) =
        with_mode-told cfg t cl scfg d (modes (mode_of cfg scfg)) q h in
      (scfg, backup, run_id, refl, m, fine, told)

  fetch-clients :
      (cfg : Config) (cl : Client) (x : Delivery) (now : ℕ) (d : Db)
      → require_client v cfg.token d ≡ some cl
      → (exchange x (serve_config v size latest modes cfg now) d).1.clients ≡ d.clients
  unfolding serve_config get_config mark_client_running_run_failed
  fetch-clients cfg cl Delivery.answered now d q = rw (q, serve_config) refl
  fetch-clients cfg cl Delivery.reply_lost now d q = rw (q, serve_config) refl
  fetch-clients cfg cl Delivery.request_lost now d q = refl

  -- Where the client takes the lock, a client of the database is known by the token, and the run
  -- returns no error, the mode is one that the client has, its backup succeeded, and the table has a
  -- run of this client that is ok, with the bytes, the files and the snapshot of that backup,
  -- whatever became of the first report.
  pub run-told :
      (cfg : Config) (t : Trigger) (cl : Client) (d : Db)
      → t.lock ≡ Acquired.taken
      → require_client v cfg.token d ≡ some cl
      → (run v size latest modes cfg t d).0 ≡ ok tt
      → (scfg : ConfigResp) × (backup : BackupOpts → BackupResult) × (run_id : ℕ) × ((fetch_config v
            size latest modes cfg t.fetch d).0
          ≡ some scfg)
        × (modes (mode_of cfg scfg) ≡ some backup)
        × ((backup (backup_opts cfg scfg)).failed ≡ false)
        × (any
              (tells cl.id (final_report (backup (backup_opts cfg scfg)) t run_id))
              (run v size latest modes cfg t d).1.runs
            ≡ true)
  unfolding run fetch_config
  run-told cfg t cl d lock q h =
      let same = with_lock_taken v size latest modes cfg t d t.lock lock in
      let (scfg, backup, run_id, got, m, fine, told) =
        with_config-told cfg t cl (fetch_config v size latest modes cfg t.fetch d)
          (require_client-clients v cfg.token _ d
              (fetch-clients cfg cl t.fetch.delivery t.fetch.served_at d q)
            ∙ q)
          (sym (ap (λ r. r.0) same) ∙ h) in
      (scfg, backup, run_id, got, m, fine, rw same told)

  overlap_sent :
      (cfg : Config) (t : Trigger) (cl : Client) (x : Delivery) (now : ℕ) (d : Db)
      → require_client v cfg.token d ≡ some cl
      → Appended cl d.runs
          (exchange x (serve_status v size latest modes cfg (overlap_report t) now) d).1.runs
  unfolding Appended
  overlap_sent cfg t cl Delivery.answered now d q =
      rw (serve_status_known v size latest modes cfg cl (overlap_report t) now d q)
        (overlap-Appended cl t (leb (size (overlap_report t)) max_body) now d)
  overlap_sent cfg t cl Delivery.reply_lost now d q =
      rw (serve_status_known v size latest modes cfg cl (overlap_report t) now d q)
        (overlap-Appended cl t (leb (size (overlap_report t)) max_body) now d)
  overlap_sent cfg t cl Delivery.request_lost now d q = inl refl

  with_lock_held :
      (cfg : Config) (t : Trigger) (d : Db) (x : Acquired)
      → x ≡ Acquired.held
      → with_lock v size latest modes cfg t d x
        ≡ (ok tt, (send_status v size latest modes cfg t.first_post (overlap_report t) d).1)
  unfolding with_lock
  with_lock_held cfg t d x e = rw e refl

  -- Where another run holds the lock and a client of the database is known by the token, the run
  -- returns no error, and the table stays or gains, at its end, a run of this client that is an
  -- overlap, whatever becomes of the report: the run in progress is not touched.
  pub run-held :
      (cfg : Config) (t : Trigger) (cl : Client) (d : Db)
      → t.lock ≡ Acquired.held
      → require_client v cfg.token d ≡ some cl
      → ((run v size latest modes cfg t d).0 ≡ ok tt)
        × (((run v size latest modes cfg t d).1.runs ≡ d.runs)
            ⊎ ((r : Run) × ((run v size latest modes cfg t d).1.runs ≡ d.runs ++ r ∷ [])
                × (r.status ≡ RunStatus.overlap)
                × (r.client_id ≡ cl.id)))
  unfolding run Appended send_status
  run-held cfg t cl d lock q =
      rw (with_lock_held cfg t d t.lock lock)
        (refl, overlap_sent cfg t cl t.first_post.delivery t.first_post.served_at d q)
