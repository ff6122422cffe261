-- ===== src/Lifecycle/Upload/Recorded.antt =====
-- What a recorded upload stands for.
use backitup.Prelude.{
  ℕ, ◌+◌, ◌≡◌, refl, ◌∙◌, inl, inr, Bool, true, ◌&&◌, List, [], ◌∷◌, Text, Outcome, ok, err, ltb,
  Option, none, some, All, Bool-cases, if◌then◌else◌, ◌==◌, nat_eq, text_eq, any, codes,
}
use backitup.Prelude.Rows.{All-snoc, All-update, All-mono}
use backitup.Model.{Client, OffsiteObject}
use backitup.Store.{Db, has_client}
use backitup.Store.Objects.{is_object, record_offsite_object, offsite_checksum_exists}
use backitup.Lifecycle.{
  Platform, Snapshot, Failure, Deps, World, return, tool, database, uploaded, exec, attempt,
  client_dir,
}
use backitup.Lifecycle.Naming.{offsite_dir, object_path}
use backitup.Lifecycle.Observed.{Observed}
use backitup.Lifecycle.Maintains.{
  Maintains, Maintains-return, Maintains-read, Maintains-exec, Maintains-query, Maintains-alert,
  Maintains-act, Maintains-change, Maintains-if, Maintains-bind, Maintains-attempt,
  Maintains-option,
}
use backitup.Lifecycle.Upload.{
  push_archive, upload_archive, upload_loop, remove_all, offsite_new_snapshots, object_of, contains,
  is_rsync, stop_with,
}

module _ (P : Platform) (L : Observed P) (d : Deps) (c : Client) where
  -- The object of a snapshot lies on the client's remote.
  abbrev IsUploaded : Text → P.State → Type 0
  IsUploaded i s = L.has c.offsite_remote (object_path (offsite_dir c) c.mode i) s ≡ true

  abbrev Backed : OffsiteObject → P.State → Type 0
  Backed o s = o.client_id ≡ c.id → o.remote ≡ c.offsite_remote → IsUploaded o.snapshot_id s

  -- Every row of the client for its remote has its object there.
  abbrev pub Tracked : Db → P.State → Type 0
  Tracked db s = All (λ o. Backed o s) db.objects

  -- A change of the platform that removes no object.
  Tracked-mono :
      (db : Db) (s t : P.State)
      → ((r o : Text) → L.has r o s ≡ true → L.has r o t ≡ true)
      → Tracked db s
      → Tracked db t
  Tracked-mono db s t keep h =
      All-mono (λ o. Backed o s) (λ o. Backed o t) db.objects (λ o f p q. keep _ _ (f p q)) h

  record_offsite_object-Tracked :
      (o : OffsiteObject) (now : ℕ) (db : Db) (s : P.State)
      → IsUploaded o.snapshot_id s
      → Tracked db s
      → Tracked (record_offsite_object o now db).1 s
  unfolding record_offsite_object
  record_offsite_object-Tracked o now db s sent h =
      elim (Bool-cases (any (is_object o.client_id o.snapshot_id o.remote) db.objects)) [
        | inl known ↦ rw known (
            All-update (λ q. Backed q s) (is_object o.client_id o.snapshot_id o.remote)
              (λ q. record q {
                bytes = o.bytes;
                uploaded_at = if o.uploaded_at == 0 then now else o.uploaded_at;
                checksum = o.checksum;
              })
              db.objects (λ q k. k) h)
        | inr new ↦ rw new (elim (Bool-cases (has_client db o.client_id)) [
          | inr absent ↦ rw absent h
          | inl owned ↦ rw owned (All-snoc (λ q. Backed q s) db.objects _ h (λ e r. sent))
        ])
      ]

  -- The alert and the record, once the object is there.
  recording-Tracked :
      (x : Snapshot) (sum : Text) (bytes : ℕ)
      → Maintains P
          (λ db s. Tracked db s × IsUploaded x.id s)
          (attempt
            (exec (record_offsite_object (object_of c x bytes sum) d.now))
            (λ e. return (err (database e)))
            (λ _. return (ok (some bytes))))
  recording-Tracked x sum bytes =
      Maintains-attempt {A = Unit {0}} _ _ _
        (Maintains-exec (record_offsite_object (object_of c x bytes sum) d.now) λ db s h.
          (record_offsite_object-Tracked (object_of c x bytes sum) d.now db s h.1 h.0, h.1))
        (λ e. Maintains-return (err (database e))) (λ _. Maintains-return (ok (some bytes)))

  push_archive-Tracked :
      (x : Snapshot) (archive sum : Text) → Maintains P Tracked (push_archive P d c x archive sum)
  unfolding push_archive
  push_archive-Tracked x archive sum = record {
    at = λ w h. finish w (
        Tracked-mono w.db w.sys _
          (λ r o k.
            L.has-upload_other archive c.offsite_remote (object_path (offsite_dir c) c.mode x.id) r
              o w.sys k)
          h);
  }
    where
      up : P.State → Outcome Text ℕ × P.State
      up s = P.upload archive c.offsite_remote (object_path (offsite_dir c) c.mode x.id) s

      finish :
          (w : World P)
          → Tracked w.db (up w.sys).1
          → Tracked
              (push_archive P d c x archive sum w).1.db
              (push_archive P d c x archive sum w).1.sys
      finish w h = by_result (up w.sys).0 refl
        where
          by_result :
              (r : Outcome Text ℕ)
              → (up w.sys).0 ≡ r
              → Tracked
                  (push_archive P d c x archive sum w).1.db
                  (push_archive P d c x archive sum w).1.sys
          by_result (err e) p = rw p h
          by_result (ok n) p =
              rw p
                ((Maintains-bind {C = λ db s. Tracked db s × IsUploaded x.id s} _ _
                    (Maintains-alert d.has_webhook (uploaded c.id x.id))
                    (λ _. recording-Tracked x sum n)).at
                  (record w { sys = (up w.sys).1 })
                  (
                    h,
                    L.has-upload archive c.offsite_remote (object_path (offsite_dir c) c.mode x.id)
                        w.sys p,
                  )).0

  upload_archive-Tracked :
      (x : Snapshot) (archive : Text) → Maintains P Tracked (upload_archive P d c x archive)
  unfolding upload_archive
  upload_archive-Tracked x archive =
      Maintains-attempt {E = Text} {A = Text} _ _ _ (Maintains-read (P.checksum archive))
        (λ e. Maintains-return (err (tool e)))
        λ sum.
          Maintains-attempt {A = Bool} _ _ _
            (Maintains-query (offsite_checksum_exists c.id c.offsite_remote sum))
            (λ e. Maintains-return (err (database e)))
            λ dup.
              Maintains-if dup _ _ (Maintains-return (ok none)) (push_archive-Tracked x archive sum)

  upload_loop-Tracked :
      (xs : List Snapshot) (done : List Text) (n b : ℕ) (temps : List Text)
      → Maintains P Tracked (upload_loop P d c xs done n b temps)
  unfolding upload_loop stop_with
  upload_loop-Tracked [] done n b temps = Maintains-return _
  upload_loop-Tracked (x ∷ xs) done n b temps =
      Maintains-if (contains x.id done) _ _ (upload_loop-Tracked xs done n b temps) (
        Maintains-if (c.offsite_upload_mode == codes "latest" && ltb 0 n) _ _ (Maintains-return _) (
          Maintains-attempt {E = Text} {A = Text} _ _ _
            (Maintains-act (P.prepare_offsite c.mode (client_dir d c) x) λ db s h.
              Tracked-mono db s _
                (λ r o k. L.has-prepare_offsite c.mode (client_dir d c) x r o s ∙ k) h)
            (λ e. Maintains-return _)
            (λ archive.
              Maintains-attempt {E = Failure} {A = Option ℕ} _ _ _
                (upload_archive-Tracked x archive) (λ e. Maintains-return _)
                (λ sent.
                  let temps' = if is_rsync c.mode then archive ∷ temps else temps in
                  Maintains-option sent (upload_loop P d c xs done n b temps')
                    (λ bytes. upload_loop P d c xs (x.id ∷ done) (n + 1) (b + bytes) temps')
                    (upload_loop-Tracked xs done n b temps')
                    (λ bytes. upload_loop-Tracked xs (x.id ∷ done) (n + 1) (b + bytes) temps')))))

  remove_all-Tracked :
      (db : Db) (ts : List Text) (s : P.State) → Tracked db s → Tracked db (remove_all P d c ts s)
  unfolding remove_all
  remove_all-Tracked db [] s h = h
  remove_all-Tracked db (t ∷ ts) s h =
      remove_all-Tracked db ts (P.remove_file t s)
        (Tracked-mono db s _ (λ r o k. L.has-remove_file t r o s ∙ k) h)

  pub offsite_new_snapshots-Tracked :
      (xs : List Snapshot) (done : List Text)
      → Maintains P Tracked (offsite_new_snapshots P d c xs done)
  unfolding offsite_new_snapshots
  offsite_new_snapshots-Tracked xs done =
      Maintains-bind _ _ (upload_loop-Tracked xs done 0 0 []) λ result.
        Maintains-bind _ _
          (Maintains-change (remove_all P d c result.1)
            λ db s h. remove_all-Tracked db result.1 s h)
          λ _. Maintains-return result.0
