-- ===== src/Store/Invariant/Laws/Objects.antt =====
-- The statements on offsite objects and upload sessions keep the database well-formed.
use backitup.Prelude.{
  ℕ, ◌<◌, ◌≡◌, ◌≢◌, refl, Bool, true, false, any, inl, inr, List, [], ◌∷◌, Text, All, select,
  update, ◌==◌, nat_eq, text_eq, Bool-cases, arith, ap, codes,
}
use backitup.Prelude.Rows.{
  All-snoc, All-select, All-update, DistinctBy-select, DistinctBy-update, DistinctBy-snoc,
}
use backitup.Model.{OffsiteObject, OffsiteRun}
use backitup.Store.{Db, has_client}
use backitup.Store.Objects.{
  is_object, record_offsite_object, update_offsite_remote_status, delete_offsite_object,
  forget_offsite_object,
}
use backitup.Store.OffsiteRuns.{
  start_offsite_run, finish_offsite_run, mark_stale_offsite_runs_failed, record_offsite_run,
  insert_offsite_run, running_session,
}
use backitup.Store.Invariant.{IsSound, object_key}
use backitup.Store.Invariant.Tables.{fresh-snoc}

-- No row has the key, when the search for it fails.
keys_apart :
    (o : OffsiteObject) (rows : List OffsiteObject)
    → any (is_object o.client_id o.snapshot_id o.remote) rows ≡ false
    → All (λ q. object_key q ≢ object_key o) rows
keys_apart o [] h = tt
keys_apart o (q ∷ rows) h = (
  λ e. ground (arith, ap (λ k. k.0) e, ap (λ k. k.1) e, ap (λ k. k.2) e),
  keys_apart o rows (ground arith),
)

module _ (d : Db) (v : IsSound d) where
  update_objects-IsSound :
      (p : OffsiteObject → Bool) (f : OffsiteObject → OffsiteObject)
      → ((o : OffsiteObject) → (f o).id ≡ o.id)
      → ((o : OffsiteObject) → object_key (f o) ≡ object_key o)
      → ((o : OffsiteObject) → (f o).client_id ≡ o.client_id)
      → IsSound (record d { objects = update p f d.objects })
  update_objects-IsSound p f same_id same_key same_owner = record {
    clients = v.clients;
    runs = v.runs;
    objects = record {
      fresh =
          All-update (λ o. o.id < d.next_object) p f d.objects (λ o h. rw (same_id o) h)
            v.objects.fresh;
      ids = DistinctBy-update (λ o. o.id) p f d.objects same_id v.objects.ids;
      keys = DistinctBy-update object_key p f d.objects same_key v.objects.keys;
      owned =
          All-update (λ o. has_client d o.client_id ≡ true) p f d.objects
            (λ o h. rw (same_owner o) h) v.objects.owned;
    };
    sessions = v.sessions;
    users = v.users;
    remotes = v.remotes;
  }

  select_objects-IsSound :
      (p : OffsiteObject → Bool) → IsSound (record d { objects = select p d.objects })
  select_objects-IsSound p = record {
    clients = v.clients;
    runs = v.runs;
    objects = record {
      fresh = All-select (λ o. o.id < d.next_object) p d.objects v.objects.fresh;
      ids = DistinctBy-select (λ o. o.id) p d.objects v.objects.ids;
      keys = DistinctBy-select object_key p d.objects v.objects.keys;
      owned = All-select (λ o. has_client d o.client_id ≡ true) p d.objects v.objects.owned;
    };
    sessions = v.sessions;
    users = v.users;
    remotes = v.remotes;
  }

  pub record_offsite_object-IsSound :
      (o : OffsiteObject) (now : ℕ) → IsSound (record_offsite_object o now d).1
  unfolding record_offsite_object
  record_offsite_object-IsSound o now =
      elim (Bool-cases (any (is_object o.client_id o.snapshot_id o.remote) d.objects)) [
        | inl known ↦ rw known (update_objects-IsSound _ _ (λ q. refl) (λ q. refl) (λ q. refl))
        | inr new ↦ rw new (elim (Bool-cases (has_client d o.client_id)) [
          | inr absent ↦ rw absent v
          | inl owned ↦ rw owned (
              let (fresh, ids) =
                fresh-snoc (λ q. q.id) d.objects d.next_object _ refl v.objects.fresh
                  v.objects.ids in
              record {
                clients = v.clients;
                runs = v.runs;
                objects = record {
                  fresh = fresh;
                  ids = ids;
                  keys =
                      DistinctBy-snoc object_key d.objects _ v.objects.keys
                        (keys_apart o d.objects new);
                  owned =
                      All-snoc (λ q. has_client d q.client_id ≡ true) d.objects _ v.objects.owned
                        owned;
                };
                sessions = v.sessions;
                users = v.users;
                remotes = v.remotes;
              })
        ])
      ]

  pub update_offsite_remote_status-IsSound :
      (id : ℕ) (missing : Bool) (at : ℕ) → IsSound (update_offsite_remote_status id missing at d)
  unfolding update_offsite_remote_status
  update_offsite_remote_status-IsSound id missing at =
      update_objects-IsSound _ _ (λ q. refl) (λ q. refl) (λ q. refl)

  pub delete_offsite_object-IsSound :
      (client_id : ℕ) (snapshot_id remote : Text)
      → IsSound (delete_offsite_object client_id snapshot_id remote d)
  unfolding delete_offsite_object
  delete_offsite_object-IsSound client_id snapshot_id remote = select_objects-IsSound _

  pub forget_offsite_object-IsSound :
      (client_id : ℕ) (snapshot_id remote : Text)
      → IsSound (forget_offsite_object client_id snapshot_id remote d)
  unfolding forget_offsite_object
  forget_offsite_object-IsSound client_id snapshot_id remote = select_objects-IsSound _

  update_sessions-IsSound :
      (p : OffsiteRun → Bool) (f : OffsiteRun → OffsiteRun)
      → ((r : OffsiteRun) → (f r).client_id ≡ r.client_id)
      → IsSound (record d { offsite_runs = update p f d.offsite_runs })
  update_sessions-IsSound p f same_owner = record {
    clients = v.clients;
    runs = v.runs;
    objects = v.objects;
    sessions =
        All-update (λ r. has_client d r.client_id ≡ true) p f d.offsite_runs
          (λ r h. rw (same_owner r) h) v.sessions;
    users = v.users;
    remotes = v.remotes;
  }

  insert_offsite_run-IsSound : (r : OffsiteRun) → IsSound (insert_offsite_run r d).1
  unfolding insert_offsite_run
  insert_offsite_run-IsSound r = elim (Bool-cases (has_client d r.client_id)) [
    | inr absent ↦ rw absent v
    | inl owned ↦ rw owned (record {
      clients = v.clients;
      runs = v.runs;
      objects = v.objects;
      sessions = All-snoc (λ q. has_client d q.client_id ≡ true) d.offsite_runs _ v.sessions owned;
      users = v.users;
      remotes = v.remotes;
    })
  ]

  pub start_offsite_run-IsSound :
      (client_id : ℕ) (by : Text) (at : ℕ) → IsSound (start_offsite_run client_id by at d).1
  unfolding start_offsite_run
  start_offsite_run-IsSound client_id by at =
      insert_offsite_run-IsSound (running_session client_id by at)

  pub record_offsite_run-IsSound : (r : OffsiteRun) → IsSound (record_offsite_run r d).1
  unfolding record_offsite_run
  record_offsite_run-IsSound r = insert_offsite_run-IsSound r

  pub finish_offsite_run-IsSound :
      (id : ℕ) (status : Text) (snaps bytes : ℕ) (message : Text) (at : ℕ)
      → IsSound (finish_offsite_run id status snaps bytes message at d)
  unfolding finish_offsite_run
  finish_offsite_run-IsSound id status snaps bytes message at =
      update_sessions-IsSound (λ r. r.id == id)
        (λ r. record r {
          status = status;
          snapshots_uploaded = snaps;
          bytes_uploaded = bytes;
          error_text = message;
          finished_at = at;
        })
        (λ r. refl)

  pub mark_stale_offsite_runs_failed-IsSound : IsSound (mark_stale_offsite_runs_failed d)
  unfolding mark_stale_offsite_runs_failed
  mark_stale_offsite_runs_failed-IsSound =
      update_sessions-IsSound (λ r. r.status == codes "running")
        (λ r. record r {
          status = codes "failed";
          error_text = codes "interrupted by server restart";
        })
        (λ r. refl)
