-- ===== src/Store/Invariant/Laws/Clients.antt =====
-- The statements on clients keep the database well-formed.
use backitup.Prelude.{
  ℕ, ◌≤◌, ◌<◌, ◌≡◌, refl, Bool, Text, update, length, ◌==◌, nat_eq, text_eq, any, false, inl, inr,
  Bool-cases, ◌&&◌, not,
}
use backitup.Prelude.Rows.{
  All-select, All-update, DistinctBy-snoc, DistinctBy-select, DistinctBy-update, All-ne_of_any,
}
use backitup.Model.{is_valid, Client, Run, OffsiteObject, OffsiteRun}
use backitup.Model.LogTail.{max_log_tail}
use backitup.Store.{Db}
use backitup.Store.Clients.{
  create_client, update_client_offsite, update_client_retention, rotate_client_creds, delete_rows,
  delete_client, insert_client,
}
use backitup.Store.Invariant.{IsSound, object_key}
use backitup.Store.Invariant.Tables.{
  fresh-snoc, Owned-snoc_client, Owned-update_client, Owned-delete_client,
}

abbrev run_owner : Run → ℕ
run_owner r = r.client_id

abbrev object_owner : OffsiteObject → ℕ
object_owner o = o.client_id

abbrev session_owner : OffsiteRun → ℕ
session_owner r = r.client_id

pub create_client-IsSound :
    (c : Client) (now : ℕ) (d : Db) → IsSound d → IsSound (create_client c now d).1
unfolding create_client
create_client-IsSound c now d v = elim (Bool-cases (any (λ r. r.name == c.name) d.clients)) [
  | inl taken ↦ rw taken v
  | inr free ↦ elim (Bool-cases (is_valid c.mode)) [
    | inl fine ↦ rw (free, fine) (inserted free)
    | inr bad ↦ rw (free, bad) v
  ]
]
  where
    inserted : any (λ r. r.name == c.name) d.clients ≡ false → IsSound (insert_client c now d)
    inserted free =
        let (fresh, ids) =
          fresh-snoc (λ r. r.id) d.clients d.next_client _ refl v.clients.fresh v.clients.ids in
        record {
          clients = record {
            fresh = fresh;
            ids = ids;
            names =
                DistinctBy-snoc (λ r. r.name) d.clients _ v.clients.names
                  (All-ne_of_any (λ r. r.name) c.name d.clients free);
          };
          runs = record {
            fresh = v.runs.fresh;
            ids = v.runs.ids;
            owned = Owned-snoc_client run_owner d.clients _ d.runs v.runs.owned;
            capped = v.runs.capped;
          };
          objects = record {
            fresh = v.objects.fresh;
            ids = v.objects.ids;
            keys = v.objects.keys;
            owned = Owned-snoc_client object_owner d.clients _ d.objects v.objects.owned;
          };
          sessions = Owned-snoc_client session_owner d.clients _ d.offsite_runs v.sessions;
          users = v.users;
          remotes = v.remotes;
        }

-- An update of client rows that leaves ids and names alone.
update_clients-IsSound :
    (p : Client → Bool) (f : Client → Client) (d : Db)
    → ((c : Client) → (f c).id ≡ c.id)
    → ((c : Client) → (f c).name ≡ c.name)
    → IsSound d
    → IsSound (record d { clients = update p f d.clients })
update_clients-IsSound p f d same_id same_name v = record {
  clients = record {
    fresh =
        All-update (λ c. c.id < d.next_client) p f d.clients (λ c h. rw (same_id c) h)
          v.clients.fresh;
    ids = DistinctBy-update (λ c. c.id) p f d.clients same_id v.clients.ids;
    names = DistinctBy-update (λ c. c.name) p f d.clients same_name v.clients.names;
  };
  runs = record {
    fresh = v.runs.fresh;
    ids = v.runs.ids;
    owned = Owned-update_client run_owner p f d.clients d.runs same_id v.runs.owned;
    capped = v.runs.capped;
  };
  objects = record {
    fresh = v.objects.fresh;
    ids = v.objects.ids;
    keys = v.objects.keys;
    owned = Owned-update_client object_owner p f d.clients d.objects same_id v.objects.owned;
  };
  sessions = Owned-update_client session_owner p f d.clients d.offsite_runs same_id v.sessions;
  users = v.users;
  remotes = v.remotes;
}

pub update_client_offsite-IsSound :
    (id : ℕ) (remote dir cron mode : Text) (off : Bool) (d : Db)
    → IsSound d
    → IsSound (update_client_offsite id remote dir cron mode off d).1
unfolding update_client_offsite
update_client_offsite-IsSound id remote dir cron mode off d v =
    elim (Bool-cases (any (λ c. c.id == id) d.clients)) [
      | inl found ↦ rw found (update_clients-IsSound _ _ d (λ c. refl) (λ c. refl) v)
      | inr missing ↦ rw missing v
    ]

pub update_client_retention-IsSound :
    (id hot offsite interval : ℕ) (d : Db)
    → IsSound d
    → IsSound (update_client_retention id hot offsite interval d).1
unfolding update_client_retention
update_client_retention-IsSound id hot offsite interval d v =
    elim (Bool-cases (any (λ c. c.id == id) d.clients)) [
      | inl found ↦ rw found (update_clients-IsSound _ _ d (λ c. refl) (λ c. refl) v)
      | inr missing ↦ rw missing v
    ]

pub rotate_client_creds-IsSound :
    (id : ℕ) (key hash prefix : Text) (old : ℕ) (d : Db)
    → IsSound d
    → IsSound (rotate_client_creds id key hash prefix old d).1
unfolding rotate_client_creds
rotate_client_creds-IsSound id key hash prefix old d v =
    elim (Bool-cases (any (λ c. c.id == id && c.version == old) d.clients)) [
      | inl current ↦ rw current (update_clients-IsSound _ _ d (λ c. refl) (λ c. refl) v)
      | inr moved ↦ rw moved (elim (Bool-cases (any (λ c. c.id == id) d.clients)) [
        | inl found ↦ rw found v
        | inr missing ↦ rw missing v
      ])
    ]

pub delete_client-IsSound : (id : ℕ) (d : Db) → IsSound d → IsSound (delete_client id d).1
unfolding delete_client
delete_client-IsSound id d v = elim (Bool-cases (any (λ c. c.id == id) d.clients)) [
  | inl found ↦ rw found gone
  | inr missing ↦ rw missing v
]
  where
    keeps : ℕ → Bool
    keeps owner = not (owner == id)

    gone : IsSound (delete_rows id d)
    gone = record {
      clients = record {
        fresh = All-select (λ c. c.id < d.next_client) (λ c. keeps c.id) d.clients v.clients.fresh;
        ids = DistinctBy-select (λ c. c.id) (λ c. keeps c.id) d.clients v.clients.ids;
        names = DistinctBy-select (λ c. c.name) (λ c. keeps c.id) d.clients v.clients.names;
      };
      runs = record {
        fresh = All-select (λ r. r.id < d.next_run) (λ r. keeps r.client_id) d.runs v.runs.fresh;
        ids = DistinctBy-select (λ r. r.id) (λ r. keeps r.client_id) d.runs v.runs.ids;
        owned = Owned-delete_client run_owner id d.clients d.runs v.runs.owned;
        capped =
            All-select (λ r. length r.log_tail ≤ max_log_tail) (λ r. keeps r.client_id) d.runs
              v.runs.capped;
      };
      objects = record {
        fresh =
            All-select (λ o. o.id < d.next_object) (λ o. keeps o.client_id) d.objects
              v.objects.fresh;
        ids = DistinctBy-select (λ o. o.id) (λ o. keeps o.client_id) d.objects v.objects.ids;
        keys = DistinctBy-select object_key (λ o. keeps o.client_id) d.objects v.objects.keys;
        owned = Owned-delete_client object_owner id d.clients d.objects v.objects.owned;
      };
      sessions = Owned-delete_client session_owner id d.clients d.offsite_runs v.sessions;
      users = v.users;
      remotes = v.remotes;
    }
