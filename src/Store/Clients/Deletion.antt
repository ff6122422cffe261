-- ===== src/Store/Clients/Deletion.antt =====
-- The deletion of a client, with its cascade.
use backitup.Prelude.{
  ℕ, ◌≡◌, ◌≢◌, refl, true, not, List, [], ◌∷◌, ok, All, any, select, arith, ◌==◌, nat_eq,
}
use backitup.Prelude.Rows.{All-mono, All-select_self}
use backitup.Store.{Db}
use backitup.Store.Clients.{delete_client}

-- Nothing of a client is left in the database.
pub record IsGone (id : ℕ) (d : Db) : Type 0 where
  pub clients : All (λ c. c.id ≢ id) d.clients
  pub runs : All (λ r. r.client_id ≢ id) d.runs
  pub objects : All (λ o. o.client_id ≢ id) d.objects
  pub sessions : All (λ r. r.client_id ≢ id) d.offsite_runs

-- What belongs to another client.
pub record SameFor (id : ℕ) (d e : Db) : Type 0 where
  pub clients : select (λ c. c.id == id) d.clients ≡ select (λ c. c.id == id) e.clients
  pub runs : select (λ r. r.client_id == id) d.runs ≡ select (λ r. r.client_id == id) e.runs
  pub objects :
      select (λ o. o.client_id == id) d.objects ≡ select (λ o. o.client_id == id) e.objects
  pub sessions :
      select (λ r. r.client_id == id) d.offsite_runs
      ≡ select (λ r. r.client_id == id) e.offsite_runs

module _ {ℓ} {A : Type ℓ} (key : A → ℕ) (id : ℕ) where
  select_gone : (xs : List A) → All (λ x. key x ≢ id) (select (λ x. not (key x == id)) xs)
  select_gone xs =
      All-mono (λ x. not (key x == id) ≡ true) (λ x. key x ≢ id) _ (λ x h. ground (arith, h))
        (All-select_self (λ x. not (key x == id)) xs)

  select_other :
      (other : ℕ) (xs : List A)
      → id ≢ other
      → select (λ x. key x == other) (select (λ x. not (key x == id)) xs)
        ≡ select (λ x. key x == other) xs
  select_other other [] n = refl
  select_other other (x ∷ xs) n = ground (arith, n, select_other other xs n)

delete_client-found :
    (id : ℕ) (d : Db) → (delete_client id d).0 ≡ ok tt → any (λ c. c.id == id) d.clients ≡ true
unfolding delete_client
delete_client-found id d done = ground (arith, done)

-- A deletion that succeeds leaves nothing of the client, and every other client's rows as they were.
pub delete_client-IsGone :
    (id other : ℕ) (d : Db)
    → (delete_client id d).0 ≡ ok tt
    → id ≢ other
    → IsGone id (delete_client id d).1 × SameFor other (delete_client id d).1 d
unfolding delete_client
delete_client-IsGone id other d done n = rw (delete_client-found id d done) (
  record {
    clients = select_gone (λ c. c.id) id d.clients;
    runs = select_gone (λ r. r.client_id) id d.runs;
    objects = select_gone (λ o. o.client_id) id d.objects;
    sessions = select_gone (λ r. r.client_id) id d.offsite_runs;
  },
  record {
    clients = select_other (λ c. c.id) id other d.clients n;
    runs = select_other (λ r. r.client_id) id other d.runs n;
    objects = select_other (λ o. o.client_id) id other d.objects n;
    sessions = select_other (λ r. r.client_id) id other d.offsite_runs n;
  },
)
