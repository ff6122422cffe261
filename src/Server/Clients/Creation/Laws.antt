-- ===== src/Server/Clients/Creation/Laws.antt =====
-- The token that the page of a new client shows is the one that lets it in.
use backitup.Prelude.{
  ℕ, ◌≡◌, ◌≢◌, refl, subst, Bool, true, false, [], ◌∷◌, ◌++◌, Text, Outcome, ok, some, All, any,
  arith, ◌==◌, text_eq, Bool-cases, inl, inr, ◌||◌, not, ==_refl,
}
use mathlib.Core.List.{Memᴰ}
use mathlib.Core.List.Memᴰ
use backitup.Prelude.Rows.{All-snoc, All-mono}
use backitup.Prelude.Sorting.Laws.{find-sort_by}
use backitup.Clock.Stamp.{text_lt}
use backitup.Model.{Client, is_valid}
use backitup.Store.{Db}
use backitup.Store.Clients.{create_client, insert_client, list_clients, upload_mode_or_all}
use backitup.Server.Response.{page}
use backitup.Server.ClientApi.{accepts, prefix_of, client_by_token, require_client}
use backitup.Server.Clients.{Settings, Disk, Site, Draws, Creds, generate_client_creds}
use backitup.Server.Clients.Keys.{regen_authorized_keys-db}
use backitup.Server.Clients.Creation.{ClientForm, mode_of, client_of, insert_created, post_clients}

-- The prefix that is stored is the one that a request with the token is looked up by.
pub generate_client_creds-prefix :
    (v : Text → Text → Outcome Text Bool) (ds : Draws) (name : Text) (creds : Creds)
    → generate_client_creds ds name ≡ some creds
    → creds.token_prefix ≡ prefix_of v creds.token
unfolding generate_client_creds
generate_client_creds-prefix v ds name creds h = ground (arith, h)

-- A client that is enabled and holds the hash and the prefix of a token is let in by it.
pub accepts_of :
    (v : Text → Text → Outcome Text Bool) (token : Text) (c : Client)
    → c.enabled ≡ true
    → c.token_hash ≢ []
    → c.token_prefix ≡ prefix_of v token
    → v token c.token_hash ≡ ok true
    → accepts v token c ≡ true
unfolding accepts
accepts_of v token c on hash prefix ver =
    rw (on, ver, prefix) (ground (arith, hash, ==_refl (prefix_of v token)))

module _ (v : Text → Text → Outcome Text Bool) (d : Db) (c : Client) (now : ℕ) (token : Text) where
  -- The row of an insert.
  abbrev inserted : Client
  inserted = record c {
    id = d.next_client;
    created_at = now;
    version = 1;
    disable_offsite_pruning = false;
    offsite_upload_mode = upload_mode_or_all c.offsite_upload_mode;
  }

  insert_client-require_client :
      token ≢ []
      → accepts v token inserted ≡ true
      → All (λ x. accepts v token x ≡ false) d.clients
      → require_client v token (insert_client c now d) ≡ some inserted
  unfolding require_client client_by_token list_clients
  insert_client-require_client n yes_ others = elim (Bool-cases (token == [])) [
    | inl e ↦ ground (arith, n, e)
    | inr e ↦ rw e (
        find-sort_by (accepts v token) (λ a b. text_lt a.name b.name) (d.clients ++ inserted ∷ [])
          inserted (Memᴰ.append_right d.clients (Memᴰ.head refl)) yes_
          (All-snoc (λ x. accepts v token x ≡ true → x ≡ inserted) d.clients inserted
            (All-mono (λ x. accepts v token x ≡ false)
              (λ x. accepts v token x ≡ true → x ≡ inserted) d.clients
              (λ x no_ yes_. ground (arith, no_, yes_)) others)
            (λ h. refl)))
  ]

module _ (parses : Text → Bool) (st : Settings) (k : Disk) where
  insert_created-db :
      (f : ClientForm) (creds : Creds) (now : ℕ) (s : Site)
      → (insert_created parses st k f creds now s).0 ≡ page
      → (insert_created parses st k f creds now s).1.db ≡ insert_client (client_of f creds) now s.db
  unfolding insert_created create_client
  insert_created-db f creds now s done =
      elim (Bool-cases (any (λ r. r.name == f.name) s.db.clients)) [
        | inl taken ↦ ground (arith, done, taken)
        | inr free ↦ elim (Bool-cases (is_valid (mode_of f.mode))) [
          | inl fine ↦ rw (free, fine, regen_authorized_keys-db parses st k)
          | inr bad ↦ ground (arith, done, free, bad)
        ]
      ]

  -- The page is shown only behind the insert.
  post_clients-insert_created :
      (ds : Draws) (f : ClientForm) (now : ℕ) (s : Site) (creds : Creds)
      → generate_client_creds ds f.name ≡ some creds
      → (post_clients parses st k ds (some f) now s).0 ≡ page
      → post_clients parses st k ds (some f) now s ≡ insert_created parses st k f creds now s
  unfolding post_clients
  post_clients-insert_created ds f now s creds gen done =
      elim (Bool-cases (f.name == [] || not (is_valid (mode_of f.mode)))) [
        | inl e ↦ ground (arith, done, e)
        | inr e ↦ rw (e, gen)
      ]

-- A client that is created with credentials, whose hash is not empty and verifies their token, which
-- no client there was accepts and which is not empty, is let in by that token, under the name of
-- the form and a new id.
pub post_clients-require_client :
    (verify_password : Text → Text → Outcome Text Bool) (parses : Text → Bool) (st : Settings)
    (k : Disk) (ds : Draws) (f : ClientForm) (now : ℕ) (s : Site) (creds : Creds)
    → generate_client_creds ds f.name ≡ some creds
    → creds.token ≢ []
    → creds.token_hash ≢ []
    → verify_password creds.token creds.token_hash ≡ ok true
    → All (λ x. accepts verify_password creds.token x ≡ false) s.db.clients
    → (post_clients parses st k ds (some f) now s).0 ≡ page
    → (c : Client) × (require_client verify_password creds.token
          (post_clients parses st k ds (some f) now s).1.db
        ≡ some c)
      × (c.name ≡ f.name)
      × (c.id ≡ s.db.next_client)
unfolding client_of
post_clients-require_client v parses st k ds f now s creds gen n hash ver others done =
    let same = post_clients-insert_created parses st k ds f now s creds gen done in
    let same_db = insert_created-db parses st k f creds now s (subst (λ r. r.0 ≡ page) same done) in
    let c = inserted v s.db (client_of f creds) now creds.token in
    (
      c,
      rw (same, same_db)
          (insert_client-require_client v s.db (client_of f creds) now creds.token n
            (accepts_of v creds.token c refl hash
              (generate_client_creds-prefix v ds f.name creds gen) ver)
            others),
      refl,
      refl,
    )
