-- ===== src/Server/Clients/Current.antt =====
-- authorized_keys stays the rendering of the clients, on every path of the handlers.
use backitup.Prelude.{
  ℕ, ◌≢◌, Bool, ◌||◌, not, [], Text, Option, none, some, any, ◌==◌, text_eq, nat_eq, Bool-cases,
  Option-cases, inl, inr, codes, ◌&&◌,
}
use backitup.Model.{Client, is_valid}
use backitup.Store.Clients.{create_client, rotate_client_creds, delete_client, get_client_by_slug}
use backitup.Server.Clients.{Settings, Disk, Site, Draws, Creds, generate_client_creds}
use backitup.Server.Clients.Keys.{IsWorking, IsCurrent, regen_authorized_keys-IsCurrent}
use backitup.Server.Clients.Creation.{ClientForm, mode_of, insert_created, post_clients}
use backitup.Server.Clients.Credentials.{
  rotate_with, rotate_found, post_rotate_client, delete_found, post_delete_client,
}

module _ (parses : Text → Bool) (st : Settings) (k : Disk) (working : IsWorking k)
    (configured : st.auth_keys_path ≢ []) where
  insert_created-IsCurrent :
      (f : ClientForm) (creds : Creds) (now : ℕ) (s : Site)
      → IsCurrent parses st k s
      → IsCurrent parses st k (insert_created parses st k f creds now s).1
  unfolding insert_created create_client
  insert_created-IsCurrent f creds now s h =
      elim (Bool-cases (any (λ r. r.name == f.name) s.db.clients)) [
        | inl taken ↦ rw taken h
        | inr free ↦ elim (Bool-cases (is_valid (mode_of f.mode))) [
          | inl fine ↦
              rw (free, fine) (regen_authorized_keys-IsCurrent parses st k _ working configured)
          | inr bad ↦ rw (free, bad) h
        ]
      ]

  rotate_with-IsCurrent :
      (c : Client) (creds : Creds) (s : Site)
      → IsCurrent parses st k s
      → IsCurrent parses st k (rotate_with parses st k c creds s).1
  unfolding rotate_with rotate_client_creds
  rotate_with-IsCurrent c creds s h =
      elim (Bool-cases (any (λ x. x.id == c.id && x.version == c.version) s.db.clients)) [
        | inl e ↦ rw e (regen_authorized_keys-IsCurrent parses st k _ working configured)
        | inr e ↦ elim (Bool-cases (any (λ x. x.id == c.id) s.db.clients)) [
          | inl f ↦ rw (e, f) h
          | inr f ↦ rw (e, f) h
        ]
      ]

  delete_found-IsCurrent :
      (c : Client) (s : Site)
      → IsCurrent parses st k s
      → IsCurrent parses st k (delete_found parses st k c s).1
  unfolding delete_found delete_client
  delete_found-IsCurrent c s h = elim (Bool-cases (any (λ x. x.id == c.id) s.db.clients)) [
    | inl e ↦ rw e (regen_authorized_keys-IsCurrent parses st k _ working configured)
    | inr e ↦ rw e h
  ]

  rotate_found-IsCurrent :
      (ds : Draws) (c : Client) (s : Site)
      → IsCurrent parses st k s
      → IsCurrent parses st k (rotate_found parses st k ds c s).1
  unfolding rotate_found
  rotate_found-IsCurrent ds c s h = elim (Option-cases (generate_client_creds ds c.name)) [
    | inl e ↦ rw (rotate_found, e) h
    | inr (creds, e) ↦ rw (rotate_found, e) (rotate_with-IsCurrent c creds s h)
  ]

  post_clients-IsCurrent :
      (ds : Draws) (form : Option ClientForm) (now : ℕ) (s : Site)
      → IsCurrent parses st k s
      → IsCurrent parses st k (post_clients parses st k ds form now s).1
  unfolding post_clients
  post_clients-IsCurrent ds none now s h = h
  post_clients-IsCurrent ds (some f) now s h =
      elim (Bool-cases (f.name == [] || not (is_valid (mode_of f.mode)))) [
        | inl e ↦ rw e h
        | inr e ↦ elim (Option-cases (generate_client_creds ds f.name)) [
          | inl g ↦ rw (e, g) h
          | inr (creds, g) ↦ rw (e, g) (insert_created-IsCurrent f creds now s h)
        ]
      ]

  post_rotate_client-IsCurrent :
      (ds : Draws) (name : Text) (form : Option Text) (s : Site)
      → IsCurrent parses st k s
      → IsCurrent parses st k (post_rotate_client parses st k ds name form s).1
  unfolding post_rotate_client
  post_rotate_client-IsCurrent ds name none s h = h
  post_rotate_client-IsCurrent ds name (some confirm) s h =
      elim (Bool-cases (confirm == codes "1")) [
        | inr e ↦ rw e h
        | inl e ↦ elim (Option-cases (get_client_by_slug name s.db)) [
          | inl g ↦ rw (e, g) h
          | inr (c, g) ↦ rw (e, g) (rotate_found-IsCurrent ds c s h)
        ]
      ]

  post_delete_client-IsCurrent :
      (name : Text) (form : Option Text) (s : Site)
      → IsCurrent parses st k s
      → IsCurrent parses st k (post_delete_client parses st k name form s).1
  unfolding post_delete_client
  post_delete_client-IsCurrent name none s h = h
  post_delete_client-IsCurrent name (some confirm) s h = elim (Bool-cases (confirm == codes "1")) [
    | inr e ↦ rw e h
    | inl e ↦ elim (Option-cases (get_client_by_slug name s.db)) [
      | inl g ↦ rw (e, g) h
      | inr (c, g) ↦ rw (e, g) (delete_found-IsCurrent c s h)
    ]
  ]

-- A request that creates a client, rotates its credentials or deletes it.
pub data Request : Type 0 where
  create : Draws → Option ClientForm → ℕ → Request
  rotate : Draws → Text → Option Text → Request
  delete : Text → Option Text → Request

module _ (parses : Text → Bool) (st : Settings) (k : Disk) where
  unfoldable pub serve : Request → Site → Site
  serve (create ds form now) s = (post_clients parses st k ds form now s).1
  serve (rotate ds name form) s = (post_rotate_client parses st k ds name form s).1
  serve (delete name form) s = (post_delete_client parses st k name form s).1

-- Where the path of authorized_keys is set and the disk makes every directory and replaces the file,
-- a file that is the rendering of the clients is so again after every request that creates, rotates
-- or deletes a client, refused or not.
pub serve-IsCurrent :
    (parses : Text → Bool) (st : Settings) (k : Disk)
    → IsWorking k
    → st.auth_keys_path ≢ []
    → (r : Request) (s : Site) → IsCurrent parses st k s
    → IsCurrent parses st k (serve parses st k r s)
unfolding serve
serve-IsCurrent parses st k w n (create ds form now) s h =
    post_clients-IsCurrent parses st k w n ds form now s h
serve-IsCurrent parses st k w n (rotate ds name form) s h =
    post_rotate_client-IsCurrent parses st k w n ds name form s h
serve-IsCurrent parses st k w n (delete name form) s h =
    post_delete_client-IsCurrent parses st k w n name form s h
