-- ===== src/Server/Clients/Credentials/Laws.antt =====
-- What a rotation does to the old token and to the new one, and what a deletion does to the keys.
use backitup.Prelude.{
  ℕ, ◌+◌, ◌≡◌, ◌≢◌, refl, ap, subst, Bool, true, false, ◌&&◌, List, [], Text, Outcome, ok, none,
  some, All, update, arith, ◌==◌, nat_eq, text_eq, Bool-cases, inl, inr, codes, ==_refl,
}
use mathlib.Core.List.{Memᴰ}
use backitup.Prelude.Rows.{DistinctBy, All-and, All-only, All-update_cases, any_of_Mem, Mem-update}
use backitup.Prelude.Sorting.Laws.{find-sort_by, find-sort_by-none, Mem-sort_by, Mem-find}
use backitup.Clock.Stamp.{text_lt}
use backitup.Model.{Client}
use backitup.Model.Slug.{slug}
use backitup.Store.{Db}
use backitup.Store.Clients.{get_client_by_slug, list_clients, rotate_client_creds}
use backitup.Server.Response.{page}
use backitup.Server.ClientApi.{accepts, is_verified, prefix_of, client_by_token, require_client}
use backitup.Server.Clients.{Settings, Disk, Site, Draws, Creds, generate_client_creds}
use backitup.Server.Clients.Keys.{regen_authorized_keys-db}
use backitup.Server.Clients.Creation.Laws.{accepts_of, generate_client_creds-prefix}
use backitup.Server.Clients.Credentials.{rotate_with, post_rotate_client, rotate_found}

-- A client that a slug finds is a row of the table.
Mem-get_client_by_slug :
    (name : Text) (d : Db) (c : Client) → get_client_by_slug name d ≡ some c → Memᴰ c d.clients
unfolding get_client_by_slug list_clients
Mem-get_client_by_slug name d c h =
    Mem-sort_by (λ a b. text_lt a.name b.name) d.clients
      (Mem-find (λ r. slug r.name == name) (list_clients d) c h)

-- The row with new credentials.
abbrev pub renewed : Creds → Client → Client
renewed creds c = record c {
  ssh_pub_key = creds.pub_line;
  token_hash = creds.token_hash;
  token_prefix = creds.token_prefix;
  version = c.version + 1;
}

abbrev current : Client → Client → Bool
current c x = x.id == c.id && x.version == c.version

-- Only one client can be let in by a token.
abbrev OnlyFor : (Text → Text → Outcome Text Bool) → Text → ℕ → Client → Type 0
OnlyFor v token id x = x.id ≢ id → accepts v token x ≡ false

module _ (v : Text → Text → Outcome Text Bool) (d : Db) (c : Client) (creds : Creds)
    (distinct : DistinctBy (λ x. x.id) d.clients) (present : Memᴰ c d.clients) where
  abbrev rows : List Client
  rows = update (current c) (renewed creds) d.clients

  current_self : current c c ≡ true
  current_self = rw (==_refl c.id, ==_refl c.version)

  -- The rotation misses only rows of other clients.
  other_of_current : (x : Client) → (x.id ≡ c.id → x ≡ c) → current c x ≡ false → x.id ≢ c.id
  other_of_current x same cur e =
      let clash = subst (λ y. current c y ≡ false) (same e) cur in let self = current_self in cc

  -- Of a token, the answer of every row of the table after the rotation.
  rows-accepts :
      (token : Text)
      → All (OnlyFor v token c.id) d.clients
      → All (λ x. accepts v token x ≡ true → x ≡ renewed creds c) rows
  rows-accepts token only =
      All-update_cases (λ x. OnlyFor v token c.id x × (x.id ≡ c.id → x ≡ c))
        (λ x. accepts v token x ≡ true → x ≡ renewed creds c) (current c) (renewed creds) d.clients
        (λ x h cur acc. ap (renewed creds) (h.1 (ground (arith, cur))))
        (λ x h cur acc.
          let refused = h.0 (other_of_current x h.1 cur) in ground (arith, refused, acc))
        (All-and (OnlyFor v token c.id) (λ x. x.id ≡ c.id → x ≡ c) d.clients only
          (All-only (λ x. x.id) d.clients c distinct present))

  rotated-rows :
      rotate_client_creds c.id creds.pub_line creds.token_hash creds.token_prefix c.version d
      ≡ (ok tt, record d { clients = rows })
  unfolding rotate_client_creds
  rotated-rows = rw (any_of_Mem (current c) d.clients c present current_self)

  rows-require_client :
      c.enabled ≡ true
      → creds.token ≢ []
      → creds.token_hash ≢ []
      → creds.token_prefix ≡ prefix_of v creds.token
      → v creds.token creds.token_hash ≡ ok true
      → All (OnlyFor v creds.token c.id) d.clients
      → require_client v creds.token (record d { clients = rows }) ≡ some (renewed creds c)
  unfolding require_client client_by_token list_clients
  rows-require_client on n hash prefix ver only = elim (Bool-cases (creds.token == [])) [
    | inl e ↦ ground (arith, n, e)
    | inr e ↦ rw e (
        find-sort_by (accepts v creds.token) (λ a b. text_lt a.name b.name) rows (renewed creds c)
          (Mem-update (current c) (renewed creds) d.clients c present current_self)
          (accepts_of v creds.token (renewed creds c) on hash prefix ver)
          (rows-accepts creds.token only))
  ]

  -- A token that the new hash does not verify.
  rows-require_client_old :
      (old : Text)
      → is_verified v (v old creds.token_hash) ≡ false
      → All (OnlyFor v old c.id) d.clients
      → require_client v old (record d { clients = rows }) ≡ none
  unfolding require_client client_by_token list_clients accepts
  rows-require_client_old old wrong only = elim (Bool-cases (old == [])) [
    | inl e ↦ rw e refl
    | inr e ↦ rw e (
        find-sort_by-none (accepts v old) (λ a b. text_lt a.name b.name) rows
          (All-update_cases (λ x. OnlyFor v old c.id x × (x.id ≡ c.id → x ≡ c))
            (λ x. accepts v old x ≡ false) (current c) (renewed creds) d.clients
            (λ x h cur. ground (arith, wrong)) (λ x h cur. h.0 (other_of_current x h.1 cur))
            (All-and (OnlyFor v old c.id) (λ x. x.id ≡ c.id → x ≡ c) d.clients only
              (All-only (λ x. x.id) d.clients c distinct present))))
  ]

module _ (parses : Text → Bool) (st : Settings) (k : Disk) where
  rotate_found-rotate_with :
      (ds : Draws) (c : Client) (s : Site) (creds : Creds)
      → generate_client_creds ds c.name ≡ some creds
      → rotate_found parses st k ds c s ≡ rotate_with parses st k c creds s
  unfolding rotate_found
  rotate_found-rotate_with ds c s creds gen = rw (rotate_found, gen)

  -- Where the statement succeeds, the page is shown behind the rewrite of the keys.
  rotate_with-page :
      (c : Client) (creds : Creds) (s : Site) (d : Db)
      → rotate_client_creds c.id creds.pub_line creds.token_hash creds.token_prefix c.version s.db
        ≡ (ok tt, d)
      → ((rotate_with parses st k c creds s).0 ≡ page)
        × ((rotate_with parses st k c creds s).1.db ≡ d)
  unfolding rotate_with
  rotate_with-page c creds s d h =
      rw h (refl, regen_authorized_keys-db parses st k (record s { db = d }))

  post_rotate_client-rotate_found :
      (ds : Draws) (name : Text) (s : Site) (c : Client)
      → get_client_by_slug name s.db ≡ some c
      → post_rotate_client parses st k ds name (some (codes "1")) s
        ≡ rotate_found parses st k ds c s
  unfolding post_rotate_client
  post_rotate_client-rotate_found ds name s c found = rw (==_refl (codes "1"), found)

-- A confirmed rotation of an enabled client that the slug finds, with new credentials, shows its page,
-- lets the client in by the new token, and lets nobody in by the old one, where the ids of the
-- clients are distinct, the new token and its hash are not empty and match, the new hash does not
-- verify the old token, and no other client accepts either token.
pub post_rotate_client-require_client :
    (verify_password : Text → Text → Outcome Text Bool) (parses : Text → Bool) (st : Settings)
    (k : Disk) (ds : Draws) (name : Text) (s : Site) (c : Client) (creds : Creds) (old : Text)
    → DistinctBy (λ x. x.id) s.db.clients
    → get_client_by_slug name s.db ≡ some c
    → generate_client_creds ds c.name ≡ some creds
    → c.enabled ≡ true
    → creds.token ≢ []
    → creds.token_hash ≢ []
    → verify_password creds.token creds.token_hash ≡ ok true
    → is_verified verify_password (verify_password old creds.token_hash) ≡ false
    → All (λ x. x.id ≢ c.id → accepts verify_password creds.token x ≡ false) s.db.clients
    → All (λ x. x.id ≢ c.id → accepts verify_password old x ≡ false) s.db.clients
    → let (answer, s') = post_rotate_client parses st k ds name (some (codes "1")) s in
      (answer ≡ page)
      × (require_client verify_password creds.token s'.db ≡ some (renewed creds c))
      × (require_client verify_password old s'.db ≡ none)
post_rotate_client-require_client v parses st k ds name s c creds old distinct found gen on n hash
      ver wrong only only_old =
    let present = Mem-get_client_by_slug name s.db c found in
    let prefix = generate_client_creds-prefix v ds c.name creds gen in
    let (shown, same) =
      rotate_with-page parses st k c creds s _ (rotated-rows v s.db c creds distinct present) in
    rw
      (
        post_rotate_client-rotate_found parses st k ds name s c found,
        rotate_found-rotate_with parses st k ds c s creds gen,
        same,
      )
      (
        shown,
        rows-require_client v s.db c creds distinct present on n hash prefix ver only,
        rows-require_client_old v s.db c creds distinct present old wrong only_old,
      )
