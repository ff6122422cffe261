-- ===== src/Store/Clients/Rotation.antt =====
-- The compare-and-swap of a client's credentials.
use backitup.Prelude.{
  ℕ, ◌+◌, ◌≡◌, refl, Bool, true, false, ◌&&◌, List, [], ◌∷◌, Text, ok, err, any, update, arith,
  ◌==◌, nat_eq,
}
use backitup.Prelude.Rows.{any-update}
use backitup.Model.{Client}
use backitup.Store.{Db, conflict}
use backitup.Store.Clients.{rotate_client_creds}

-- The row that a rotation is about.
abbrev matches : ℕ → ℕ → Client → Bool
matches id version c = c.id == id && c.version == version

abbrev rotate : Text → Text → Text → Client → Client
rotate k h p c = record c {
  ssh_pub_key = k;
  token_hash = h;
  token_prefix = p;
  version = c.version + 1;
}

-- No row has the old version any more.
any-rotated :
    (id v : ℕ) (k h p : Text) (cs : List Client)
    → any (matches id v) (update (matches id v) (rotate k h p) cs) ≡ false
any-rotated id v k h p [] = refl
any-rotated id v k h p (c ∷ cs) = ground (arith, any-rotated id v k h p cs)

rotate_client_creds-found :
    (id v : ℕ) (k h p : Text) (d : Db)
    → (rotate_client_creds id k h p v d).0 ≡ ok tt
    → any (matches id v) d.clients ≡ true
unfolding rotate_client_creds
rotate_client_creds-found id v k h p d won = ground (arith, won)

any_id_of_any :
    (id v : ℕ) (cs : List Client) → any (matches id v) cs ≡ true → any (λ c. c.id == id) cs ≡ true
any_id_of_any id v [] h = cc
any_id_of_any id v (c ∷ cs) h = ground (arith, h, any_id_of_any id v cs)

-- A rotation that succeeds makes every other with the same version fail with a conflict: of two
-- requests that read one version, one wins.
pub rotate_client_creds-rotate_client_creds :
    (id version : ℕ) (k h p k' h' p' : Text) (d : Db)
    → (rotate_client_creds id k h p version d).0 ≡ ok tt
    → (rotate_client_creds id k' h' p' version (rotate_client_creds id k h p version d).1).0
      ≡ err conflict
unfolding rotate_client_creds
rotate_client_creds-rotate_client_creds id v k h p k' h' p' d won =
    let found = rotate_client_creds-found id v k h p d won in
    let kept = any-update (λ c. c.id == id) (matches id v) (rotate k h p) d.clients (λ c. refl) in
    rw (found, any-rotated id v k h p d.clients, kept, any_id_of_any id v d.clients found)
