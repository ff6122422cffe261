-- ===== src/Server/Clients/Keys.antt =====
-- What a rewrite of authorized_keys does to the site.
use backitup.Prelude.{
  ◌≡◌, refl, Bool, true, List, [], ◌∷◌, Text, ◌≢◌, arith, ◌==◌, text_eq, Bool-cases, inl, inr,
}
use backitup.Model.{Client}
use backitup.Store.Clients.{list_clients}
use backitup.AuthKeys.Render.{render}
use backitup.Server.Clients.{Settings, Disk, Site, client_dir, make_dirs, regen_authorized_keys}

-- A disk that makes every directory and replaces the file.
pub record IsWorking (k : Disk) : Type 0 where
  pub makes : (dir : Text) → k.makes dir ≡ true
  pub writes : k.writes ≡ true

make_dirs_lem :
    (base : Text) (k : Disk) (cs : List Client) (dirs : List Text)
    → IsWorking k
    → (make_dirs base k cs dirs).0 ≡ true
unfolding make_dirs
make_dirs_lem base k [] dirs w = refl
make_dirs_lem base k (c ∷ cs) dirs w = elim (Bool-cases c.enabled) [
  | inr e ↦ rw e (make_dirs_lem base k cs dirs w)
  | inl e ↦
      rw (e, w.makes (client_dir base c)) (make_dirs_lem base k cs (client_dir base c ∷ dirs) w)
]

module _ (parses : Text → Bool) (st : Settings) (k : Disk) where
  -- The file is the rendering of the clients in the database.
  abbrev pub IsCurrent : Site → Type 0
  IsCurrent s = s.auth_keys ≡ (render parses (list_clients s.db) st.backup_base_dir).0

  pub regen_authorized_keys-db : (s : Site) → (regen_authorized_keys parses st k s).1.db ≡ s.db
  unfolding regen_authorized_keys
  regen_authorized_keys-db s = ground arith

  pub regen_authorized_keys-IsCurrent :
      (s : Site)
      → IsWorking k
      → st.auth_keys_path ≢ []
      → IsCurrent (regen_authorized_keys parses st k s).1
  unfolding regen_authorized_keys
  regen_authorized_keys-IsCurrent s w n = elim (Bool-cases (st.auth_keys_path == [])) [
    | inl e ↦ ground (arith, e, n)
    | inr e ↦
        rw
          (
            e,
            w.makes st.auth_keys_dir,
            make_dirs_lem st.backup_base_dir k (list_clients s.db) s.dirs w,
            w.writes,
          )
          refl
  ]
