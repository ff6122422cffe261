-- ===== src/Server/Remotes/Safety.antt =====
-- The handlers keep every remote safe: its name, its fields, and its passwords.
use backitup.Prelude.{
  ℕ, ◌≡◌, refl, sym, ap, subst, ◌∙◌, eq_of_==, Bool, true, not, [], Text, Outcome, Option, none,
  some, All, any, arith, ◌==◌, text_eq, Bool-cases, Option-cases, Outcome-cases, inl, inr,
  trim_space, codes,
}
use mathlib.Core.Option.{some-injective}
use backitup.Prelude.Rows.{
  All-snoc, All-select, All-Mem, All-and, All-only, All-update_cases, All_of_Mem, All-ne_of_any,
  DistinctBy, DistinctBy-snoc, DistinctBy-select, DistinctBy-update, find-some,
}
use backitup.Prelude.Sorting.Laws.{Mem-find}
use backitup.Model.Backends.{BackendDef, find_backend}
use backitup.Store.{Remote}
use backitup.Store.Remotes.{create_remote, get_remote_by_name, update_remote, delete_remote}
use backitup.Server.Remotes.{
  Config, Form, Site, create_fields, edit_fields, valid_remote_name, write_rclone_config,
  insert_remote, update_config, create_of, create_named, post_create_remote, edit_of, edit_found,
  post_edit_remote, post_delete_remote,
}
use backitup.Server.Remotes.Laws.{IsEntry, IsSafe, create_fields-IsEntry, edit_fields-IsEntry}

module _ (obscure : Text → Outcome Text Text) (compact : Text → Option Text) (path : Text)
    (writes : Bool) where
  abbrev pub AreSafe : Site → Type 0
  AreSafe s = DistinctBy (λ r. r.name) s.db.remotes × All (IsSafe obscure) s.db.remotes

  write_rclone_config-db : (s : Site) → (write_rclone_config compact path writes s).db ≡ s.db
  unfolding write_rclone_config
  write_rclone_config-db s = ground arith

  insert_remote-AreSafe :
      (name backend : Text) (cfg : Config) (now : ℕ) (s : Site)
      → ((id : ℕ)
          → IsSafe obscure
              (record { id = id; name = name; backend = backend; config = cfg; created_at = now }))
      → AreSafe s
      → AreSafe (insert_remote compact path writes name backend cfg now s).1
  unfolding insert_remote create_remote
  insert_remote-AreSafe name backend cfg now s new h =
      elim (Bool-cases (any (λ q. q.name == name) s.db.remotes)) [
        | inl taken ↦ rw taken h
        | inr free ↦
            rw (free, write_rclone_config-db)
              (
                DistinctBy-snoc (λ r. r.name) s.db.remotes _ h.0
                    (All-ne_of_any (λ r. r.name) name s.db.remotes free),
                All-snoc (IsSafe obscure) s.db.remotes _ h.1 (new s.db.next_remote),
              )
      ]

  create_of-AreSafe :
      (name backend : Text) (form : Form) (def : BackendDef) (now : ℕ) (s : Site)
      → valid_remote_name name ≡ true
      → find_backend backend ≡ some def
      → AreSafe s
      → AreSafe (create_of obscure compact path writes name backend form def now s).1
  unfolding create_of
  create_of-AreSafe name backend form def now s valid known h =
      elim (Outcome-cases (create_fields obscure form def.fields [])) [
        | inr (why, e) ↦ rw (create_of, e) h
        | inl (cfg, e) ↦
            rw (create_of, e)
              (insert_remote-AreSafe name backend cfg now s
                (λ id. (
                  valid,
                  def,
                  known,
                  create_fields-IsEntry obscure def.fields form def.fields [] cfg
                      (All-Mem def.fields) tt e,
                ))
                h)
      ]

  create_named-AreSafe :
      (name : Text) (form : Form) (now : ℕ) (s : Site)
      → valid_remote_name name ≡ true
      → AreSafe s
      → AreSafe (create_named obscure compact path writes name form now s).1
  unfolding create_named
  create_named-AreSafe name form now s valid h =
      elim (Option-cases (find_backend (form (codes "backend")))) [
        | inl e ↦ rw (create_named, e) h
        | inr (def, e) ↦
            rw (create_named, e)
              (create_of-AreSafe name (form (codes "backend")) form def now s valid e h)
      ]

  post_create_remote-AreSafe :
      (form : Option Form) (now : ℕ) (s : Site)
      → AreSafe s
      → AreSafe (post_create_remote obscure compact path writes form now s).1
  unfolding post_create_remote
  post_create_remote-AreSafe none now s h = h
  post_create_remote-AreSafe (some form) now s h =
      elim (Bool-cases (trim_space (form (codes "name")) == [])) [
        | inl e ↦ rw e h
        | inr e ↦ elim (Bool-cases (valid_remote_name (trim_space (form (codes "name"))))) [
          | inr v ↦ rw (e, v) h
          | inl v ↦
              rw (e, v) (create_named-AreSafe (trim_space (form (codes "name"))) form now s v h)
        ]
      ]

  -- The rows that the update touches are the remote that was found.
  update_config-AreSafe :
      (name : Text) (cfg : Config) (r : Remote) (def : BackendDef) (s : Site)
      → get_remote_by_name name s.db ≡ some r
      → find_backend r.backend ≡ some def
      → All (IsEntry obscure def.fields) cfg
      → AreSafe s
      → AreSafe (update_config compact path writes name cfg s).1
  unfolding update_config update_remote get_remote_by_name
  update_config-AreSafe name cfg r def s found known new h = rw write_rclone_config-db (
    DistinctBy-update (λ q. q.name) (λ q. q.name == name) _ s.db.remotes (λ q. refl) h.0,
    All-update_cases (λ q. IsSafe obscure q × (q.name ≡ r.name → q ≡ r)) (IsSafe obscure)
        (λ q. q.name == name) (λ q. record q { config = cfg }) s.db.remotes
        (λ q safe e.
          let mine = eq_of_== r.name name (find-some (λ q. q.name == name) s.db.remotes r found) in
          let same = safe.1 (eq_of_== q.name name e ∙ sym mine) in
          (safe.0.0, def, ap (λ q. find_backend q.backend) same ∙ known, new))
        (λ q safe e. safe.0)
        (All-and (IsSafe obscure) (λ q. q.name ≡ r.name → q ≡ r) s.db.remotes h.1
          (All-only (λ q. q.name) s.db.remotes r h.0
            (Mem-find (λ q. q.name == name) s.db.remotes r found))),
  )

  edit_of-AreSafe :
      (name : Text) (form : Form) (r : Remote) (def : BackendDef) (s : Site)
      → get_remote_by_name name s.db ≡ some r
      → find_backend r.backend ≡ some def
      → All (IsEntry obscure def.fields) r.config
      → AreSafe s
      → AreSafe (edit_of obscure compact path writes name form r.config def s).1
  unfolding edit_of
  edit_of-AreSafe name form r def s found known old h =
      elim (Outcome-cases (edit_fields obscure form r.config def.fields [])) [
        | inr (why, e) ↦ rw (edit_of, e) h
        | inl (cfg, e) ↦
            rw (edit_of, e)
              (update_config-AreSafe name cfg r def s found known
                (edit_fields-IsEntry obscure def.fields form r.config def.fields [] cfg old
                  (All-Mem def.fields) tt e)
                h)
      ]

  edit_found-AreSafe :
      (name : Text) (form : Form) (r : Remote) (s : Site)
      → get_remote_by_name name s.db ≡ some r
      → AreSafe s
      → AreSafe (edit_found obscure compact path writes name form r s).1
  unfolding get_remote_by_name edit_found
  edit_found-AreSafe name form r s found h = elim (Option-cases (find_backend r.backend)) [
    | inl e ↦ rw (edit_found, e) h
    | inr (def, e) ↦
        let safe =
          All_of_Mem (IsSafe obscure) s.db.remotes r
            (Mem-find (λ q. q.name == name) s.db.remotes r found) h.1 in
        let same : safe.1 ≡ def = some-injective _ _ (sym safe.2 ∙ e) in
        rw (edit_found, e)
          (edit_of-AreSafe name form r def s found e
            (subst (λ b. All (IsEntry obscure b.fields) r.config) same safe.3) h)
  ]

  post_edit_remote-AreSafe :
      (name : Text) (form : Option Form) (s : Site)
      → AreSafe s
      → AreSafe (post_edit_remote obscure compact path writes name form s).1
  unfolding post_edit_remote
  post_edit_remote-AreSafe name none s h = elim (Bool-cases (valid_remote_name name)) [
    | inl v ↦ rw (post_edit_remote, v) h
    | inr v ↦ rw (post_edit_remote, v) h
  ]
  post_edit_remote-AreSafe name (some form) s h = elim (Bool-cases (valid_remote_name name)) [
    | inr v ↦ rw (post_edit_remote, v) h
    | inl v ↦ elim (Option-cases (get_remote_by_name name s.db)) [
      | inl e ↦ rw (post_edit_remote, v, e) h
      | inr (r, e) ↦ rw (post_edit_remote, v, e) (edit_found-AreSafe name form r s e h)
    ]
  ]

  post_delete_remote-AreSafe :
      (name : Text) (s : Site)
      → AreSafe s
      → AreSafe (post_delete_remote compact path writes name s).1
  unfolding delete_remote post_delete_remote
  post_delete_remote-AreSafe name s h = elim (Bool-cases (valid_remote_name name)) [
    | inr v ↦ rw (post_delete_remote, v) h
    | inl v ↦
        rw (post_delete_remote, v, write_rclone_config-db)
          (
            DistinctBy-select (λ r. r.name) (λ r. not (r.name == name)) s.db.remotes h.0,
            All-select (IsSafe obscure) (λ r. not (r.name == name)) s.db.remotes h.1,
          )
  ]

-- A request that writes the remotes.
pub data Request : Type 0 where
  create : Option Form → ℕ → Request
  edit : Text → Option Form → Request
  delete : Text → Request

unfoldable pub serve :
    (Text → Outcome Text Text) → (Text → Option Text) → Text → Bool → Request → Site → Site
serve obscure compact path writes (create form now) s =
    (post_create_remote obscure compact path writes form now s).1
serve obscure compact path writes (edit name form) s =
    (post_edit_remote obscure compact path writes name form s).1
serve obscure compact path writes (delete name) s =
    (post_delete_remote compact path writes name s).1

-- Remotes with distinct names, each with a valid name and a known backend, whose config has entries
-- for fields of that backend alone and holds of a password only what `rclone obscure` made of a
-- text, stay so after every request that creates, edits or deletes a remote, refused or not.
pub serve-AreSafe :
    (obscure : Text → Outcome Text Text) (compact : Text → Option Text) (path : Text)
    (writes : Bool) (r : Request) (s : Site)
    → AreSafe obscure compact path writes s
    → AreSafe obscure compact path writes (serve obscure compact path writes r s)
unfolding serve
serve-AreSafe obscure compact path writes (create form now) s h =
    post_create_remote-AreSafe obscure compact path writes form now s h
serve-AreSafe obscure compact path writes (edit name form) s h =
    post_edit_remote-AreSafe obscure compact path writes name form s h
serve-AreSafe obscure compact path writes (delete name) s h =
    post_delete_remote-AreSafe obscure compact path writes name s h
