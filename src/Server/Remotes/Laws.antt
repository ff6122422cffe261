-- ===== src/Server/Remotes/Laws.antt =====
-- What the table of remotes can hold.
use backitup.Prelude.{
  ◌≡◌, refl, ◌∙◌, subst, true, not, List, [], ◌∷◌, Text, Outcome, ok, some, All, arith, ◌==◌,
  nat_eq, text_eq, eq_of_==, Bool-cases, Option-cases, Outcome-cases, inl, inr, trim_space,
}
use mathlib.Core.List.{Memᴰ}
use backitup.Prelude.Rows.{All-select}
use backitup.Model.Backends.{RemoteField, BackendDef, find_backend}
use backitup.Store.{Remote}
use backitup.Server.Remotes.{
  Config, Form, put, keep, lookup, stored, create_fields, edit_fields, valid_remote_name,
}

module _ (obscure : Text → Outcome Text Text) where
  -- A value of a field; one that is a password is an output of `rclone obscure`.
  abbrev pub IsValueOf : RemoteField → Text → Type 0
  IsValueOf f v = f.obscure ≡ true → (raw : Text) × (obscure raw ≡ ok v)

  -- An entry of a config is for a field of the backend.
  abbrev pub IsEntry : List RemoteField → Text × Text → Type 0
  IsEntry fs e = (f : RemoteField) × Memᴰ f fs × (f.key ≡ e.0) × IsValueOf f e.1

  -- A remote with a valid name, of a known backend.
  abbrev pub IsSafe : Remote → Type 0
  IsSafe r =
      (valid_remote_name r.name ≡ true)
      × (def : BackendDef) × (find_backend r.backend ≡ some def)
      × All (IsEntry def.fields) r.config

  stored-IsValueOf : (f : RemoteField) (val v : Text) → stored obscure f val ≡ ok v → IsValueOf f v
  unfolding stored
  stored-IsValueOf f val v h secret = (val, ground (arith, h, secret))

  put-IsEntry :
      (fs : List RemoteField) (f : RemoteField) (v : Text) (cfg : Config)
      → Memᴰ f fs
      → IsValueOf f v
      → All (IsEntry fs) cfg
      → All (IsEntry fs) (put f.key v cfg)
  put-IsEntry fs f v cfg m val h =
      ((f, m, refl, val), All-select (IsEntry fs) (λ e. not (e.0 == f.key)) cfg h)

  pub create_fields-IsEntry :
      (all_ : List RemoteField) (form : Form) (fs : List RemoteField) (cfg result : Config)
      → All (λ f. Memᴰ f all_) fs
      → All (IsEntry all_) cfg
      → create_fields obscure form fs cfg ≡ ok result
      → All (IsEntry all_) result
  unfolding create_fields
  create_fields-IsEntry all_ form [] cfg result m h e =
      subst (All (IsEntry all_)) (ground (arith, e)) h
  create_fields-IsEntry all_ form (f ∷ fs) cfg result m h e =
      elim (Bool-cases (trim_space (form f.key) == [])) [
        | inl empty ↦ create_fields-IsEntry all_ form fs cfg result m.1 h (ground (arith, e, empty))
        | inr full ↦ elim (Outcome-cases (stored obscure f (trim_space (form f.key)))) [
          | inr (why, bad) ↦ ground (arith, e, full, bad)
          | inl (v, good) ↦
              create_fields-IsEntry all_ form fs (put f.key v cfg) result m.1
                (put-IsEntry all_ f v cfg m.0 (stored-IsValueOf f _ v good) h)
                (ground (arith, e, full, good))
        ]
      ]

  lookup-IsEntry :
      (fs : List RemoteField) (k v : Text) (cfg : Config)
      → All (IsEntry fs) cfg
      → lookup k cfg ≡ some v
      → IsEntry fs (k, v)
  unfolding lookup
  lookup-IsEntry fs k v [] h e = cc
  lookup-IsEntry fs k v (x ∷ xs) h e = elim (Bool-cases (x.0 == k)) [
    | inl same ↦
        let (f, m, key, val) = h.0 in
        let value : x.1 ≡ v = ground (arith, e, same) in
        (f, m, key ∙ eq_of_== x.0 k same, subst (IsValueOf f) value val)
    | inr other ↦ lookup-IsEntry fs k v xs h.1 (ground (arith, e, other))
  ]

  keep-IsEntry :
      (fs : List RemoteField) (k : Text) (old cfg : Config)
      → All (IsEntry fs) old
      → All (IsEntry fs) cfg
      → All (IsEntry fs) (keep obscure k (lookup k old) cfg)
  keep-IsEntry fs k old cfg h g = elim (Option-cases (lookup k old)) [
    | inl e ↦ rw e g
    | inr (v, e) ↦
        rw e (lookup-IsEntry fs k v old h e, All-select (IsEntry fs) (λ x. not (x.0 == k)) cfg g)
  ]

  pub edit_fields-IsEntry :
      (all_ : List RemoteField) (form : Form) (old : Config) (fs : List RemoteField)
      (cfg result : Config)
      → All (IsEntry all_) old
      → All (λ f. Memᴰ f all_) fs
      → All (IsEntry all_) cfg
      → edit_fields obscure form old fs cfg ≡ ok result
      → All (IsEntry all_) result
  unfolding edit_fields
  edit_fields-IsEntry all_ form old [] cfg result o m h e =
      subst (All (IsEntry all_)) (ground (arith, e)) h
  edit_fields-IsEntry all_ form old (f ∷ fs) cfg result o m h e =
      elim (Bool-cases (trim_space (form f.key) == [])) [
        | inl empty ↦
            edit_fields-IsEntry all_ form old fs (keep obscure f.key (lookup f.key old) cfg) result
              o m.1 (keep-IsEntry all_ f.key old cfg o h) (ground (arith, e, empty))
        | inr full ↦ elim (Outcome-cases (stored obscure f (trim_space (form f.key)))) [
          | inr (why, bad) ↦ ground (arith, e, full, bad)
          | inl (v, good) ↦
              edit_fields-IsEntry all_ form old fs (put f.key v cfg) result o m.1
                (put-IsEntry all_ f v cfg m.0 (stored-IsValueOf f _ v good) h)
                (ground (arith, e, full, good))
        ]
      ]
