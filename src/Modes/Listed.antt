-- ===== src/Modes/Listed.antt =====
-- What the modes list has the names of entries.
use backitup.Prelude.{
  ℕ, ◌≡◌, refl, subst, true, false, ◌||◌, not, List, [], ◌∷◌, Text, Outcome, ok, err, Option, All,
  any, arith, ◌==◌, nat_eq, text_eq, Bool-cases, inl, inr, codes,
}
use backitup.FilePath.{is_name}
use backitup.Lifecycle.{Snapshot, Entry}
use backitup.Lifecycle.Prune.{has_suffix}
use backitup.Modes.{DirEntry}
use backitup.Modes.Targz.{list_archives, in_list, archive_of}
use backitup.Modes.Rsync.{latest, list_snapshots, snapshot_of}
use backitup.Modes.Platform.{with_known, known_entries}

pub in_list-All :
    (Q : Snapshot → Type 0) (r : Outcome Text Snapshot) (rest : Outcome Text (List Snapshot))
    (xs : List Snapshot)
    → ((x : Snapshot) → r ≡ ok x → Q x)
    → ((ys : List Snapshot) → rest ≡ ok ys → All Q ys)
    → in_list r rest ≡ ok xs
    → All Q xs
in_list-All Q (err e) rest xs hx hr h = absurd (ground (arith, h))
in_list-All Q (ok x) (err e) xs hx hr h = absurd (ground (arith, h))
in_list-All Q (ok x) (ok ys) xs hx hr h =
    let same : x ∷ ys ≡ xs = cc in subst (All Q) same (hx x refl, hr ys refl)

abbrev pub IsNamed : Snapshot → Type 0
IsNamed x = is_name x.id ≡ true

archive_of-IsNamed :
    (name : Text) (info : Outcome Text (ℕ × ℕ)) (x : Snapshot)
    → is_name name ≡ true
    → archive_of name info ≡ ok x
    → IsNamed x
archive_of-IsNamed name (ok (t, n)) x v h =
    let same : name ≡ x.id = ground (arith, h) in subst (λ i. is_name i ≡ true) same v
archive_of-IsNamed name (err e) x v h = absurd (ground (arith, h))

pub archives-IsNamed :
    (es : List DirEntry) (xs : List Snapshot)
    → All (λ e. is_name e.name ≡ true) es
    → list_archives es ≡ ok xs
    → All IsNamed xs
unfolding list_archives
archives-IsNamed [] xs v h = let same : [] ≡ xs = cc in subst (All IsNamed) same tt
archives-IsNamed (e ∷ es) xs v h =
    elim (Bool-cases (e.is_dir || not (has_suffix e.name (codes ".tar.gz")))) [
      | inl skip ↦ archives-IsNamed es xs v.1 (rw skip at h)
      | inr take ↦
          in_list-All IsNamed (archive_of e.name e.info) (list_archives es) xs
            (λ x q. archive_of-IsNamed e.name e.info x v.0 q) (λ ys q. archives-IsNamed es ys v.1 q)
            (rw take at h)
    ]

module _ (parse_time : Text → Option ℕ) where
  snapshot_of-IsNamed :
      (name : Text) (info : Outcome Text (ℕ × ℕ)) (x : Snapshot)
      → is_name name ≡ true
      → snapshot_of parse_time name info ≡ ok x
      → IsNamed x
  snapshot_of-IsNamed name (ok (t, n)) x v h =
      let same : name ≡ x.id = ground (arith, h) in subst (λ i. is_name i ≡ true) same v
  snapshot_of-IsNamed name (err e) x v h = absurd (ground (arith, h))

  pub snapshots-IsNamed :
      (es : List DirEntry) (xs : List Snapshot)
      → All (λ e. is_name e.name ≡ true) es
      → list_snapshots parse_time es ≡ ok xs
      → All IsNamed xs
  unfolding list_snapshots
  snapshots-IsNamed [] xs v h = let same : [] ≡ xs = cc in subst (All IsNamed) same tt
  snapshots-IsNamed (e ∷ es) xs v h = elim (Bool-cases (e.name == latest || not e.is_dir)) [
    | inl skip ↦ snapshots-IsNamed es xs v.1 (rw skip at h)
    | inr take ↦
        in_list-All IsNamed (snapshot_of parse_time e.name e.info) (list_snapshots parse_time es) xs
          (λ x q. snapshot_of-IsNamed e.name e.info x v.0 q) (λ ys q. snapshots-IsNamed es ys v.1 q)
          (rw take at h)
  ]

with_known-IsName :
    (e : DirEntry) (i : Outcome Text (ℕ × ℕ)) (rest : List Entry)
    → is_name e.name ≡ true
    → All (λ x. is_name x.name ≡ true) rest
    → All (λ x. is_name x.name ≡ true) (with_known e i rest)
with_known-IsName e (ok (t, n)) rest v h = (v, h)
with_known-IsName e (err x) rest v h = h

pub known_entries-IsName :
    (es : List DirEntry)
    → All (λ e. is_name e.name ≡ true) es
    → All (λ e. is_name e.name ≡ true) (known_entries es)
known_entries-IsName [] v = tt
known_entries-IsName (e ∷ es) v =
    with_known-IsName e e.info (known_entries es) v.0 (known_entries-IsName es v.1)

pub nameless :
    (es : List DirEntry) → All (λ e. is_name e.name ≡ true) es → any (λ e. e.name == []) es ≡ false
nameless [] v = refl
nameless (e ∷ es) v = ground (arith, nameless es v.1)
