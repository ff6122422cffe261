-- ===== src/Modes/Unsized.antt =====
-- What the check of the newest snapshot says of those of rsync.
use backitup.Prelude.{
  ℕ, ◌≡◌, refl, subst, List, [], ◌∷◌, Text, Outcome, ok, err, Option, All, sort_by-All, arith, ◌||◌,
  not, ◌==◌, nat_eq, text_eq, Bool-cases, inl, inr, ltb,
}
use backitup.Model.{Client, Mode}
use backitup.Lifecycle.{Snapshot}
use backitup.Lifecycle.Integrity.{GzipFile, empty_snapshot, verify_latest}
use backitup.Lifecycle.Upload.{newest_first}
use backitup.Modes.{DirEntry}
use backitup.Modes.Listed.{in_list-All}
use backitup.Modes.Rsync.{latest, list_snapshots, snapshot_of}

abbrev IsUnsized : Snapshot → Type 0
IsUnsized s = s.bytes ≡ 0

snapshot_of-IsUnsized :
    (parse_time : Text → Option ℕ) (name : Text) (r : Outcome Text (ℕ × ℕ)) (x : Snapshot)
    → snapshot_of parse_time name r ≡ ok x
    → IsUnsized x
snapshot_of-IsUnsized parse_time name (ok (t, n)) x h = ground (arith, h)
snapshot_of-IsUnsized parse_time name (err e) x h = absurd (ground (arith, h))

list_snapshots-AreUnsized :
    (parse_time : Text → Option ℕ) (es : List DirEntry) (xs : List Snapshot)
    → list_snapshots parse_time es ≡ ok xs
    → All IsUnsized xs
unfolding list_snapshots
list_snapshots-AreUnsized parse_time [] xs h =
    let same : [] ≡ xs = cc in subst (All IsUnsized) same tt
list_snapshots-AreUnsized parse_time (e ∷ es) xs h =
    elim (Bool-cases (e.name == latest || not e.is_dir)) [
      | inl skip ↦ list_snapshots-AreUnsized parse_time es xs (rw skip at h)
      | inr take ↦
          in_list-All IsUnsized (snapshot_of parse_time e.name e.info)
            (list_snapshots parse_time es) xs
            (λ x q. snapshot_of-IsUnsized parse_time e.name e.info x q)
            (λ ys q. list_snapshots-AreUnsized parse_time es ys q) (rw take at h)
    ]

-- A client of the mode rsync that has a snapshot gets the warning about an empty one, whatever its
-- snapshots hold.
verify_latest-list_snapshots :
    (gzip_file : Text → GzipFile) (parse_time : Text → Option ℕ) (c : Client) (dir : Text)
    (es : List DirEntry) (xs : List Snapshot) (s : Snapshot) (rest : List Snapshot)
    → c.mode ≡ Mode.rsync
    → list_snapshots parse_time es ≡ ok xs
    → newest_first xs ≡ s ∷ rest
    → verify_latest gzip_file c dir (newest_first xs) ≡ empty_snapshot s.id
unfolding verify_latest newest_first nat_eq
verify_latest-list_snapshots gzip_file parse_time c dir es xs s rest m h q =
    let all =
      sort_by-All IsUnsized (λ a b. ltb b.created_at a.created_at) xs
        (list_snapshots-AreUnsized parse_time es xs h) in
    let none : All IsUnsized (s ∷ rest) = subst (All IsUnsized) q all in rw (q, m, none.0) refl
