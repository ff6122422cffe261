-- ===== src/Tests/Lab.antt =====
-- A platform in memory: snapshots on one disk, temporary files, and objects on remotes. Every call
-- succeeds.
use backitup.Prelude.{
  ◌≡◌, ◌≢◌, refl, Bool, true, ◌&&◌, not, List, [], ◌∷◌, Text, ok, All, any, select, subst, map,
  arith, ◌==◌, ==_refl, text_eq,
}
use backitup.Prelude.Rows.{any-select, All-select_self}
use backitup.FilePath.{is_name}
use backitup.Lifecycle.{Platform, Snapshot}
use backitup.Lifecycle.Observed.{Observed}

pub record LabState : Type 0 where
  pub disk : List Snapshot
  pub temps : List Text
  pub objects : List (Text × Text)

abbrev pub is_at : Text → Text → Text × Text → Bool
is_at remote o e = e.0 == remote && e.1 == o

abbrev pub lab : Platform
lab = record {
  State = LabState;
  list = λ m dir s. ok (select (λ x. is_name x.id) s.disk);
  prepare_offsite = λ m dir x s. (ok x.id, record s { temps = x.id ∷ s.temps });
  delete_snapshot = λ m dir i s. (ok tt, record s { disk = select (λ x. not (x.id == i)) s.disk });
  read_dir = λ dir s. [];
  remove_file = λ path s. record s { temps = select (λ t. not (t == path)) s.temps };
  checksum = λ path s. ok path;
  upload = λ path remote o s. (ok 1, record s { objects = (remote, o) ∷ s.objects });
  delete_object =
      λ remote o s. (ok tt, record s { objects = select (λ e. not (is_at remote o e)) s.objects });
  lsf = λ remote dir s. ok (map (λ e. e.1) s.objects);
}

abbrev pub on_disk : Text → LabState → Bool
on_disk i s = any (λ x. x.id == i) s.disk

abbrev pub on_remote : Text → Text → LabState → Bool
on_remote remote o s = any (is_at remote o) s.objects

pub on_disk-delete :
    (i j : Text) (xs : List Snapshot)
    → i ≢ j
    → any (λ x. x.id == j) (select (λ x. not (x.id == i)) xs) ≡ any (λ x. x.id == j) xs
on_disk-delete i j xs n =
    any-select (λ x. x.id == j) (λ x. not (x.id == i)) xs (λ x h. ground (arith, n, h))

pub on_remote-delete :
    (r o q : Text) (es : List (Text × Text))
    → o ≢ q
    → any (is_at r q) (select (λ e. not (is_at r o e)) es) ≡ any (is_at r q) es
on_remote-delete r o q es n =
    any-select (is_at r q) (λ e. not (is_at r o e)) es (λ e h. ground (arith, n, h))

pub on_remote-upload :
    (r q remote o : Text) (s : LabState)
    → on_remote remote o s ≡ true
    → on_remote remote o (record s { objects = (r, q) ∷ s.objects }) ≡ true
on_remote-upload r q remote o s h = ground (arith, h)

pub listed_names :
    (xs ys : List Snapshot) → select (λ x. is_name x.id) xs ≡ ys → All (λ x. is_name x.id ≡ true) ys
listed_names xs ys same =
    subst (All (λ x. is_name x.id ≡ true)) same (All-select_self (λ x. is_name x.id) xs)

unfoldable pub lab_laws : Observed lab
lab_laws = record {
  present = λ m dir. on_disk;
  has = on_remote;
  list-IsName = λ m dir s e. listed_names s.disk _ (cc);
  read_dir-IsName = λ dir s. tt;
  present-delete_snapshot = λ m dir i j s v n. on_disk-delete i j s.disk n;
  present-remove_file = λ m dir name j s v n. refl;
  has-prepare_offsite = λ m dir x remote o s. refl;
  has-remove_file = λ path remote o s. refl;
  has-upload = λ path remote o s h. rw (==_refl remote, ==_refl o);
  has-upload_other = λ path r q remote o s h. on_remote-upload r q remote o s h;
  has-delete_object = λ remote o q s n. on_remote-delete remote o q s.objects n;
  present-delete_object = λ remote o m dir j s. refl;
}
