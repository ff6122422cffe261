-- ===== src/Modes/Rclone.antt =====
-- internal/lifecycle/rclone.go: the calls of the program `rclone`, which is a parameter with the
-- remotes that it reaches.
use backitup.Prelude.{
  ℕ, ◌≡◌, ◌≢◌, Bool, true, not, List, [], ◌∷◌, ◌++◌, Text, Outcome, ok, err, select, split,
  trim_space, ◌==◌, text_eq, if◌then◌else◌, codes,
}

pub record Cloud : Type 1 where
  pub State : Type 0
  -- the standard output of a run with these arguments, or the error with its detail
  pub run : List Text → State → Outcome Text Text × State
  -- whether an object is on a remote
  pub has : Text → Text → State → Bool

-- The arguments behind the options that every run has.
unfoldable pub full_args : Text → List Text → List Text
full_args config args =
    codes "--log-level"
    ∷ codes "DEBUG"
    ∷ (if config == [] then args else codes "--config" ∷ config ∷ args)

abbrev pub object_at : Text → Text → Text
object_at remote object_name = remote ++ b':' ∷ object_name

abbrev pub copyto : Text → Text → Text → Text → List Text
copyto config path remote object_name =
    full_args config (codes "copyto" ∷ path ∷ object_at remote object_name ∷ [])

abbrev pub deletefile : Text → Text → Text → List Text
deletefile config remote object_name =
    full_args config (codes "deletefile" ∷ object_at remote object_name ∷ [])

-- What the program's documentation says of the two commands that write.
pub record DocumentedCloud (C : Cloud) : Type 0 where
  pub has-copyto :
      (config path remote o : Text) (s : C.State) {out : Text}
      → (C.run (copyto config path remote o) s).0 ≡ ok out
      → C.has remote o (C.run (copyto config path remote o) s).1 ≡ true
  pub has-copyto_other :
      (config path r q remote o : Text) (s : C.State)
      → C.has remote o s ≡ true
      → C.has remote o (C.run (copyto config path r q) s).1 ≡ true
  pub has-deletefile :
      (config remote o q : Text) (s : C.State)
      → o ≢ q
      → C.has remote q (C.run (deletefile config remote o) s).1 ≡ C.has remote q s

abbrev pub size_after : Outcome Text ℕ → Outcome Text Text → Outcome Text ℕ
size_after size (ok out) = size
size_after size (err e) = err e

abbrev pub done : Outcome Text Text → Outcome Text (Unit {0})
done (ok out) = ok tt
done (err e) = err e

module _ (C : Cloud) (config : Text) where
  -- The size is read from the disk behind the copy.
  unfoldable pub upload : Outcome Text ℕ → Text → Text → Text → C.State → Outcome Text ℕ × C.State
  upload size path remote object_name s =
      let (r, s') = C.run (copyto config path remote object_name) s in (size_after size r, s')

  unfoldable pub delete : Text → Text → C.State → Outcome Text (Unit {0}) × C.State
  delete remote object_name s =
      let (r, s') = C.run (deletefile config remote object_name) s in (done r, s')

  unfoldable pub lsf : Text → Text → C.State → Outcome Text (List Text)
  lsf remote dir s = elim (C.run (full_args config (codes "lsf" ∷ object_at remote dir ∷ [])) s).0 [
    | ok out ↦ ok (select (λ line. not (line == [])) (split 10 (trim_space out)))
    | err e ↦ err e
  ]
