-- ===== src/Lifecycle.antt =====
-- internal/lifecycle: what the two workers act on. The disk, the modes' server sides
-- (internal/mode) and rclone are a `Platform`; every statement on the database may fail, as
-- `faults` has it. A function returns its result beside the world that it leaves.
pub mod Integrity
pub mod Naming
pub mod Observed
pub mod Keeps
pub mod Maintains
pub mod Upload
pub mod Prune
pub mod Verify
pub mod Pass
pub mod Worker
use backitup.Prelude.{
  ℕ, Bool, true, false, List, [], ◌∷◌, ◌++◌, Text, Outcome, ok, err, Option, none, some,
}
use backitup.FilePath.{join}
use backitup.Model.{Client, Mode}
use backitup.Model.Slug.{slug}
use backitup.Store.{Db, DbError, Answer, unavailable}

-- internal/mode/mode.go
pub record Snapshot : Type 0 where
  pub id : Text
  pub created_at : ℕ
  pub bytes : ℕ

-- `os.DirEntry` with its `FileInfo`.
pub record Entry : Type 0 where
  pub name : Text
  pub is_dir : Bool
  pub mod_time : ℕ

pub record Platform : Type 1 where
  pub State : Type 0
  -- `ServerMode` of a mode, at a client's directory
  pub list : Mode → Text → State → Outcome Text (List Snapshot)
  pub prepare_offsite : Mode → Text → Snapshot → State → Outcome Text Text × State
  pub delete_snapshot : Mode → Text → Text → State → Outcome Text (Unit {0}) × State
  -- the disk
  pub read_dir : Text → State → List Entry
  pub remove_file : Text → State → State
  pub checksum : Text → State → Outcome Text Text
  -- rclone: local path, remote and object; remote and object; remote and directory
  pub upload : Text → Text → Text → State → Outcome Text ℕ × State
  pub delete_object : Text → Text → State → Outcome Text (Unit {0}) × State
  pub lsf : Text → Text → State → Outcome Text (List Text)

pub data Failure : Type 0 where
  no_server_mode no_remote : Failure
  database : DbError → Failure
  tool : Text → Failure

pub data Alert : Type 0 where
  uploaded pruned : ℕ → Text → Alert
  upload_failed stale_backup : ℕ → Alert

pub record Deps : Type 0 where
  pub has_offsite : Bool
  pub backup_base_dir : Text
  pub runs_keep_days : ℕ
  pub log_retention_days : ℕ
  pub part_orphan_age : ℕ
  pub stale_run_timeout : ℕ
  pub has_webhook : Bool
  -- the time of the pass, read once
  pub now : ℕ

pub record World (P : Platform) : Type 0 where
  pub db : Db
  -- whether the next statements fail
  pub faults : List Bool
  pub sys : P.State
  -- `staleAlerted`: client ids with the time of the last alert, the latest first
  pub alerted : List (ℕ × ℕ)
  pub sent : List Alert

abbrev pub Action : Platform → Type 0 → Type 0
Action P A = World P → A × World P

module _ {P : Platform} where
  abbrev pub return : {A : Type 0} → A → Action P A
  return a w = (a, w)

  infixl 5 ◌>>=◌ ◌>>◌
  abbrev pub ◌>>=◌ : {A B : Type 0} → Action P A → (A → Action P B) → Action P B
  ◌>>=◌ m f w = let (a, w') = m w in f a w'

  abbrev pub ◌>>◌ : {A B : Type 0} → Action P A → Action P B → Action P B
  m >> k = m >>= λ _. k

  -- `a, err := m(); if err != nil { fail } ; rest`
  abbrev pub handle :
      {E A B : Type 0} → Outcome E A → (E → Action P B) → (A → Action P B) → Action P B
  handle (ok a) fail rest = rest a
  handle (err e) fail rest = fail e

  abbrev pub attempt :
      {E A B : Type 0} → Action P (Outcome E A) → (E → Action P B) → (A → Action P B) → Action P B
  attempt m fail rest = m >>= λ r. handle r fail rest

  -- A statement of the store.
  abbrev run_statement : {A : Type 0} → List Bool → (Db → Answer A) → Action P (Outcome DbError A)
  run_statement [] f w = let (r, d) = f w.db in (r, record w { db = d })
  run_statement (false ∷ rest) f w = let (r, d) = f w.db in (r, record w { db = d; faults = rest })
  run_statement (true ∷ rest) f w = (err unavailable, record w { faults = rest })

  unfoldable pub exec : {A : Type 0} → (Db → Answer A) → Action P (Outcome DbError A)
  exec f w = run_statement w.faults f w

  unfoldable pub query : {A : Type 0} → (Db → A) → Action P (Outcome DbError A)
  unfolding exec
  query f = exec (λ d. (ok (f d), d))

  -- A call on the platform that may fail, one that cannot, and one that only reads.
  abbrev pub act : {A : Type 0} → (P.State → A × P.State) → Action P A
  act f w = let (a, s) = f w.sys in (a, record w { sys = s })

  abbrev pub change : (P.State → P.State) → Action P (Unit {0})
  change f w = (tt, record w { sys = f w.sys })

  abbrev pub read : {A : Type 0} → (P.State → A) → Action P A
  read f w = (f w.sys, w)

  -- `go alert.Discord(…)`, a no-op without a webhook.
  unfoldable pub alert : Bool → Alert → Action P (Unit {0})
  alert true a w = (tt, record w { sent = a ∷ w.sent })
  alert false a w = (tt, w)

abbrev pub client_dir : Deps → Client → Text
client_dir d c = join d.backup_base_dir (slug c.name)
