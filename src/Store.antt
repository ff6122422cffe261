-- ===== src/Store.antt =====
-- internal/store/store.go and schema.sql: the database, a list of rows for each table in the order
-- of insertion, with the counters of AUTOINCREMENT. The children hold the statements; a statement
-- that a constraint refuses changes nothing.
pub mod Clients
pub mod Invariant
pub mod Runs
pub mod Objects
pub mod OffsiteRuns
pub mod Users
pub mod Remotes
use backitup.Prelude.{ℕ, Bool, List, [], Text, Outcome, any, ◌==◌, nat_eq}
use backitup.Model.{Client, Run, OffsiteObject, OffsiteRun, User}

-- internal/model/remote.go: `Remote`; the config is a map from keys to values, the backend an id.
pub record Remote : Type 0 where
  pub id : ℕ
  pub name : Text
  pub backend : Text
  pub config : List (Text × Text)
  pub created_at : ℕ

pub record Db : Type 0 where
  pub clients : List Client
  pub next_client : ℕ
  pub runs : List Run
  pub next_run : ℕ
  pub objects : List OffsiteObject
  pub next_object : ℕ
  pub offsite_runs : List OffsiteRun
  pub next_offsite_run : ℕ
  pub users : List User
  pub next_user : ℕ
  pub remotes : List Remote
  pub next_remote : ℕ

-- `unavailable` is a statement that SQLite or the context's deadline made fail.
pub data DbError : Type 0 where
  unique foreign_key check not_found conflict unavailable : DbError

abbrev pub Answer : Type 0 → Type 0
Answer A = Outcome DbError A × Db

abbrev pub empty_db : Db
empty_db = record {
  clients = [];
  next_client = 1;
  runs = [];
  next_run = 1;
  objects = [];
  next_object = 1;
  offsite_runs = [];
  next_offsite_run = 1;
  users = [];
  next_user = 1;
  remotes = [];
  next_remote = 1;
}

-- The reference `client_id` of a row is to an existing client.
abbrev pub has_client : Db → ℕ → Bool
has_client d id = any (λ c. c.id == id) d.clients
