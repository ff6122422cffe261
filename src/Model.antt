-- ===== src/Model.antt =====
-- internal/model/model.go: the domain types. Times are nanoseconds since Go's zero time, so 0 is
-- `IsZero`; the integer settings are those that the handlers write, which are not negative.
pub mod Slug
pub mod Backends
pub mod HealthRule
pub mod LogTail
use backitup.Prelude.{ℕ, Bool, true, false, List, Text}

-- Go's `type Mode string`; `other` is any string but the two known ones.
pub data Mode : Type 0 where
  targz rsync : Mode
  other : Text → Mode

unfoldable pub is_valid : Mode → Bool
is_valid targz = true
is_valid rsync = true
is_valid (other s) = false

-- Go's `type RunStatus string`.
pub data RunStatus : Type 0 where
  ok failed overlap running : RunStatus
  unknown : Text → RunStatus

pub data Health : Type 0 where
  ok stale failed never running : Health

pub record Client : Type 0 where
  pub id : ℕ
  pub name : Text
  pub mode : Mode
  pub source_label : Text
  pub excludes : List Text
  pub skip_symlinks : Bool
  pub retention_days : ℕ
  pub offsite_retention_days : ℕ
  pub expected_interval_secs : ℕ
  pub offsite_remote : Text
  pub offsite_dir : Text
  pub offsite_cron : Text
  pub offsite_upload_mode : Text
  pub disable_offsite_pruning : Bool
  pub ssh_pub_key : Text
  pub token_hash : Text
  pub token_prefix : Text
  pub enabled : Bool
  pub created_at : ℕ
  pub version : ℕ

pub record Run : Type 0 where
  pub id : ℕ
  pub client_id : ℕ
  pub started_at : ℕ
  pub finished_at : ℕ
  pub status : RunStatus
  pub bytes : ℕ
  pub files : ℕ
  pub snapshot_id : Text
  pub log_tail : Text

pub record OffsiteObject : Type 0 where
  pub id : ℕ
  pub client_id : ℕ
  pub snapshot_id : Text
  pub remote : Text
  pub bytes : ℕ
  pub uploaded_at : ℕ
  pub remote_missing : Bool
  pub remote_verified_at : ℕ
  pub checksum : Text

pub record OffsiteRun : Type 0 where
  pub id : ℕ
  pub client_id : ℕ
  pub triggered_by : Text
  pub started_at : ℕ
  pub finished_at : ℕ
  pub status : Text
  pub snapshots_uploaded : ℕ
  pub bytes_uploaded : ℕ
  pub error_text : Text

pub record User : Type 0 where
  pub id : ℕ
  pub username : Text
  pub password_hash : Text
  pub created_at : ℕ
