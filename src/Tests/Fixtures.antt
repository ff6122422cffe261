-- ===== src/Tests/Fixtures.antt =====
-- One client with offsite on and its world: two snapshots on disk, of which the older is uploaded.
use backitup.Prelude.{ℕ, ◌*◌, ◌+◌, true, false, [], ◌∷◌, codes}
use backitup.Clock.{day}
use backitup.Model.{Client, Mode, OffsiteObject, Run, RunStatus, User}
use backitup.Store.{Db, empty_db}
use backitup.Lifecycle.{Deps, World, Snapshot}
use backitup.Tests.Lab.{lab, LabState}

abbrev pub present : ℕ
present = 1000 * day

abbrev pub nas : Client
nas = record {
  id = 1;
  name = codes "Nas";
  mode = Mode.targz;
  source_label = [];
  excludes = [];
  skip_symlinks = false;
  retention_days = 7;
  offsite_retention_days = 30;
  expected_interval_secs = 86400;
  offsite_remote = codes "b2";
  offsite_dir = [];
  offsite_cron = [];
  offsite_upload_mode = codes "latest";
  disable_offsite_pruning = false;
  ssh_pub_key = codes "ssh-ed25519 AAAA";
  token_hash = [];
  token_prefix = [];
  enabled = true;
  created_at = 0;
  version = 1;
}

abbrev pub laptop : Client
laptop = record nas { id = 2; name = codes "Laptop" }

abbrev pub old : Snapshot
old = record { id = codes "a"; created_at = 900 * day; bytes = 1 }

abbrev pub young : Snapshot
young = record { id = codes "b"; created_at = 999 * day; bytes = 1 }

abbrev pub object : OffsiteObject
object = record {
  id = 1;
  client_id = 1;
  snapshot_id = codes "a";
  remote = codes "b2";
  bytes = 1;
  uploaded_at = 900 * day;
  remote_missing = false;
  remote_verified_at = 0;
  checksum = codes "a";
}

abbrev pub run : Run
run = record {
  id = 1;
  client_id = 1;
  started_at = 999 * day;
  finished_at = 999 * day + 1;
  status = RunStatus.ok;
  bytes = 1;
  files = 1;
  snapshot_id = codes "a";
  log_tail = codes "log";
}

abbrev pub ann : User
ann = record { id = 1; username = codes "ann"; password_hash = []; created_at = 0 }

abbrev pub ben : User
ben = record { id = 2; username = codes "ben"; password_hash = []; created_at = 0 }

abbrev pub db : Db
db = record empty_db {
  clients = nas ∷ laptop ∷ [];
  next_client = 3;
  runs =
      run
      ∷ record run { id = 2; status = RunStatus.running }
      ∷ record run { id = 3; client_id = 2 }
      ∷ [];
  next_run = 4;
  objects = object ∷ [];
  next_object = 2;
  users = ann ∷ ben ∷ [];
  next_user = 3;
}

abbrev pub deps : Deps
deps = record {
  has_offsite = true;
  backup_base_dir = codes "/data";
  runs_keep_days = 0;
  log_retention_days = 0;
  part_orphan_age = 0;
  stale_run_timeout = 0;
  has_webhook = true;
  now = present;
}

abbrev pub lab_state : LabState
lab_state = record {
  disk = old ∷ young ∷ [];
  temps = [];
  objects = (codes "b2", codes "nas/a") ∷ [];
}

abbrev pub world : World lab
world = record { db = db; faults = false ∷ true ∷ []; sys = lab_state; alerted = []; sent = [] }
