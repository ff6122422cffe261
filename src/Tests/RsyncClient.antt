-- ===== src/Tests/RsyncClient.antt =====
-- A process that copies to a server in memory, and one backup with it.
use backitup.Prelude.{
  ◌≡◌, ◌≢◌, refl, true, false, List, [], ◌∷◌, Text, ok, Option, none, some, any, ◌==◌, text_eq,
  nat_eq, is_prefix, trim_left, if◌then◌else◌, codes, arith, inr,
}
use backitup.Server.Forms.{digits}
use backitup.Uploader.{BackupOpts}
use backitup.Modes.RsyncClient.{Process, sync_args, backup, parse_stats, find_figure, atoi_commas}
use backitup.Modes.RsyncClient.Latest.{Documented, backup-Flipped, Flipped}

-- The link and the snapshots on the server, and a link on the client.
record Copies : Type 0 where
  pub latest : Option Text
  pub snapshots : List Text
  pub link : Option Text

abbrev snap : Text
snap = codes "20240102T000000Z"

-- The second argument tells the two runs apart.
abbrev copy : List Text → Copies → Copies
copy (a ∷ b ∷ args) s =
    if b == codes "-e"
    then record s { latest = s.link }
    else record s { snapshots = snap ∷ s.snapshots }
copy args s = s

abbrev copies : Process
copies = record {
  State = Copies;
  look_path = λ s. true;
  run = λ args s. ((false, codes "Total file size: 1,024 bytes", []), copy args s);
  mkdir_temp = λ s. (ok (codes "/tmp/l"), s);
  symlink = λ t path s. (ok tt, record s { link = some t });
  remove_all = λ path s. s;
}

abbrev no_env : Text → Text
no_env name = []

abbrev opts : BackupOpts
opts = record {
  source_dir = codes "/data";
  excludes = [];
  skip_symlinks = false;
  has_previous_snapshot = true;
  ssh_server = codes "b:22";
  ssh_user = codes "u";
  ssh_key = codes "/key";
  known_hosts = codes "/known";
  insecure_ssh = false;
}

abbrev split_one : Text → Option (Text × Text)
split_one address = some (codes "b", codes "22")

same_other :
    (j : Text) (names : List Text)
    → snap ≢ j
    → any (λ x. x == j) (snap ∷ names) ≡ any (λ x. x == j) names
same_other j names n = let other : (snap == j) ≡ false = ground (arith, n) in rw other refl

copies_laws : Documented no_env copies opts (codes "b") snap
unfolding sync_args text_eq nat_eq
copies_laws = record {
  latest = λ s. s.latest;
  complete = λ j s. any (λ x. x == j) s.snapshots;
  link = λ path s. s.link;
  link-symlink = λ t path s h. refl;
  latest-mkdir_temp = λ s. refl;
  latest-symlink = λ t path s. refl;
  latest-remove_all = λ path s. refl;
  complete-mkdir_temp = λ j s. refl;
  complete-symlink = λ j t path s. refl;
  complete-remove_all = λ j path s. refl;
  latest-sync = λ ssh s. refl;
  complete-sync = λ ssh s h. refl;
  complete-sync_other = λ ssh j s n. same_other j s.snapshots n;
  complete-flip = λ ssh path j s. refl;
  latest-flip = λ ssh path s h. refl;
  latest-flip_failed = λ ssh path s. inr refl;
}

abbrev before : Copies
before = record {
  latest = some (codes "20240101T000000Z");
  snapshots = codes "20240101T000000Z" ∷ [];
  link = none;
}

backup-Flipped_example :
    Flipped no_env copies opts
      (codes "b")
      snap
      copies_laws
      (backup copies split_one no_env opts snap 5 9 before)
unfolding copies_laws
backup-Flipped_example =
    backup-Flipped no_env copies opts (codes "b") snap copies_laws split_one 5 9 before refl
      (λ h. absurd (ground (arith, h))) refl

-- A figure with a comma, behind the first label that has one.
parse_stats_test :
    parse_stats (codes "Number of files: none\nNumber of files: 1,203 (reg: 9)\n") ≡ (1203, 0)
unfolding parse_stats find_figure atoi_commas text_eq nat_eq is_prefix trim_left digits
parse_stats_test = refl
