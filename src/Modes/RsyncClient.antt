-- ===== src/Modes/RsyncClient.antt =====
-- internal/mode/rsync/rsync.go: a backup on the client. The processes of rsync, with what they reach,
-- are a record; `net.SplitHostPort` is a parameter, and the name of the snapshot, which is the time
-- of the start, and the times are arguments.
pub mod Latest
use backitup.Prelude.{
  ℕ, ◌-◌, ◌^◌, Bool, true, false, ◌&&◌, ◌||◌, not, List, [], ◌∷◌, ◌++◌, Text, Outcome, ok, err,
  Option, none, some, map, select, length, drop, leb, ◌==◌, nat_eq, text_eq, if◌then◌else◌, codes,
  trim_left, trim_space, is_prefix,
}
use backitup.FilePath.{join}
use backitup.Server.Forms.{digits, is_digit}
use backitup.Uploader.{BackupOpts, BackupResult}

pub record Process : Type 1 where
  pub State : Type 0
  -- `exec.LookPath`; a run with its arguments: whether it failed, its output and its errors
  pub look_path : State → Bool
  pub run : List Text → State → (Bool × Text × Text) × State
  -- a new directory, and a link in it
  pub mkdir_temp : State → Outcome Text Text × State
  pub symlink : Text → Text → State → Outcome Text (Unit {0}) × State
  pub remove_all : Text → State → State

abbrev has_slash : Text → Bool
has_slash [] = false
has_slash (c ∷ []) = c == b'/'
has_slash (c ∷ d ∷ s) = has_slash (d ∷ s)

unfoldable ensure_trailing_slash : Text → Text
ensure_trailing_slash p = if has_slash p then p else p ++ codes "/"

-- `strings.Join` with a space.
abbrev pub join_space : List Text → Text
join_space [] = []
join_space (x ∷ []) = x
join_space (x ∷ y ∷ ys) = x ++ b' ' ∷ join_space (y ∷ ys)

module _ (split_host_port : Text → Option (Text × Text)) (env : Text → Text) where
  -- The options about the server's key, `none` where there is no file to check it against.
  unfoldable pub host_key_options : BackupOpts → Option (List Text)
  host_key_options o =
      if o.insecure_ssh
      then some (
          codes "-o"
          ∷ codes "StrictHostKeyChecking=no"
          ∷ codes "-o"
          ∷ codes "UserKnownHostsFile=/dev/null"
          ∷ [])
      else if o.known_hosts == []
      then none
      else some (
          codes "-o"
          ∷ codes "StrictHostKeyChecking=yes"
          ∷ codes "-o"
          ∷ (codes "UserKnownHostsFile=" ++ o.known_hosts)
          ∷ [])

  abbrev pub ssh_options : BackupOpts → Text → List Text
  ssh_options o port =
      (codes "ssh"
        ∷ codes "-i"
        ∷ o.ssh_key
        ∷ codes "-p"
        ∷ port
        ∷ codes "-o"
        ∷ codes "BatchMode=yes"
        ∷ codes "-o"
        ∷ codes "ConnectTimeout=30"
        ∷ codes "-o"
        ∷ codes "ServerAliveInterval=60"
        ∷ codes "-o"
        ∷ codes "ServerAliveCountMax=3"
        ∷ [])
      ++ (if env (codes "BACKITUP_SSH_DEBUG") == codes "1" then codes "-vvv" ∷ [] else [])

  -- The host, and the command of ssh.
  unfoldable pub ssh_transport : BackupOpts → Outcome Text (Text × Text)
  unfolding host_key_options
  ssh_transport o = elim (split_host_port o.ssh_server) [
    | none ↦ err (codes "bad SSHServer")
    | some (host, port) ↦ elim (host_key_options o) [
      | none ↦ err (codes "host-key verification requires a known_hosts file")
      | some keys ↦ ok (host, join_space (ssh_options o port ++ keys))
    ]
  ]

abbrev target_of : BackupOpts → Text → Text → Text
target_of o host path = o.ssh_user ++ (b'@' ∷ host) ++ (codes ":snapshots/" ++ path)

unfoldable pub sync_args : (Text → Text) → BackupOpts → Text → Text → Text → List Text
unfolding ensure_trailing_slash
sync_args env o host ssh snap =
    (codes "-a" ∷ codes "--numeric-ids" ∷ codes "--delete" ∷ codes "--stats" ∷ [])
    ++ ((if o.has_previous_snapshot then codes "--link-dest=/snapshots/latest" ∷ [] else [])
        ++ ((if env (codes "BACKITUP_RSYNC_DEBUG") == codes "1" then codes "-vvv" ∷ [] else [])
            ++ ((if o.skip_symlinks then codes "--no-links" ∷ [] else [])
                ++ (map (λ ex. codes "--exclude=" ++ ex) o.excludes
                    ++ (codes "-e"
                        ∷ ssh
                        ∷ ensure_trailing_slash o.source_dir
                        ∷ target_of o host (snap ++ codes "/")
                        ∷ [])))))

abbrev pub flip_args : BackupOpts → Text → Text → Text → List Text
flip_args o host ssh link = codes "-a" ∷ codes "-e" ∷ ssh ∷ link ∷ target_of o host [] ∷ []

-- `\s*([\d,]+)`
abbrev pub figure : Text → Text
figure [] = []
figure (c ∷ s) = let rest = figure s in if is_digit c || c == b',' then c ∷ rest else []

abbrev is_blank : ℕ → Bool
is_blank c = c == 32 || leb 9 c && leb c 10 || leb 12 c && leb c 13

-- The figure of the first label that has one.
unfoldable pub find_figure : Text → Text → Text
find_figure label [] = []
find_figure label (c ∷ s) =
    let rest = find_figure label s in
    if is_prefix label (c ∷ s)
    then (elim (figure (trim_left is_blank (drop (length label) (c ∷ s)))) [
      | [] ↦ rest
      | d ∷ ds ↦ d ∷ ds
    ])
    else rest

-- `strconv.ParseInt`, whose error is dropped: a number that is too large gives the largest.
unfoldable pub atoi_commas : Text → ℕ
atoi_commas s = elim (select (λ c. not (c == b',')) s) [
  | [] ↦ 0
  | c ∷ cs ↦ elim (digits 0 (c ∷ cs)) [
    | none ↦ 0
    | some n ↦ if leb n (2 ^ 63 - 1) then n else 2 ^ 63 - 1
  ]
]

-- The files and the bytes.
unfoldable pub parse_stats : Text → ℕ × ℕ
unfolding find_figure atoi_commas
parse_stats out = (
  atoi_commas (find_figure (codes "Number of files:") out),
  atoi_commas (find_figure (codes "Total file size:") out),
)

abbrev no_result : BackupResult
no_result = record {
  snapshot_id = [];
  bytes = 0;
  files = 0;
  started_at = 0;
  finished_at = 0;
  failed = true;
}

abbrev pub done : Outcome Text Text → Outcome Text (Unit {0})
done (ok out) = ok tt
done (err e) = err e

module _ (P : Process) where
  -- The output with the errors behind it, where the run succeeds.
  abbrev pub output_of : Bool × Text × Text → Outcome Text Text
  output_of (true, out, errors) = err (trim_space errors)
  output_of (false, out, errors) =
      ok (if trim_space errors == [] then out else out ++ 10 ∷ trim_space errors)

  unfoldable pub run_rsync : List Text → P.State → Outcome Text Text × P.State
  run_rsync args s = let (r, s') = P.run args s in (output_of r, s')

  -- The directory goes on every path behind its creation.
  module _ (o : BackupOpts) (host ssh snap : Text) where
    abbrev pub linked : Text → Outcome Text (Unit {0}) × P.State → Outcome Text (Unit {0}) × P.State
    linked stage (err e, s) = (err e, s)
    linked stage (ok _, s) =
        let (r, s') = run_rsync (flip_args o host ssh (join stage (codes "latest"))) s in
        (done r, s')

    abbrev pub staged : Outcome Text Text × P.State → Outcome Text (Unit {0}) × P.State
    staged (err e, s) = (err e, s)
    staged (ok stage, s) =
        let (r, s') = linked stage (P.symlink snap (join stage (codes "latest")) s) in
        (r, P.remove_all stage s')

    unfoldable pub flip_latest : P.State → Outcome Text (Unit {0}) × P.State
    flip_latest s = staged (P.mkdir_temp s)

    module _ (started ended : ℕ) where
      abbrev pub flipped : Text → Outcome Text (Unit {0}) × P.State → BackupResult × P.State
      flipped out (err e, s) = (no_result, s)
      flipped out (ok _, s) = (
        record {
          snapshot_id = snap;
          bytes = (parse_stats out).1;
          files = (parse_stats out).0;
          started_at = started;
          finished_at = ended;
          failed = false;
        },
        s,
      )

      abbrev pub synced : Outcome Text Text × P.State → BackupResult × P.State
      synced (err e, s) = (no_result, s)
      synced (ok out, s) = flipped out (flip_latest s)

  module _ (split_host_port : Text → Option (Text × Text)) (env : Text → Text) where
    unfoldable pub backup : BackupOpts → Text → ℕ → ℕ → P.State → BackupResult × P.State
    backup o snap started ended s =
        if not (P.look_path s)
        then (no_result, s)
        else (elim (ssh_transport split_host_port env o) [
          | err e ↦ (no_result, s)
          | ok (host, ssh) ↦
              synced o host ssh snap started ended (run_rsync (sync_args env o host ssh snap) s)
        ])
