-- ===== src/Lib.antt =====
-- backitup is a self-hosted backup server with clients. A client authenticates with a token, reports its
-- runs, and ships snapshots into a directory of its own over an SSH key that sshd confines; the server keeps
-- everything in SQLite; two workers prune the snapshots and push them to cold storage with rclone; admins
-- log in with sessions.
--
-- Files, with the code that they model:
--
-- Model and its children: internal/model (types, Slug, DeriveHealth, CapLogTail).
-- Clock, Clock/Stamp: Go's time.Duration as an int64 bit pattern, and the stored texts of times.
-- Store and its children: internal/store/store.go with schema.sql. A database is a record with a list of
--   rows for each table, in the order of insertion, and the counters of AUTOINCREMENT. One function per
--   statement; a constraint that refuses is an error that changes nothing. Store/Invariant states what a
--   well-formed database is; the children of Store/Invariant, Store/Clients and Store/Runs hold proofs.
-- Lifecycle and its children: internal/lifecycle/lifecycle.go. Naming is offsiteDir and objectPath, Upload
--   is uploadClient, offsiteNewSnapshots and OffsiteClient, Prune is the three prunings, Verify is
--   verifyOffsiteObjects and checkStaleAlert, Integrity is verifyLatest, Pass is processClient, RunOnce
--   and RunOffsiteOnce. A function is an action on a world: the database, which of the next statements fail,
--   the platform, and the alerts.
--   Worker is internal/lifecycle/worker.go. Keeps and Maintains have the rules for what an action keeps.
-- Auth/Sessions, Auth/Password: internal/auth/session.go, password.go.
-- Start: cmd/server/main.go, the settings and the first user.
-- Archive: internal/archiveutil/archiveutil.go. Walk compares the walk with the list of the
--   entries, of which Entry says what each asks of the writers, Readable
--   has the contents where the disk and the writers refuse nothing.
-- Modes and its children: Targz and Rsync are internal/mode/targz/server.go and internal/mode/rsync/server.go,
--   RsyncClient internal/mode/rsync/rsync.go over a process, Rclone internal/lifecycle/rclone.go, on a record
--   Disk of the calls of the package os and a record Cloud of rclone's process; Platform makes of them the
--   Platform of Lifecycle, and Refinement has its laws.
-- Server/Routes, Server/Router: internal/server/server.go, the routes with their guards and a request through
--   them; the handlers behind the guards are parameters there.
-- Server/Limiter, Server/Users, Server/ClientApi: internal/server/ratelimit.go, users.go, client_api.go.
-- Server/Login: internal/server/handlers.go, the login, the logout and requireAdmin, over the limiter, the
--   sessions and the table of users.
-- Server/Clients: internal/server/clients.go. The parent has generateClientCreds and regenAuthorizedKeys,
--   Creation postClients, Credentials postRotateClient and postDeleteClient, Changes the other handlers;
--   Current has the requests that write authorized_keys, Page getClient, Commands dockerCmds and
--   knownHostsLine. Server/Forms is atoiDefault.
-- Server/Remotes: internal/server/remotes.go, with the requests in Safety. Model/Backends is the table of
--   internal/model/remote.go, and its Section is RcloneSection.
-- Server/Snapshots: internal/server/snapshots.go, as actions on the world of the workers.
-- Server/Dashboard, Server/Sizes, Server/Storage: internal/server/view.go. Server/Settings: the settings and
--   the template functions of internal/server/server.go. Server/Notify: notifyStatus of client_api.go, with
--   internal/alert/discord.go.
-- Uploader: internal/client/run.go, client.go and api.go, composed with Server/ClientApi: one start of the
--   client with what becomes of each of its requests. Uploader/Recorded and its Laws hold proofs.
-- Server/Response: what a handler answers.
-- AuthKeys/Render: internal/authkeys/authkeys.go.
-- FilePath: filepath.Join as the server calls it.
-- Tests: the theorems at concrete inputs, with a platform in memory.
--
-- How they interact: the workers and the handlers call the statements of Store; the workers call the disk,
-- the modes and rclone through the record Platform of Lifecycle, whose documented behaviour is the record
-- Observed, and which Modes implements; the client's reports become rows that DeriveHealth reads and the
-- dashboard shows; a request passes the guards of Router before a handler runs; the names of clients become
-- directories by Slug, in the workers, in the handlers and in the file of keys; the token that
-- Clients/Creation makes is the one that ClientApi checks.
--
-- Conventions. A time is the nanoseconds since Go's zero time, so 0 is IsZero; the time of a pass is read
-- once. Integers that the handlers refuse to be negative are natural numbers. A text is its code points. The
-- order of the stored texts is that of the seconds and then of the fractions, for years up to 9999. Sorting
-- is stable. A day is 24 hours (UTC). Statements fail by a list of faults in the world of the workers; the
-- handlers' statements fail by constraints only, but for those of Server/Snapshots and the count in
-- Server/Users. What a failed call of the disk leaves is the platform's.
-- A loop is a recursion over a list that is at hand, but for two: the printing of
-- a number has 20 steps, one for each digit that 64 bits need, and the choice of a unit has six, one for each
-- letter; that both are enough is in Server/Forms/Laws and Server/Sizes/Laws. A map is a list of its entries,
-- in the order in which a loop over it meets them.
--
-- Not modelled: the log output, the words that callers put around an error, the text of the workers' alerts,
-- the templates, the choice of a pattern by http.ServeMux, the other pages, the client's side of tar.gz (ssh),
-- the processes of rsync and rclone, rclone's obscured passwords, Argon2 and base64, the compaction of JSON,
-- the division of floats and the cron parser (parameters), the opening and migration of the database, the HTTP
-- client, the file of the lock and the logger of the client, the cancellation of a walk, and the listening of
-- the server.
pub mod Clock
pub mod Model
pub mod Store
pub mod FilePath
pub mod Lifecycle
pub mod Prelude
pub mod Auth
pub mod Archive
pub mod AuthKeys
pub mod Modes
pub mod Server
pub mod Start
pub mod Tests
pub mod Uploader
