-- ===== src/Server/Dashboard.antt =====
-- internal/server/view.go: the rows of the dashboard and their summary. The time is read once; the
-- size of the backup directory on disk is in Server/Storage.
pub mod Laws
use backitup.Prelude.{
  ℕ, ◌+◌, ◌-◌, ◌*◌, Bool, List, [], ◌∷◌, ◌++◌, Text, Option, none, some, sort_by, ltb, ◌==◌,
  text_eq, if◌then◌else◌, codes, decimal,
}
use backitup.Clock.{second, times}
use backitup.Model.{Client, Mode, Run, RunStatus, Health}
use backitup.Model.Slug.{slug}
use backitup.Model.HealthRule.{derive_health}
use backitup.Store.{Db}
use backitup.Store.Clients.{list_clients}
use backitup.Store.Runs.{latest_run_all_clients}
use backitup.Store.Objects.{latest_offsite_all_clients, total_offsite_bytes}
use backitup.Store.OffsiteRuns.{running_offsite_client_ids}
use backitup.Server.Sizes.{rel_time, human_bytes}

-- The health is kept as a value, the page prints it.
pub record ClientRow : Type 0 where
  pub id : ℕ
  pub name : Text
  pub slug : Text
  pub mode : Mode
  pub health : Health
  pub label : Text
  pub icon : Text
  pub last_backup : Text
  pub size : Text
  pub retention : Text
  pub offsite : Text
  pub offsite_uploading : Bool

pub record Summary : Type 0 where
  pub ok : ℕ
  pub stale : ℕ
  pub failed : ℕ
  pub never : ℕ
  pub running : ℕ

unfoldable pub health_rank : Health → ℕ
health_rank Health.failed = 0
health_rank Health.stale = 1
health_rank Health.never = 2
health_rank Health.running = 3
health_rank Health.ok = 4

unfoldable pub health_label : Health → Text
health_label Health.ok = codes "OK"
health_label Health.stale = codes "Stale"
health_label Health.failed = codes "Failed"
health_label Health.running = codes "Running"
health_label Health.never = codes "Never"

unfoldable pub health_icon : Health → Text
health_icon Health.ok = codes "●"
health_icon Health.stale = codes "▲"
health_icon Health.failed = codes "✖"
health_icon Health.running = codes "◎"
health_icon Health.never = codes "○"

unfoldable pub offsite_label : ℕ → Client → Option ℕ → Text
offsite_label now c last = if c.offsite_remote == [] then codes "—" else elim last [
  | none ↦ codes "⚠ " ++ c.offsite_remote ++ codes " pending"
  | some t ↦ codes "✓ " ++ c.offsite_remote ++ b' ' ∷ rel_time (now - t)
]

module _ (quotient : ℕ → ℕ → Text) where
  -- The text of a size; the loop ends for every int of 64 bits.
  shown_size : ℕ → Text
  shown_size b = elim (human_bytes quotient b) [ none ↦ [] | some t ↦ t ]

  -- What the row says of the last run: its age and its size.
  unfoldable pub last_run : ℕ → Option Run → Text × Text
  unfolding shown_size
  last_run now none = (codes "never", codes "—")
  last_run now (some r) = by_status r.status
    where
      finished : Text × Text
      finished = (rel_time (now - r.finished_at), shown_size r.bytes)

      by_status : RunStatus → Text × Text
      by_status RunStatus.running = (codes "in progress", codes "…")
      by_status RunStatus.failed = (codes "FAILED " ++ rel_time (now - r.finished_at), codes "—")
      by_status RunStatus.ok = finished
      by_status RunStatus.overlap = finished
      by_status (RunStatus.unknown s) = finished

  unfoldable pub health_of : ℕ → Db → Client → Health
  health_of now d c =
      derive_health (latest_run_all_clients d c.id) (times c.expected_interval_secs second) now

  unfoldable pub row_of : ℕ → Db → Client → ClientRow
  unfolding health_of
  row_of now d c = record {
    id = c.id;
    name = c.name;
    slug = slug c.name;
    mode = c.mode;
    health = health_of now d c;
    label = health_label (health_of now d c);
    icon = health_icon (health_of now d c);
    last_backup = (last_run now (latest_run_all_clients d c.id)).0;
    size = (last_run now (latest_run_all_clients d c.id)).1;
    retention = decimal c.retention_days ++ codes "d";
    offsite = offsite_label now c (latest_offsite_all_clients d c.id);
    offsite_uploading = running_offsite_client_ids d c.id;
  }

  -- One more row in the summary.
  unfoldable pub count_health : Health → Summary → Summary
  count_health Health.ok s = record s { ok = s.ok + 1 }
  count_health Health.stale s = record s { stale = s.stale + 1 }
  count_health Health.failed s = record s { failed = s.failed + 1 }
  count_health Health.never s = record s { never = s.never + 1 }
  count_health Health.running s = record s { running = s.running + 1 }

  -- The loop over the clients; each row goes behind the others.
  unfoldable pub rows_loop :
      ℕ → Db → List Client → Summary × List ClientRow → Summary × List ClientRow
  unfolding count_health
  rows_loop now d [] v = v
  rows_loop now d (c ∷ cs) (s, rows) =
      rows_loop now d cs (count_health (health_of now d c) s, rows ++ row_of now d c ∷ [])

  abbrev none_yet : Summary
  none_yet = record { ok = 0; stale = 0; failed = 0; never = 0; running = 0 }

  -- The summary, the rows with the problems first, and the bytes on the remotes.
  unfoldable pub build_dashboard : ℕ → Db → Summary × List ClientRow × ℕ
  unfolding rows_loop
  build_dashboard now d =
      let (summary, rows) = rows_loop now d (list_clients d) (none_yet, []) in
      (
        summary,
        sort_by (λ a b. ltb (health_rank a.health) (health_rank b.health)) rows,
        total_offsite_bytes d,
      )
