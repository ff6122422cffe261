-- ===== src/Server/Clients/Page.antt =====
-- internal/server/clients.go: what the page of a client shows. The listing of the snapshots by the
-- mode is a parameter, `none` for a mode that is not registered; the time is read once, and an
-- interval is one that an int64 of nanoseconds holds.
pub mod Agreement
use backitup.Prelude.{
  ℕ, ◌+◌, ◌-◌, ◌*◌, ◌/◌, Bool, true, false, not, List, [], ◌∷◌, ◌++◌, map, any, select, length,
  Text, Outcome, ok, err, Option, none, some, ltb, ◌==◌, nat_eq, text_eq, if◌then◌else◌, codes,
  decimal,
}
use backitup.Clock.{second, minute, hour, day, times}
use backitup.FilePath.{join}
use backitup.Model.{Client, Mode, Run, OffsiteObject, OffsiteRun, Health}
use backitup.Model.Slug.{slug}
use backitup.Model.HealthRule.{derive_health}
use backitup.Store.{Db, Remote}
use backitup.Store.Clients.{get_client_by_slug}
use backitup.Store.Runs.{first, list_runs}
use backitup.Store.Objects.{list_offsite_objects}
use backitup.Store.OffsiteRuns.{list_offsite_runs}
use backitup.Store.Remotes.{list_remotes}
use backitup.Lifecycle.{Snapshot}
use backitup.Server.Dashboard.{health_label, health_icon, last_run}

pub record MissingLocalRow : Type 0 where
  pub id : Text
  pub uploaded_at : ℕ
  pub bytes : ℕ

pub record OffsiteObjectView : Type 0 where
  pub object : OffsiteObject
  pub local_exists : Bool

pub record ClientPage : Type 0 where
  pub client : Client
  pub client_dir : Text
  pub health : Health
  pub health_label : Text
  pub icon : Text
  pub runs : List Run
  pub offsite_runs : List OffsiteRun
  pub offsite_objects : List OffsiteObjectView
  pub local_snapshots : List Snapshot
  pub missing_local_snaps : List MissingLocalRow
  pub remotes : List Remote
  pub last_backup_age : Text
  pub last_backup_size : Text
  pub local_count : ℕ
  pub local_total_bytes : ℕ
  pub offsite_count : ℕ
  pub offsite_total_bytes : ℕ
  pub expected_interval_str : Text
  pub next_expected : Text

-- `localIDs[id]`
unfoldable is_local : Text → List Snapshot → Bool
is_local id snaps = any (λ s. s.id == id) snaps

abbrev missing_row : OffsiteObject → MissingLocalRow
missing_row o = record { id = o.snapshot_id; uploaded_at = o.uploaded_at; bytes = o.bytes }

unfoldable missing_local : List Snapshot → List OffsiteObject → List MissingLocalRow
missing_local snaps objects =
    map missing_row (select (λ o. not (is_local o.snapshot_id snaps)) objects)

unfoldable offsite_views : List Snapshot → List OffsiteObject → List OffsiteObjectView
offsite_views snaps objects =
    map (λ o. record { object = o; local_exists = is_local o.snapshot_id snaps }) objects

abbrev total {ℓ} : {A : Type ℓ} → (A → ℕ) → List A → ℕ
total f [] = 0
total f (x ∷ xs) = f x + total f xs

unfoldable interval_text : ℕ → Text
interval_text d =
    if ltb d hour
    then decimal (d / minute) ++ codes "m"
    else if ltb d (24 * hour)
    then decimal (d / hour) ++ codes "h"
    else decimal (d / day) ++ codes "d"

unfoldable expected_interval_text : Client → Text
expected_interval_text c =
    if c.expected_interval_secs == 0 then [] else interval_text (c.expected_interval_secs * second)

unfoldable next_expected_text : ℕ → Client → Option Run → Text
next_expected_text now c none = []
next_expected_text now c (some r) =
    let next = r.finished_at + c.expected_interval_secs * second in
    if c.expected_interval_secs == 0
    then []
    else if r.finished_at == 0
    then []
    else if ltb next now
    then codes "overdue"
    else codes "in " ++ interval_text (next - now)

module _ (quotient : ℕ → ℕ → Text) (list_mode : Mode → Option (Text → Outcome Text (List Snapshot)))
    (base_dir : Text) where
  -- The directory and the snapshots, none where they cannot be listed.
  unfoldable local_snapshots : Client → Text × List Snapshot
  local_snapshots c = elim (list_mode c.mode) [
    | none ↦ ([], [])
    | some list ↦ elim (list (join base_dir (slug c.name))) [
      | ok snaps ↦ (join base_dir (slug c.name), snaps)
      | err e ↦ (join base_dir (slug c.name), [])
    ]
  ]

  pub page_of : ℕ → Db → Client → ClientPage
  page_of now d c =
      let runs = list_runs c.id 20 d in
      let objects = list_offsite_objects c.id d in
      let (dir, snaps) = local_snapshots c in
      let health = derive_health (first runs) (times c.expected_interval_secs second) now in
      record {
        client = c;
        client_dir = dir;
        health = health;
        health_label = health_label health;
        icon = health_icon health;
        runs = runs;
        offsite_runs = list_offsite_runs c.id 20 d;
        offsite_objects = offsite_views snaps objects;
        local_snapshots = snaps;
        missing_local_snaps = missing_local snaps objects;
        remotes = list_remotes d;
        last_backup_age = (last_run quotient now (first runs)).0;
        last_backup_size = (last_run quotient now (first runs)).1;
        local_count = length snaps;
        local_total_bytes = total (λ s. s.bytes) snaps;
        offsite_count = length objects;
        offsite_total_bytes = total (λ o. o.bytes) objects;
        expected_interval_str = expected_interval_text c;
        next_expected = next_expected_text now c (first runs);
      }

  -- `none` is the answer 404.
  unfoldable get_client_page : Text → ℕ → Db → Option ClientPage
  unfolding page_of
  get_client_page name now d = elim (get_client_by_slug name d) [
    | none ↦ none
    | some c ↦ some (page_of now d c)
  ]
