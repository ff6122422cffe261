-- ===== src/Model/HealthRule/Laws.antt =====
-- What each dashboard state says of the latest run.
use backitup.Prelude.{ℕ, ◌+◌, ◌*◌, ◌-◌, ◌≤◌, ◌<◌, ◌≡◌, refl, Option, none, some, arith, ◌≢◌, ◌↔◌}
use backitup.Clock.{half_word, second, times}
use backitup.Model.{Run, RunStatus, Health}
use backitup.Model.HealthRule.{derive_health, derive_run}

-- The longest interval in seconds whose double is an int64 number of nanoseconds.
abbrev pub max_interval : ℕ
max_interval = 4611686018

-- An `ok` run with a cadence of `secs` seconds is stale exactly when it finished more than twice
-- that long ago, as long as the numbers stay within an int64.
pub derive_health-stale :
    (r : Run) (secs now : ℕ)
    → r.status ≡ RunStatus.ok
    → 0 < secs
    → secs ≤ max_interval
    → now < r.finished_at + (half_word - 1)
    → (derive_health (some r) (times secs second) now ≡ Health.stale)
      ↔ (r.finished_at + 2 * secs * second < now)
unfolding derive_health
derive_health-stale r secs now s pos small near = rw s (ground arith)

derive_run-failed :
    (r : Run) (interval now : ℕ) (s : RunStatus)
    → (derive_run r interval now s ≡ Health.failed → s ≡ RunStatus.failed)
      × (derive_run r interval now s ≢ Health.never)
unfolding derive_run
derive_run-failed r interval now RunStatus.ok = ground arith
derive_run-failed r interval now _ = ground arith

-- `failed` is shown exactly for a failed latest run, and `never` exactly when there is none,
-- whatever the interval and the time.
pub derive_health-failed :
    (latest : Option Run) (interval now : ℕ)
    → ((derive_health latest interval now ≡ Health.failed)
        ↔ ((r : Run) × (latest ≡ some r) × (r.status ≡ RunStatus.failed)))
      × ((derive_health latest interval now ≡ Health.never) ↔ (latest ≡ none))
unfolding derive_health
derive_health-failed none interval now = ((λ h. cc, λ (r, e, s). cc), (λ h. refl, λ h. refl))
derive_health-failed (some r) interval now = (
  (λ h. (r, refl, (derive_run-failed r interval now r.status).0 h), λ (q, e, s). ground arith),
  (λ h. absurd ((derive_run-failed r interval now r.status).1 h), λ h. cc),
)

-- A latest run that reports an overlap is shown as healthy, however old it is.
pub derive_health-overlap :
    (r : Run) (interval now : ℕ)
    → r.status ≡ RunStatus.overlap
    → derive_health (some r) interval now ≡ Health.ok
unfolding derive_health
derive_health-overlap r interval now s = rw s
