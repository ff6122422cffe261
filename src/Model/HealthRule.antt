-- ===== src/Model/HealthRule.antt =====
-- internal/model/health.go: `DeriveHealth`. The interval is a `time.Duration`, a 64-bit word.
pub mod Laws
use backitup.Prelude.{ℕ, ◌*◌, ◌%◌, Option, none, some, ◌&&◌, if◌then◌else◌}
use backitup.Clock.{word, hour, is_positive, sub_exceeds}
use backitup.Model.{Run, RunStatus, Health}

-- The last tests, for a run that is neither running nor failed.
derive_finished : Run → ℕ → ℕ → RunStatus → Health
derive_finished r interval now RunStatus.ok =
    if is_positive interval && sub_exceeds now r.finished_at (2 * interval % word)
    then Health.stale
    else Health.ok
derive_finished r interval now _ = Health.ok

derive_run : Run → ℕ → ℕ → RunStatus → Health
unfolding derive_finished
derive_run r interval now RunStatus.running =
    if sub_exceeds now r.started_at (6 * hour) then Health.stale else Health.running
derive_run r interval now RunStatus.failed = Health.failed
derive_run r interval now status = derive_finished r interval now status

unfoldable pub derive_health : Option Run → ℕ → ℕ → Health
unfolding derive_run
derive_health none interval now = Health.never
derive_health (some r) interval now = derive_run r interval now r.status
