-- ===== src/Lifecycle/Prune/Horizon.antt =====
-- The retention horizon, exact up to 106751 days: no wrap of an int64 up to there.
use backitup.Prelude.{ℕ, ◌+◌, ◌*◌, ◌≤◌, ◌<◌, ◌≡◌, ◌↔◌, true, false, arith}
use backitup.Clock.{day}
use backitup.Lifecycle.Prune.{is_older}

-- The most days whose nanoseconds fit an int64.
abbrev pub max_days : ℕ
max_days = 106751

-- For 1 to 106751 days, a time is outside the horizon exactly when it is more than so many days in
-- the past.
pub is_older_lem :
    (days now t : ℕ)
    → 0 < days
    → days ≤ max_days
    → (is_older days now t ≡ true) ↔ (t + days * day < now)
is_older_lem days now t pos small = ground arith

-- A time that many days back, or later, is not outside the horizon.
pub is_older_within :
    (days now t : ℕ) → days ≤ max_days → now ≤ t + days * day → is_older days now t ≡ false
is_older_within days now t small recent = ground arith
