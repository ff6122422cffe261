-- ===== src/Lifecycle/Worker.antt =====
-- internal/lifecycle/worker.go: the loop of a worker around its passes, as a step relation. A pass
-- takes the time that it takes, and the clock does not go back. A time is the nanoseconds since Go's
-- zero time, which `Truncate` counts from.
pub mod Spaced
use backitup.Prelude.{
  ℕ, ◌+◌, ◌-◌, ◌*◌, ◌%◌, ◌≤◌, ◌≡◌, Bool, true, false, List, [], ◌∷◌, if◌then◌else◌,
}
use backitup.Clock.{hour, minute, is_positive}

-- `now.Truncate(interval).Add(interval)`
unfoldable pub next_boundary : ℕ → ℕ → ℕ
next_boundary interval now = now - now % interval + interval

-- `time.Until(next)`, at a later reading of the clock; a duration that is not positive is 0, since
-- a timer fires at once for it.
unfoldable pub next_aligned_tick : ℕ → ℕ → ℕ → ℕ
unfolding next_boundary
next_aligned_tick interval now later = next_boundary interval now - later

-- The intervals of `StartWorker` and `StartOffsiteWorker`, with their defaults.
unfoldable pub worker_interval : ℕ → ℕ
worker_interval interval = if is_positive interval then interval else hour

unfoldable pub offsite_worker_interval : ℕ → ℕ
offsite_worker_interval interval = if is_positive interval then interval else 5 * minute

pub record Worker : Type 0 where
  -- the time before which the timer does not fire
  pub fires_at : ℕ
  -- whether the context is cancelled, and whether the goroutine has returned
  pub cancelled : Bool
  pub returned : Bool
  -- when its passes began, the latest first
  pub passes : List ℕ

-- The worker, with the timer that was set at `later`, from the clock read at `now`.
unfoldable pub start_worker : ℕ → ℕ → ℕ → Worker
unfolding next_aligned_tick
start_worker interval now later = record {
  fires_at = later + next_aligned_tick interval now later;
  cancelled = false;
  returned = false;
  passes = [];
}

unfoldable pub reset : ℕ → ℕ → ℕ → ℕ → Worker → Worker
unfolding next_aligned_tick
reset interval begun now later w = record w {
  fires_at = later + next_aligned_tick interval now later;
  passes = begun ∷ w.passes;
}

-- A pass from `begun` to its end, behind which the timer is set again; the cancellation; and the
-- return, which `select` may put off where the timer has fired too.
pub data Step (interval : ℕ) : Worker → Worker → Type 0 where
  pass :
      (w : Worker) (begun now later : ℕ)
      → w.returned ≡ false
      → w.fires_at ≤ begun
      → begun ≤ now
      → now ≤ later
      → Step interval w (reset interval begun now later w)
  cancel : (w : Worker) → Step interval w (record w { cancelled = true })
  leave : (w : Worker) → w.cancelled ≡ true → Step interval w (record w { returned = true })

pub data Reach (interval : ℕ) (s : Worker) : Worker → Type 0 where
  here : Reach interval s s
  next : {w u : Worker} → Reach interval s w → Step interval w u → Reach interval s u
