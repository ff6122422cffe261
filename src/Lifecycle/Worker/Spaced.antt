-- ===== src/Lifecycle/Worker/Spaced.antt =====
-- When a worker begins its passes.
use backitup.Prelude.{ℕ, ◌+◌, ◌*◌, ◌/◌, ◌≤◌, ◌<◌, ◌≡◌, List, [], ◌∷◌, arith}
use native.Mathlib.Nat.{mod-lt, div-add-mod, div-mul-le_self, le-div_iff_mul-le}
use backitup.Lifecycle.Worker.{
  next_boundary, next_aligned_tick, worker_interval, Worker, start_worker, reset, Step, pass,
  cancel, leave, Reach, here, next,
}

-- The boundary lies within one interval behind now, at a multiple of the interval.
next_boundary_lem :
    (interval now : ℕ)
    → 0 < interval
    → (now < next_boundary interval now)
      × (next_boundary interval now ≤ now + interval)
      × (next_boundary interval now ≡ (now / interval + 1) * interval)
unfolding next_boundary
next_boundary_lem interval now p =
    let d = div-add-mod now interval in
    let m = mod-lt now p in (omega (arith, m), omega (arith, m), grind (arith, d, m))

-- Two passes, of times with the latest first, begin in two slots of the interval.
abbrev pub AreSpaced : ℕ → List ℕ → Type 0
AreSpaced interval [] = Unit
AreSpaced interval (t ∷ []) = Unit
AreSpaced interval (t ∷ u ∷ us) = (u / interval < t / interval) × AreSpaced interval (u ∷ us)

-- The timer fires behind the slot of the last pass.
abbrev IsBehind : ℕ → List ℕ → ℕ → Type 0
IsBehind interval [] at = Unit
IsBehind interval (t ∷ ts) at = (t / interval + 1) * interval ≤ at

record IsTimed (interval : ℕ) (w : Worker) : Type 0 where
  pub spaced : AreSpaced interval w.passes
  pub behind : IsBehind interval w.passes w.fires_at

AreSpaced-cons :
    (interval begun at : ℕ) (ts : List ℕ)
    → 0 < interval
    → AreSpaced interval ts
    → IsBehind interval ts at
    → at ≤ begun
    → AreSpaced interval (begun ∷ ts)
AreSpaced-cons interval begun at [] p s b h = tt
AreSpaced-cons interval begun at (t ∷ ts) p s b h =
    let le : t / interval + 1 ≤ begun / interval = (le-div_iff_mul-le p).1 (omega (arith, b, h)) in
    (omega (arith, le), s)

-- The slot of an earlier time is no later.
slot_le : (interval begun now : ℕ) → 0 < interval → begun ≤ now → begun / interval ≤ now / interval
slot_le interval begun now p h =
    (le-div_iff_mul-le p).1 (omega (arith, div-mul-le_self begun interval, h))

fires_behind :
    (interval begun now later : ℕ)
    → 0 < interval
    → begun ≤ now
    → (begun / interval + 1) * interval ≤ later + next_aligned_tick interval now later
unfolding next_aligned_tick
fires_behind interval begun now later p h =
    let e = (next_boundary_lem interval now p).2 in
    let slots = slot_le interval begun now p h in
    let le : (begun / interval + 1) * interval ≤ (now / interval + 1) * interval =
      grind (arith, slots) in
    omega (arith, e, le)

Step-IsTimed :
    {interval : ℕ} {w u : Worker}
    → 0 < interval
    → Step interval w u
    → IsTimed interval w
    → IsTimed interval u
unfolding reset
Step-IsTimed {interval} p (pass w begun now later running due h k) v = record {
  spaced = AreSpaced-cons interval begun w.fires_at w.passes p v.spaced v.behind due;
  behind = fires_behind interval begun now later p h;
}
Step-IsTimed p (cancel w) v = record { spaced = v.spaced; behind = v.behind }
Step-IsTimed p (leave w e) v = record { spaced = v.spaced; behind = v.behind }

Reach-IsTimed :
    {interval : ℕ} (now later : ℕ) {w : Worker}
    → 0 < interval
    → Reach interval (start_worker interval now later) w
    → IsTimed interval w
unfolding start_worker
Reach-IsTimed now later p here = record { spaced = tt; behind = tt }
Reach-IsTimed now later p (next r st) = Step-IsTimed p st (Reach-IsTimed now later p r)

positive : (d : ℕ) → 0 < worker_interval d
unfolding worker_interval
positive d = ground arith

-- Whatever interval is configured, how long the passes last, when the clock is read and when the
-- worker is cancelled, a worker begins no two passes in one slot of its interval, counted from Go's
-- zero time: a pass that outlasts its slot puts the next off to the boundary behind its end. The
-- timer is never set more than an interval behind the reading of the clock.
pub Reach-AreSpaced :
    (configured now later : ℕ) (w : Worker)
    → Reach (worker_interval configured) (start_worker (worker_interval configured) now later) w
    → AreSpaced (worker_interval configured) w.passes
      × ((clock until : ℕ)
          → clock ≤ until
          → next_aligned_tick (worker_interval configured) clock until ≤ worker_interval configured)
unfolding next_aligned_tick
Reach-AreSpaced configured now later w r = (
  (Reach-IsTimed now later (positive configured) r).spaced,
  λ clock until h.
      omega
        (arith, (next_boundary_lem (worker_interval configured) clock (positive configured)).1, h),
)
