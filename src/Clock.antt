-- ===== src/Clock.antt =====
-- Go's `time`: a `time.Duration` is an int64, kept as its bit pattern below 2^64; sums of
-- a time and a duration are compared without forming a time before Go's zero time.

pub mod Stamp
use backitup.Prelude.{ℕ, ◌+◌, ◌-◌, ◌*◌, ◌%◌, ◌^◌, Bool, true, ◌&&◌, ◌||◌, ltb, leb, if◌then◌else◌}
use Prim.Native.Nat.{min}

abbrev pub word : ℕ
word = 18446744073709551616

abbrev pub half_word : ℕ
half_word = 9223372036854775808

abbrev pub second : ℕ
second = 1000000000

abbrev pub minute : ℕ
minute = 60000000000

abbrev pub hour : ℕ
hour = 3600000000000

abbrev pub day : ℕ
day = 86400000000000

-- `time.Duration(n) * unit`, with its wrap-around.
abbrev pub times : ℕ → ℕ → ℕ
times n unit = n * unit % word

-- `-d`
abbrev pub negate : ℕ → ℕ
negate d = (word - d) % word

-- `0 < d`
abbrev pub is_positive : ℕ → Bool
is_positive d = ltb 0 d && ltb d half_word

-- `t.Before(now.Add(d))`
abbrev pub before_add : ℕ → ℕ → ℕ → Bool
before_add t now d = if ltb d half_word then ltb t (now + d) else ltb (t + (word - d)) now

-- `t.After(now.Add(d))`
abbrev pub after_add : ℕ → ℕ → ℕ → Bool
after_add t now d = if ltb d half_word then ltb (now + d) t else ltb now (t + (word - d))

-- `now.Sub(t) > d`; `Sub` stops at the ends of an int64.
abbrev pub sub_exceeds : ℕ → ℕ → ℕ → Bool
sub_exceeds now t d =
    if ltb d half_word then ltb d (min (now - t) (half_word - 1)) else ltb t (now + (word - d))

-- `now.Sub(t) < d`, for a `d` that is not negative.
abbrev pub sub_within : ℕ → ℕ → ℕ → Bool
sub_within now t d = ltb now t || ltb (min (now - t) (half_word - 1)) d
