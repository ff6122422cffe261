-- ===== src/Server/Limiter.antt =====
-- internal/server/ratelimit.go: failed logins per address, in a window of one minute. The address
-- is what `net.SplitHostPort` makes of `RemoteAddr`, an argument here; so is the time.
pub mod Laws
use backitup.Prelude.{
  ℕ, ◌+◌, Bool, true, false, List, [], ◌∷◌, ◌++◌, Text, length, leb, ltb, not, ◌==◌, text_eq,
  if◌then◌else◌,
}
use backitup.Clock.{minute, negate, before_add}

abbrev pub login_max_fails : ℕ
login_max_fails = 10

-- The map of the addresses; no entry is an empty list.
abbrev pub LoginLimiter : Type 0
LoginLimiter = Text → List ℕ

abbrev pub new_login_limiter : LoginLimiter
new_login_limiter ip = []

-- `t.Before(now.Add(-loginWindow))`
unfoldable pub is_past : ℕ → ℕ → Bool
is_past now t = before_add t now (negate minute)

-- The loop that advances `i`, and the slice from there.
unfoldable pub in_window : ℕ → List ℕ → List ℕ
in_window now [] = []
in_window now (t ∷ ts) = if is_past now t then in_window now ts else t ∷ ts

abbrev set_entry : Text → List ℕ → LoginLimiter → LoginLimiter
set_entry ip ts l = λ other. if other == ip then ts else l other

unfoldable pub allow : Text → ℕ → LoginLimiter → Bool × LoginLimiter
unfolding in_window
allow ip now l =
    let ts = in_window now (l ip) in
    if leb login_max_fails (length ts) then (false, set_entry ip ts l) else (true, l)

unfoldable pub record_failure : Text → ℕ → LoginLimiter → LoginLimiter
record_failure ip now l = set_entry ip (l ip ++ now ∷ []) l

-- The last time, tested as `gc` does: the entry goes if there is none or it is past.
ends_past : ℕ → List ℕ → Bool
ends_past now [] = true
ends_past now (t ∷ []) = is_past now t
ends_past now (t ∷ u ∷ ts) = ends_past now (u ∷ ts)

-- One tick of `gc`.
unfoldable pub collect : ℕ → LoginLimiter → LoginLimiter
unfolding ends_past is_past
collect now l ip = if ends_past now (l ip) then [] else l ip
