-- ===== src/Server/Limiter/Laws.antt =====
-- What the limiter promises: ten failures close the window, other addresses are not touched, and the
-- collection of stale entries changes no answer.
use backitup.Prelude.{
  ℕ, ◌≤◌, ◌≡◌, ◌≢◌, refl, sym, ◌∙◌, true, false, List, [], ◌∷◌, ◌++◌, Text, All, length,
  length-append, append_nil, snoc-append, ==_refl, arith, leb, not, text_eq, Bool-cases, inl, inr,
}
use backitup.Server.Limiter.{
  LoginLimiter, login_max_fails, is_past, in_window, allow, record_failure, ends_past, collect,
}

-- Times in the order of the appends.
abbrev pub IsOrdered : List ℕ → Type 0
IsOrdered [] = Unit
IsOrdered (t ∷ ts) = All (λ u. t ≤ u) ts × IsOrdered ts

is_past_mono :
    (earlier now t u : ℕ) → earlier ≤ now → t ≤ u → is_past earlier u ≡ true → is_past now t ≡ true
unfolding is_past
is_past_mono earlier now t u a b h = ground arith

-- In an ordered list whose last time was past, all are.
in_window-ends_past :
    (earlier now : ℕ) (ts : List ℕ)
    → earlier ≤ now
    → IsOrdered ts
    → ends_past earlier ts ≡ true
    → in_window now ts ≡ []
unfolding in_window ends_past
in_window-ends_past earlier now [] le o h = refl
in_window-ends_past earlier now (t ∷ []) le o h =
    rw (is_past_mono earlier now t t le (omega arith) h)
in_window-ends_past earlier now (t ∷ u ∷ ts) le o h =
    let rest = in_window-ends_past earlier now (u ∷ ts) le o.1 h in
    let past = is_past_mono now now t u (omega arith) o.0.0 in ground (arith, rest, past)

-- The answer, by the failures that are not past.
pub allow_lem :
    (ip : Text) (now : ℕ) (l : LoginLimiter)
    → (allow ip now l).0 ≡ not (leb login_max_fails (length (in_window now (l ip))))
unfolding allow
allow_lem ip now l = ground arith

allow_same :
    (ip : Text) (now : ℕ) (l k : LoginLimiter)
    → in_window now (l ip) ≡ in_window now (k ip)
    → (allow ip now l).0 ≡ (allow ip now k).0
allow_same ip now l k e = rw (allow_lem ip now l, allow_lem ip now k, e)

-- The collection changes no later answer, for any address, of entries that were appended in
-- the order of time.
pub allow-collect :
    (ip : Text) (earlier now : ℕ) (l : LoginLimiter)
    → earlier ≤ now
    → IsOrdered (l ip)
    → (allow ip now (collect earlier l)).0 ≡ (allow ip now l).0
unfolding collect in_window
allow-collect ip earlier now l le o =
    allow_same ip now (collect earlier l) l (elim (Bool-cases (ends_past earlier (l ip))) [
      | inl e ↦ rw (e, in_window-ends_past earlier now (l ip) le o e)
      | inr e ↦ rw e
    ])

-- Failures of one address, one after the other.
unfoldable pub record_all : Text → List ℕ → LoginLimiter → LoginLimiter
record_all ip [] l = l
record_all ip (t ∷ ts) l = record_all ip ts (record_failure ip t l)

record_all-entry : (ip : Text) (ts : List ℕ) (l : LoginLimiter) → record_all ip ts l ip ≡ l ip ++ ts
unfolding record_all record_failure
record_all-entry ip [] l = sym (append_nil (l ip))
record_all-entry ip (t ∷ ts) l =
    rw (record_all-entry ip ts (record_failure ip t l)) (rw (==_refl ip) (snoc-append (l ip) t ts))

record_all-other :
    (ip other : Text) (ts : List ℕ) (l : LoginLimiter)
    → ip ≢ other
    → record_all ip ts l other ≡ l other
unfolding record_all record_failure
record_all-other ip other [] l n = refl
record_all-other ip other (t ∷ ts) l n =
    record_all-other ip other ts (record_failure ip t l) n ∙ ground (arith, n)

pub length-in_window :
    (now : ℕ) (xs ts : List ℕ)
    → All (λ t. is_past now t ≡ false) ts
    → length ts ≤ length (in_window now (xs ++ ts))
unfolding in_window
length-in_window now [] [] h = omega arith
length-in_window now [] (t ∷ ts) h = rw h.0 (omega arith)
length-in_window now (x ∷ xs) ts h =
    ground (arith, length-in_window now xs ts h, length-append xs ts)

-- Ten failures of an address that are not past, or more, refuse it, whatever was recorded before, and
-- every other address is answered as before them.
pub allow-record_all :
    (ip other : Text) (ts : List ℕ) (now : ℕ) (l : LoginLimiter)
    → All (λ t. is_past now t ≡ false) ts
    → login_max_fails ≤ length ts
    → ip ≢ other
    → ((allow ip now (record_all ip ts l)).0 ≡ false)
      × ((allow other now (record_all ip ts l)).0 ≡ (allow other now l).0)
allow-record_all ip other ts now l recent ten n = (
  rw (allow_lem ip now (record_all ip ts l), record_all-entry ip ts l)
      (let more = length-in_window now (l ip) ts recent in ground arith),
  allow_same other now (record_all ip ts l) l (rw (record_all-other ip other ts l n)),
)
