-- ===== src/Lifecycle/Keeps.antt =====
-- What a call does to the disk and the remotes: a rule for each way to build an action. `Keeps Q m`
-- says that `m` keeps `Q`, whether it succeeds or fails.
use backitup.Prelude.{
  ◌≡◌, ◌⊎◌, refl, inl, inr, Bool, true, false, List, [], ◌∷◌, Outcome, ok, err, if◌then◌else◌,
}
use backitup.Store.{Db, Answer, unavailable}
use backitup.Lifecycle.{
  Platform, Alert, World, Action, return, ◌>>=◌, attempt, handle, exec, query, act, change, read,
  alert,
}

module _ {P : Platform} where
  -- A statement runs, or fails and leaves the database; either way nothing else changes.
  pub exec-cases :
      {A : Type 0} (f : Db → Answer A) (w : World P)
      → (fs : List Bool) × ((exec f w ≡ ((f w.db).0, record w { db = (f w.db).1; faults = fs }))
          ⊎ (exec f w ≡ (err unavailable, record w { faults = fs })))
  unfolding exec
  exec-cases f w = by_faults w.faults refl
    where
      by_faults :
          (fs : List Bool)
          → w.faults ≡ fs
          → (rest : List Bool) × ((exec f w
                ≡ ((f w.db).0, record w { db = (f w.db).1; faults = rest }))
              ⊎ (exec f w ≡ (err unavailable, record w { faults = rest })))
      by_faults [] e = ([], inl (rw (e, exec)))
      by_faults (false ∷ rest) e = (rest, inl (rw (e, exec)))
      by_faults (true ∷ rest) e = (rest, inr (rw (e, exec)))

  -- A query answers from the database, or fails; nothing changes but the faults to come.
  pub query-cases :
      {A : Type 0} (f : Db → A) (w : World P)
      → (fs : List Bool) × ((query f w ≡ (ok (f w.db), record w { faults = fs }))
          ⊎ (query f w ≡ (err unavailable, record w { faults = fs })))
  unfolding query
  query-cases f w = exec-cases (λ d. (ok (f d), d)) w

pub record Keeps (P : Platform) {A : Type 0} (Q : P.State → Type 0) (m : Action P A) : Type 0 where
  pub at : (w : World P) → Q w.sys → Q (m w).1.sys

module _ {P : Platform} {Q : P.State → Type 0} where
  pub Keeps-return : {A : Type 0} (a : A) → Keeps P Q (return a)
  Keeps-return a = record { at = λ w h. h }

  pub Keeps-exec : {A : Type 0} (f : Db → Answer A) → Keeps P Q (exec f)
  Keeps-exec f = record {
    at = λ w h. let (fs, e) = exec-cases f w in elim e [ inl p ↦ rw p h | inr p ↦ rw p h ];
  }

  pub Keeps-query : {A : Type 0} (f : Db → A) → Keeps P Q (query f)
  Keeps-query f = record {
    at = λ w h. let (fs, e) = query-cases f w in elim e [ inl p ↦ rw p h | inr p ↦ rw p h ];
  }

  pub Keeps-alert : (b : Bool) (a : Alert) → Keeps P Q (alert b a)
  unfolding alert
  Keeps-alert true a = record { at = λ w h. h }
  Keeps-alert false a = record { at = λ w h. h }

  pub Keeps-act :
      {A : Type 0} (f : P.State → A × P.State)
      → ((s : P.State) → Q s → Q (f s).1)
      → Keeps P Q (act f)
  Keeps-act f k = record { at = λ w h. k w.sys h }

  pub Keeps-change :
      (f : P.State → P.State) → ((s : P.State) → Q s → Q (f s)) → Keeps P Q (change f)
  Keeps-change f k = record { at = λ w h. k w.sys h }

  pub Keeps-if :
      {A : Type 0} (b : Bool) (m n : Action P A)
      → Keeps P Q m
      → Keeps P Q n
      → Keeps P Q (if b then m else n)
  Keeps-if true m n km kn = km
  Keeps-if false m n km kn = kn

  pub Keeps-bind :
      {A B : Type 0} (m : Action P A) (f : A → Action P B)
      → Keeps P Q m
      → ((a : A) → Keeps P Q (f a))
      → Keeps P Q (m >>= f)
  Keeps-bind m f km kf = record { at = λ w h. (kf (m w).0).at (m w).1 (km.at w h) }

  pub Keeps-handle :
      {E A B : Type 0} (r : Outcome E A) (fail : E → Action P B) (rest : A → Action P B)
      → ((e : E) → Keeps P Q (fail e))
      → ((a : A) → Keeps P Q (rest a))
      → Keeps P Q (handle r fail rest)
  Keeps-handle (ok a) fail rest kf kr = kr a
  Keeps-handle (err e) fail rest kf kr = kf e

  pub Keeps-attempt :
      {E A B : Type 0} (m : Action P (Outcome E A)) (fail : E → Action P B) (rest : A → Action P B)
      → Keeps P Q m
      → ((e : E) → Keeps P Q (fail e))
      → ((a : A) → Keeps P Q (rest a))
      → Keeps P Q (attempt m fail rest)
  Keeps-attempt m fail rest km kf kr =
      Keeps-bind m (λ r. handle r fail rest) km λ r. Keeps-handle r fail rest kf kr

  pub Keeps-read : {A : Type 0} (f : P.State → A) → Keeps P Q (read f)
  Keeps-read f = record { at = λ w h. h }

pub ruleset keeps_rules = (
  Keeps-return, Keeps-exec, Keeps-query, Keeps-alert, Keeps-act, Keeps-change, Keeps-if, Keeps-bind,
  Keeps-attempt, Keeps-read,
)
