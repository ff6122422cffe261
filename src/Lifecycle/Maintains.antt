-- ===== src/Lifecycle/Maintains.antt =====
-- Conditions that relate the database to the platform: a rule for each way to build an action.
-- `Maintains P C m` says that `m` keeps `C`, whether it succeeds or fails.
use backitup.Prelude.{
  Bool, true, false, Outcome, ok, err, Option, none, some, if◌then◌else◌, inl, inr,
}
use backitup.Store.{Db, Answer}
use backitup.Lifecycle.{
  Platform, Alert, World, Action, return, ◌>>=◌, attempt, handle, exec, query, act, change, read,
  alert,
}
use backitup.Lifecycle.Keeps.{exec-cases, query-cases}

pub record Maintains (P : Platform) {A : Type 0} (C : Db → P.State → Type 0) (m : Action P A)
    : Type 0 where
  pub at : (w : World P) → C w.db w.sys → C (m w).1.db (m w).1.sys

module _ {P : Platform} {C : Db → P.State → Type 0} where
  pub Maintains-return : {A : Type 0} (a : A) → Maintains P C (return a)
  Maintains-return a = record { at = λ w h. h }

  pub Maintains-read : {A : Type 0} (f : P.State → A) → Maintains P C (read f)
  Maintains-read f = record { at = λ w h. h }

  pub Maintains-exec :
      {A : Type 0} (f : Db → Answer A)
      → ((db : Db) (s : P.State) → C db s → C (f db).1 s)
      → Maintains P C (exec f)
  Maintains-exec f k = record {
    at = λ w h.
        let (fs, e) = exec-cases f w in elim e [ inl p ↦ rw p (k w.db w.sys h) | inr p ↦ rw p h ];
  }

  pub Maintains-query : {A : Type 0} (f : Db → A) → Maintains P C (query f)
  Maintains-query f = record {
    at = λ w h. let (fs, e) = query-cases f w in elim e [ inl p ↦ rw p h | inr p ↦ rw p h ];
  }

  pub Maintains-alert : (b : Bool) (a : Alert) → Maintains P C (alert b a)
  unfolding alert
  Maintains-alert true a = record { at = λ w h. h }
  Maintains-alert false a = record { at = λ w h. h }

  pub Maintains-act :
      {A : Type 0} (f : P.State → A × P.State)
      → ((db : Db) (s : P.State) → C db s → C db (f s).1)
      → Maintains P C (act f)
  Maintains-act f k = record { at = λ w h. k w.db w.sys h }

  pub Maintains-change :
      (f : P.State → P.State)
      → ((db : Db) (s : P.State) → C db s → C db (f s))
      → Maintains P C (change f)
  Maintains-change f k = record { at = λ w h. k w.db w.sys h }

  pub Maintains-if :
      {A : Type 0} (b : Bool) (m n : Action P A)
      → Maintains P C m
      → Maintains P C n
      → Maintains P C (if b then m else n)
  Maintains-if true m n km kn = km
  Maintains-if false m n km kn = kn

  pub Maintains-bind :
      {A B : Type 0} (m : Action P A) (f : A → Action P B)
      → Maintains P C m
      → ((a : A) → Maintains P C (f a))
      → Maintains P C (m >>= f)
  Maintains-bind m f km kf = record { at = λ w h. (kf (m w).0).at (m w).1 (km.at w h) }

  Maintains-handle :
      {E A B : Type 0} (r : Outcome E A) (fail : E → Action P B) (rest : A → Action P B)
      → ((e : E) → Maintains P C (fail e))
      → ((a : A) → Maintains P C (rest a))
      → Maintains P C (handle r fail rest)
  Maintains-handle (ok a) fail rest kf kr = kr a
  Maintains-handle (err e) fail rest kf kr = kf e

  pub Maintains-attempt :
      {E A B : Type 0} (m : Action P (Outcome E A)) (fail : E → Action P B) (rest : A → Action P B)
      → Maintains P C m
      → ((e : E) → Maintains P C (fail e))
      → ((a : A) → Maintains P C (rest a))
      → Maintains P C (attempt m fail rest)
  Maintains-attempt m fail rest km kf kr =
      Maintains-bind m (λ r. handle r fail rest) km λ r. Maintains-handle r fail rest kf kr

  pub Maintains-option :
      {A B : Type 0} (o : Option A) (m : Action P B) (f : A → Action P B)
      → Maintains P C m
      → ((a : A) → Maintains P C (f a))
      → Maintains P C (elim o [ none ↦ m | some a ↦ f a ])
  Maintains-option none m f km kf = km
  Maintains-option (some a) m f km kf = kf a
