-- ===== src/Lifecycle/Verify/Kept.antt =====
-- The checks of a pass touch no disk and no remote.
use backitup.Prelude.{
  List, [], ◌∷◌, Text, true, Bool-cases, ◌||◌, ◌&&◌, not, find, ◌==◌, nat_eq, inl, inr,
}
use backitup.Model.{Client, OffsiteObject}
use backitup.Lifecycle.Naming.{offsite_dir}
use backitup.Clock.{hour, second, times, sub_within}
use backitup.Model.HealthRule.{derive_health}
use backitup.Lifecycle.{Platform, Deps, stale_backup}
use backitup.Lifecycle.Keeps.{
  Keeps, Keeps-return, Keeps-exec, Keeps-query, Keeps-alert, Keeps-if, Keeps-bind, Keeps-attempt,
  Keeps-read,
}
use backitup.Lifecycle.Verify.{
  mark_objects, verify_offsite_objects, raise_alert, check_stale_alert, is_recent,
  is_stale_or_never, is_none, oldest_verified,
}

module _ {P : Platform} {Q : P.State → Type 0} (d : Deps) (c : Client) where
  mark_objects-Keeps :
      (files : List Text) (os : List OffsiteObject) → Keeps P Q (mark_objects P d c files os)
  unfolding mark_objects
  mark_objects-Keeps files [] = Keeps-return tt
  mark_objects-Keeps files (o ∷ os) =
      Keeps-bind _ _ (Keeps-exec _) (λ _. mark_objects-Keeps files os)

  pub verify_offsite_objects-Keeps : Keeps P Q (verify_offsite_objects P d c)
  unfolding verify_offsite_objects
  verify_offsite_objects-Keeps =
      Keeps-attempt _ _ _ (Keeps-query _) (λ e. Keeps-return tt)
        λ objects.
          Keeps-if
            (is_none objects
              || (not (oldest_verified 0 objects == 0)
                  && sub_within d.now (oldest_verified 0 objects) hour))
            _ _ (Keeps-return tt)
            (Keeps-attempt {E = Text} {A = List Text} _ _ _
              (Keeps-read (P.lsf c.offsite_remote (offsite_dir c))) (λ e. Keeps-return tt)
              (λ files. mark_objects-Keeps files objects))

  raise_alert-Keeps : Keeps P Q (raise_alert P d c)
  unfolding raise_alert
  raise_alert-Keeps = record {
    at = λ w h. elim (Bool-cases (is_recent P d c (find (λ e. e.0 == c.id) w.alerted))) [
      | inl e ↦ rw e h
      | inr e ↦ rw e (
          (Keeps-alert {P = P} {Q = Q} true (stale_backup c.id)).at
            (record w { alerted = (c.id, d.now) ∷ w.alerted }) h)
    ];
  }

  pub check_stale_alert-Keeps : Keeps P Q (check_stale_alert P d c)
  unfolding check_stale_alert
  check_stale_alert-Keeps =
      Keeps-if (not d.has_webhook || c.expected_interval_secs == 0) _ _ (Keeps-return tt) (
        Keeps-attempt _ _ _ (Keeps-query _) (λ e. Keeps-return tt)
          λ run.
            Keeps-if
              (is_stale_or_never P d c
                (derive_health run (times c.expected_interval_secs second) d.now))
              _ _ raise_alert-Keeps (record { at = λ w h. h }))
