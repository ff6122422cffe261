-- ===== src/Lifecycle/Upload/Latest.antt =====
-- The upload mode `latest`.
use backitup.Prelude.{
  ℕ, ◌+◌, ◌≤◌, ◌≡◌, inl, inr, ◌&&◌, List, [], ◌∷◌, Text, Outcome, ok, err, Option, none, some,
  arith, ltb, ◌==◌, text_eq, codes, Bool-cases, if◌then◌else◌,
}
use backitup.Model.{Client}
use backitup.Lifecycle.{
  Failure, Action, return, ◌>>=◌, attempt, handle, act, Platform, Snapshot, Deps, World, client_dir,
}
use backitup.Lifecycle.Upload.{
  Finished, upload_loop, offsite_new_snapshots, upload_archive, contains, stop_with, is_rsync,
}

-- What a call returns, from whatever world it starts.
record Yields (P : Platform) {A : Type 0} (R : A → Type 0) (m : Action P A) : Type 0 where
  at : (w : World P) → R (m w).0

module _ {P : Platform} where
  Yields-return : {A : Type 0} {R : A → Type 0} (a : A) → R a → Yields P R (return a)
  Yields-return a r = record { at = λ w. r }

  Yields-bind :
      {A B : Type 0} {R : B → Type 0} (m : Action P A) (f : A → Action P B)
      → ((a : A) → Yields P R (f a))
      → Yields P R (m >>= f)
  Yields-bind m f kf = record { at = λ w. (kf (m w).0).at (m w).1 }

  Yields-attempt :
      {E A B : Type 0} {R : B → Type 0} (m : Action P (Outcome E A)) (fail : E → Action P B)
      (rest : A → Action P B)
      → ((e : E) → Yields P R (fail e))
      → ((a : A) → Yields P R (rest a))
      → Yields P R (attempt m fail rest)
  Yields-attempt {R} m fail rest kf kr = Yields-bind m (λ r. handle r fail rest) by_result
    where
      by_result : (r : Outcome _ _) → Yields P R (handle r fail rest)
      by_result (ok a) = kr a
      by_result (err e) = kf e

  Yields-option :
      {A B : Type 0} {R : B → Type 0} (o : Option A) (m : Action P B) (f : A → Action P B)
      → Yields P R m
      → ((a : A) → Yields P R (f a))
      → Yields P R (elim o [ none ↦ m | some a ↦ f a ])
  Yields-option none m f km kf = km
  Yields-option (some a) m f km kf = kf a

module _ (P : Platform) (d : Deps) (c : Client) where
  AtMostOne : Finished → Type 0
  AtMostOne r = r.0.snaps ≤ 1

  upload_loop-AtMostOne :
      (xs : List Snapshot) (done : List Text) (n b : ℕ) (temps : List Text)
      → c.offsite_upload_mode ≡ codes "latest"
      → n ≤ 1
      → Yields P AtMostOne (upload_loop P d c xs done n b temps)
  unfolding upload_loop stop_with AtMostOne
  upload_loop-AtMostOne [] done n b temps m h = Yields-return _ h
  upload_loop-AtMostOne (x ∷ xs) done n b temps m h = elim (Bool-cases (contains x.id done)) [
    | inl e ↦ rw e (upload_loop-AtMostOne xs done n b temps m h)
    | inr e ↦ rw e (elim (Bool-cases (c.offsite_upload_mode == codes "latest" && ltb 0 n)) [
      | inl f ↦ rw f (Yields-return _ h)
      | inr f ↦ rw f (
          Yields-attempt {E = Text} {A = Text} (act (P.prepare_offsite c.mode (client_dir d c) x)) _
            _ (λ e. Yields-return _ h)
            (λ archive.
              let temps' = if is_rsync c.mode then archive ∷ temps else temps in
              Yields-attempt {E = Failure} {A = Option ℕ} (upload_archive P d c x archive) _ _
                (λ e. Yields-return _ h)
                (λ sent.
                  Yields-option sent (upload_loop P d c xs done n b temps')
                    (λ bytes. upload_loop P d c xs (x.id ∷ done) (n + 1) (b + bytes) temps')
                    (upload_loop-AtMostOne xs done n b temps' m h)
                    (λ bytes.
                      upload_loop-AtMostOne xs (x.id ∷ done) (n + 1) (b + bytes) temps' m
                        (ground (arith, m, f))))))
    ])
  ]

  -- In the upload mode `latest`, a session uploads at most one snapshot, however many are missing.
  pub offsite_new_snapshots-latest :
      (xs : List Snapshot) (done : List Text) (w : World P)
      → c.offsite_upload_mode ≡ codes "latest"
      → (offsite_new_snapshots P d c xs done w).0.snaps ≤ 1
  unfolding offsite_new_snapshots AtMostOne
  offsite_new_snapshots-latest xs done w m =
      (upload_loop-AtMostOne xs done 0 0 [] m (omega arith)).at w
