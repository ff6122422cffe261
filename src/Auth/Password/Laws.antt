-- ===== src/Auth/Password/Laws.antt =====
-- Which passwords a hash lets in.
use backitup.Prelude.{
  ℕ, ◌<◌, ◌^◌, ◌≡◌, refl, sym, ap, ◌∙◌, true, [], ◌∷◌, ◌++◌, Text, ok, ◌==◌, ==_refl, text_eq,
  nat_eq, arith, codes, decimal, split, split-append, split_whole, count, count-append,
  count-decimal,
}
use backitup.Auth.Password.{
  Crypto, Documented, argon_time, argon_memory, argon_threads, argon_key_len, version_text,
  params_text, after_dollar, hash_password, verify_fields, verify_password,
}

no_dollar-append : (s t : Text) → count b'$' s ≡ 0 → count b'$' t ≡ 0 → count b'$' (s ++ t) ≡ 0
no_dollar-append s t h g = omega (arith, count-append b'$' s t)

no_dollar-version_text : (v : ℕ) → count b'$' (version_text v) ≡ 0
unfolding count nat_eq
no_dollar-version_text v =
    no_dollar-append (codes "v=") (decimal v) refl (count-decimal b'$' v (omega arith))

no_dollar-field :
    (label : Text) (n : ℕ) (rest : Text)
    → count b'$' label ≡ 0
    → count b'$' rest ≡ 0
    → count b'$' (label ++ (decimal n ++ rest)) ≡ 0
no_dollar-field label n rest h g =
    no_dollar-append label (decimal n ++ rest) h
      (no_dollar-append (decimal n) rest (count-decimal b'$' n (omega arith)) g)

no_dollar-params_text : (m t p : ℕ) → count b'$' (params_text m t p) ≡ 0
unfolding count nat_eq
no_dollar-params_text m t p =
    let last = codes ",p=" ++ decimal p in
    no_dollar-field (codes "m=") m (codes ",t=" ++ (decimal t ++ last)) refl (
      no_dollar-field (codes ",t=") t last refl
        (no_dollar-append (codes ",p=") (decimal p) refl (count-decimal b'$' p (omega arith))))

split_dollar : (s : Text) → split b'$' (b'$' ∷ s) ≡ [] ∷ split b'$' s
unfolding split nat_eq
split_dollar s = refl

-- The parts of a hash.
split-hash :
    (name version params salt key : Text)
    → count b'$' name ≡ 0
    → count b'$' version ≡ 0
    → count b'$' params ≡ 0
    → count b'$' salt ≡ 0
    → count b'$' key ≡ 0
    → split b'$' (
        after_dollar name
          (after_dollar version (after_dollar params (after_dollar salt (b'$' ∷ key)))))
      ≡ [] ∷ name ∷ version ∷ params ∷ salt ∷ key ∷ []
split-hash name version params salt key n v p s k =
    rw
      (
        split_dollar
            (name ++ after_dollar version (after_dollar params (after_dollar salt (b'$' ∷ key)))),
        split-append b'$' name _ n,
        split-append b'$' version _ v,
        split-append b'$' params _ p,
        split-append b'$' salt key s,
        split_whole b'$' key k,
      )
      refl

module _ (c : Crypto) (D : Documented c) where
  -- The key of a password, with the parameters of this version of the program.
  derived : Text → Text → Text
  derived pw salt = c.id_key pw salt argon_time argon_memory argon_threads argon_key_len

  verify_fields-derived :
      (q pw salt : Text)
      → c.version < 2 ^ 32
      → verify_fields c q
          (version_text c.version)
          (params_text argon_memory argon_time argon_threads)
          (c.encode salt)
          (c.encode (derived pw salt))
        ≡ ok (derived q salt == derived pw salt)
  unfolding verify_fields derived
  verify_fields-derived q pw salt small =
      rw
        (
          D.scan_version_lem c.version small,
          D.scan_params_lem argon_memory argon_time argon_threads (omega arith) (omega arith)
              (omega arith),
          D.decode-encode salt,
          D.decode-encode (derived pw salt),
          D.length-id_key pw salt argon_time argon_memory argon_threads argon_key_len,
        )
        refl

  hash_of : Text → Text → Text
  hash_of pw salt = after_dollar (codes "argon2id") (
      after_dollar (version_text c.version) (
        after_dollar (params_text argon_memory argon_time argon_threads)
          (after_dollar (c.encode salt) (b'$' ∷ c.encode (derived pw salt)))))

  verify_password-hash_of :
      (q pw salt : Text)
      → c.version < 2 ^ 32
      → verify_password c q (hash_of pw salt) ≡ ok (derived q salt == derived pw salt)
  unfolding verify_password hash_of count text_eq nat_eq
  verify_password-hash_of q pw salt small =
      rw
        (split-hash (codes "argon2id") (version_text c.version)
          (params_text argon_memory argon_time argon_threads) (c.encode salt)
          (c.encode (derived pw salt)) refl (no_dollar-version_text c.version)
          (no_dollar-params_text argon_memory argon_time argon_threads) (D.count-encode salt)
          (D.count-encode (derived pw salt)))
        (verify_fields-derived q pw salt small)

-- Where the libraries behave as documented and the version is a number of 32 bits, the hash of a
-- password that is not empty verifies a password exactly where the key that argon2 derives from it
-- with the salt is the key of the first, and so the password itself.
pub verify_password-hash_password :
    (c : Crypto) (D : Documented c) (pw salt q h : Text)
    → c.version < 2 ^ 32
    → hash_password c pw (ok salt) ≡ ok h
    → (verify_password c q h
        ≡ ok (
            c.id_key q salt argon_time argon_memory argon_threads argon_key_len
            == c.id_key pw salt argon_time argon_memory argon_threads argon_key_len))
      × (verify_password c pw h ≡ ok true)
unfolding hash_password hash_of derived
verify_password-hash_password c D [] salt q h small e = absurd (cc)
verify_password-hash_password c D (x ∷ pw) salt q h small e =
    let same : hash_of c D (x ∷ pw) salt ≡ h = cc in
    (
      ap (verify_password c q) (sym same) ∙ verify_password-hash_of c D q (x ∷ pw) salt small,
      ap (verify_password c (x ∷ pw)) (sym same)
          ∙ verify_password-hash_of c D (x ∷ pw) (x ∷ pw) salt small
          ∙ ap ok (==_refl (derived c D (x ∷ pw) salt)),
    )
