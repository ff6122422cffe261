-- ===== src/Auth/Password.antt =====
-- internal/auth/password.go. Argon2, base64 and the scanning of `fmt` are a record of functions; a
-- text is its bytes, and the salt is what `crypto/rand` yields.
pub mod Laws
use backitup.Prelude.{
  ℕ, ◌*◌, Bool, List, [], ◌∷◌, ◌++◌, Text, Outcome, ok, err, Option, none, some, length, ◌==◌,
  text_eq, if◌then◌else◌, codes, decimal, split, count, ◌≡◌, ◌<◌, ◌^◌,
}

pub record Crypto : Type 0 where
  -- `argon2.Version`; `argon2.IDKey`: password, salt, time, memory, threads and length of the key
  pub version : ℕ
  pub id_key : Text → Text → ℕ → ℕ → ℕ → ℕ → Text
  -- `base64.RawStdEncoding`
  pub encode : Text → Text
  pub decode : Text → Option Text
  -- `fmt.Sscanf` with "v=%d", and with "m=%d,t=%d,p=%d"
  pub scan_version : Text → Option ℕ
  pub scan_params : Text → Option (ℕ × ℕ × ℕ)

abbrev pub argon_time : ℕ
argon_time = 1

abbrev pub argon_memory : ℕ
argon_memory = 64 * 1024

abbrev pub argon_threads : ℕ
argon_threads = 4

abbrev pub argon_key_len : ℕ
argon_key_len = 32

abbrev pub version_text : ℕ → Text
version_text v = codes "v=" ++ decimal v

abbrev pub params_text : ℕ → ℕ → ℕ → Text
params_text m t p =
    codes "m=" ++ (decimal m ++ (codes ",t=" ++ (decimal t ++ (codes ",p=" ++ decimal p))))

-- `$%s%s`
abbrev pub after_dollar : Text → Text → Text
after_dollar field rest = b'$' ∷ (field ++ rest)

-- The error, or what follows a value that was found.
abbrev pub found {ℓ} : {A : Type ℓ} → Text → Option A → (A → Outcome Text Bool) → Outcome Text Bool
found e none rest = err e
found e (some a) rest = rest a

module _ (c : Crypto) where
  -- `salt` is what the random source gives, or its error.
  unfoldable pub hash_password : Text → Outcome Text Text → Outcome Text Text
  hash_password [] salt = err (codes "empty password")
  hash_password (x ∷ pw) (err e) = err e
  hash_password (x ∷ pw) (ok salt) =
      let key = c.id_key (x ∷ pw) salt argon_time argon_memory argon_threads argon_key_len in
      ok (
        after_dollar (codes "argon2id") (
          after_dollar (version_text c.version) (
            after_dollar (params_text argon_memory argon_time argon_threads)
              (after_dollar (c.encode salt) (b'$' ∷ c.encode key)))))

  -- The comparison of the keys.
  unfoldable pub verify_key : Text → ℕ × ℕ × ℕ → Text → Text → Bool
  verify_key pw (mem, time, threads) salt want =
      c.id_key pw salt time mem threads (length want) == want

  unfoldable pub verify_fields : Text → Text → Text → Text → Text → Outcome Text Bool
  unfolding verify_key
  verify_fields pw version params salt hash =
      found (codes "parse version") (c.scan_version version) λ v.
        found (codes "parse params") (c.scan_params params) λ ps.
          found (codes "decode salt") (c.decode salt)
            λ s. found (codes "decode hash") (c.decode hash) λ want. ok (verify_key pw ps s want)

  unfoldable pub verify_parts : Text → List Text → Outcome Text Bool
  unfolding verify_fields
  verify_parts pw (e ∷ name ∷ version ∷ params ∷ salt ∷ hash ∷ []) =
      if name == codes "argon2id"
      then verify_fields pw version params salt hash
      else err (codes "malformed argon2id hash")
  verify_parts pw _ = err (codes "malformed argon2id hash")

  unfoldable pub verify_password : Text → Text → Outcome Text Bool
  unfolding verify_parts
  verify_password pw encoded = verify_parts pw (split b'$' encoded)

-- What the hashes rely on of the libraries.
pub record Documented (c : Crypto) : Type 0 where
  -- base64 is decoded to what was encoded, and its letters are none of the separators
  pub decode-encode : (b : Text) → c.decode (c.encode b) ≡ some b
  pub count-encode : (b : Text) → count b'$' (c.encode b) ≡ 0
  -- a number of 32 bits is scanned as it was printed
  pub scan_version_lem : (v : ℕ) → v < 2 ^ 32 → c.scan_version (version_text v) ≡ some v
  pub scan_params_lem :
      (m t p : ℕ)
      → m < 2 ^ 32
      → t < 2 ^ 32
      → p < 2 ^ 8
      → c.scan_params (params_text m t p) ≡ some (m, t, p)
  -- a key has the length that is asked for
  pub length-id_key :
      (pw salt : Text) (time mem threads n : ℕ) → length (c.id_key pw salt time mem threads n) ≡ n
