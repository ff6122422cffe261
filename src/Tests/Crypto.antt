-- ===== src/Tests/Crypto.antt =====
-- Hashing with a key that is the password and the salt, filled up or cut to its length, and letters
-- that are shifted.
use backitup.Prelude.{
  ℕ, zero, suc, ◌+◌, ◌-◌, ◌<◌, ◌≡◌, refl, ap, ◌∙◌, List, [], ◌∷◌, ◌++◌, Text, Option, none, some,
  length, drop, arith, nat_eq, decimal, split, split-append, split_whole, count, count-decimal,
  count-append,
}
use backitup.Server.Forms.{digits}
use backitup.Server.Forms.Laws.{decimal-read}
use backitup.Auth.Password.{Crypto, Documented, params_text}

-- The first bytes, with zeros behind them.
abbrev fill : ℕ → Text → Text
fill zero s = []
fill (suc n) [] = 0 ∷ fill n []
fill (suc n) (c ∷ cs) = c ∷ fill n cs

length-fill : (n : ℕ) (s : Text) → length (fill n s) ≡ n
length-fill zero s = refl
length-fill (suc n) [] = ap suc (length-fill n [])
length-fill (suc n) (c ∷ cs) = ap suc (length-fill n cs)

abbrev shift : Text → Text
shift [] = []
shift (c ∷ cs) = (c + 64) ∷ shift cs

abbrev unshift : Text → Text
unshift [] = []
unshift (c ∷ cs) = (c - 64) ∷ unshift cs

unshift-shift : (s : Text) → unshift (shift s) ≡ s
unshift-shift [] = refl
unshift-shift (c ∷ cs) = ground (arith, unshift-shift cs)

no_dollar : (s : Text) → count b'$' (shift s) ≡ 0
unfolding count
no_dollar [] = refl
no_dollar (c ∷ cs) = ground (arith, no_dollar cs)

abbrev number : Text → Option ℕ
number s = digits 0 (drop 2 s)

abbrev three : Option ℕ → Option ℕ → Option ℕ → Option (ℕ × ℕ × ℕ)
three (some a) (some b) (some c) = some (a, b, c)
three _ _ _ = none

abbrev numbers : List Text → Option (ℕ × ℕ × ℕ)
numbers (m ∷ t ∷ p ∷ []) = three (number m) (number t) (number p)
numbers _ = none

abbrev pub crypto : Crypto
crypto = record {
  version = 19;
  id_key = λ pw salt time mem threads n. fill n (pw ++ salt);
  encode = shift;
  decode = λ s. some (unshift s);
  scan_version = number;
  scan_params = λ s. numbers (split b',' s);
}

field_plain :
    (c n : ℕ)
    → (c < 48)
    → (x : ℕ) → (count c (x ∷ b'=' ∷ [])) ≡ 0
    → count c (x ∷ b'=' ∷ decimal n) ≡ 0
field_plain c n small x h =
    omega (arith, count-append c (x ∷ b'=' ∷ []) (decimal n), count-decimal c n small)

split-params :
    (m t p : ℕ)
    → split b',' (params_text m t p)
      ≡ (b'm' ∷ b'=' ∷ decimal m) ∷ (b't' ∷ b'=' ∷ decimal t) ∷ (b'p' ∷ b'=' ∷ decimal p) ∷ []
unfolding count nat_eq
split-params m t p =
    split-append b',' (b'm' ∷ b'=' ∷ decimal m)
      ((b't' ∷ b'=' ∷ decimal t) ++ (b',' ∷ (b'p' ∷ b'=' ∷ decimal p)))
      (field_plain b',' m (omega arith) b'm' refl)
    ∙ ap (λ r. (b'm' ∷ b'=' ∷ decimal m) ∷ r)
        (split-append b',' (b't' ∷ b'=' ∷ decimal t) (b'p' ∷ b'=' ∷ decimal p)
            (field_plain b',' t (omega arith) b't' refl)
          ∙ ap (λ r. (b't' ∷ b'=' ∷ decimal t) ∷ r)
              (split_whole b',' (b'p' ∷ b'=' ∷ decimal p)
                (field_plain b',' p (omega arith) b'p' refl)))

pub crypto_laws : Documented crypto
crypto_laws = record {
  decode-encode = λ b. ap some (unshift-shift b);
  count-encode = no_dollar;
  scan_version_lem = λ v h. decimal-read v (omega (arith, h));
  scan_params_lem = λ m t p hm ht hp.
      rw
        (
          split-params m t p,
          decimal-read m (omega (arith, hm)),
          decimal-read t (omega (arith, ht)),
          decimal-read p (omega (arith, hp)),
        )
        refl;
  length-id_key = λ pw salt time mem threads n. length-fill n (pw ++ salt);
}
