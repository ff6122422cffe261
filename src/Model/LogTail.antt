-- ===== src/Model/LogTail.antt =====
-- internal/model/model.go: `CapLogTail`, over the bytes of the log.
use backitup.Prelude.{
  ℕ, zero, suc, ◌-◌, ◌≤◌, ◌≡◌, refl, Bool, true, false, [], ◌∷◌, ◌++◌, Text, arith, leb, length,
  drop, if◌then◌else◌,
}

abbrev pub max_log_tail : ℕ
max_log_tail = 65536

unfoldable pub cap_log_tail : Text → Text
cap_log_tail s = if leb (length s) max_log_tail then s else drop (length s - max_log_tail) s

length-drop : (n : ℕ) (s : Text) → length (drop n s) ≡ length s - n
length-drop zero s = omega arith
length-drop (suc n) [] = omega arith
length-drop (suc n) (c ∷ cs) = omega (arith, length-drop n cs)

drop-suffix : (n : ℕ) (s : Text) → (front : Text) × (s ≡ front ++ drop n s)
drop-suffix zero s = ([], refl)
drop-suffix (suc n) [] = ([], refl)
drop-suffix (suc n) (c ∷ cs) = let (front, e) = drop-suffix n cs in (c ∷ front, cc)

pub length-cap_log_tail : (s : Text) → length (cap_log_tail s) ≤ max_log_tail
unfolding cap_log_tail
length-cap_log_tail s = ground (arith, length-drop (length s - max_log_tail) s)

-- What is kept is the end of the log, never longer than the cap, and the whole log if that fits;
-- if it does not fit, exactly the cap is kept.
pub cap_log_tail_lem :
    (s : Text)
    → ((front : Text) × (s ≡ front ++ cap_log_tail s))
      × (length (cap_log_tail s) ≤ max_log_tail)
      × (length s ≤ max_log_tail → cap_log_tail s ≡ s)
      × (max_log_tail ≤ length s → length (cap_log_tail s) ≡ max_log_tail)
unfolding cap_log_tail
cap_log_tail_lem s = (
  capped (leb (length s) max_log_tail),
  length-cap_log_tail s,
  λ h. ground arith,
  λ h. ground (arith, length-drop (length s - max_log_tail) s),
)
  where
    capped :
        (b : Bool)
        → (front : Text) × (s ≡ front ++ (if b then s else drop (length s - max_log_tail) s))
    capped true = ([], refl)
    capped false = drop-suffix (length s - max_log_tail) s
