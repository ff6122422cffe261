-- ===== src/Server/Storage.antt =====
-- internal/server/view.go: how much of the disk the backups take, measured at most once a minute. What
-- the walk over the directory meets is a list, in its order.
use backitup.Prelude.{
  ℕ, ◌+◌, ◌*◌, ◌≡◌, refl, ap, Bool, true, false, ◌&&◌, ◌||◌, List, [], ◌∷◌, ◌++◌, any, ltb, ◌==◌,
  nat_eq, if◌then◌else◌, Bool-cases, inl, inr, arith,
}
use backitup.Clock.{second}

-- A directory or an error; a file whose `Sys` is no `syscall.Stat_t`, with its size; a file with its
-- device, its inode and its blocks.
pub data Visited : Type 0 where
  skipped : Visited
  sized : ℕ → Visited
  inode : ℕ × ℕ → ℕ → Visited

abbrev is_key : ℕ × ℕ → ℕ × ℕ → Bool
is_key (dev, ino) (dev', ino') = dev == dev' && ino == ino'

abbrev is_seen : ℕ × ℕ → List (ℕ × ℕ) → Bool
is_seen key seen = any (is_key key) seen

-- The walk, with the inodes that were counted.
unfoldable pub count_bytes : List (ℕ × ℕ) → List Visited → ℕ
count_bytes seen [] = 0
count_bytes seen (skipped ∷ vs) = count_bytes seen vs
count_bytes seen (sized n ∷ vs) = n + count_bytes seen vs
count_bytes seen (inode key blocks ∷ vs) =
    let rest = count_bytes seen vs in
    let counted = count_bytes (key ∷ seen) vs in
    if is_seen key seen then rest else blocks * 512 + counted

record HotBytes : Type 0 where
  pub cache : ℕ
  pub expiry : ℕ

-- The clock is read before and, where there is a walk, behind it.
unfoldable cached_hot_bytes : ℕ → ℕ → List Visited → HotBytes → ℕ × HotBytes
unfolding count_bytes
cached_hot_bytes now done visited h = if ltb now h.expiry then (h.cache, h) else (
  count_bytes [] visited,
  record { cache = count_bytes [] visited; expiry = done + 60 * second },
)

abbrev is_link : ℕ × ℕ → Visited → Bool
is_link key (inode k b) = is_key key k
is_link key _ = false

is_key_swap : (j k : ℕ × ℕ) → is_key j k ≡ true → (l : ℕ × ℕ) → is_key j l ≡ is_key k l
is_key_swap (a, b) (c, d) h (e, f) = ground (arith, h)

is_seen_swap :
    (j k : ℕ × ℕ) → is_key j k ≡ true → (seen : List (ℕ × ℕ)) → is_seen j seen ≡ is_seen k seen
is_seen_swap j k h [] = refl
is_seen_swap j k h (l ∷ ls) = rw (is_key_swap j k h l, is_seen_swap j k h ls) refl

-- A file whose inode was counted before the walk, or is met earlier in it, adds nothing to the size.
pub count_bytes-link :
    (seen : List (ℕ × ℕ)) (key : ℕ × ℕ) (blocks : ℕ) (xs ys : List Visited)
    → (is_seen key seen || any (is_link key) xs) ≡ true
    → count_bytes seen (xs ++ inode key blocks ∷ ys) ≡ count_bytes seen (xs ++ ys)
unfolding count_bytes
count_bytes-link seen key blocks [] ys h =
    let met : is_seen key seen ≡ true = ground (arith, h) in rw met refl
count_bytes-link seen key blocks (skipped ∷ xs) ys h = count_bytes-link seen key blocks xs ys h
count_bytes-link seen key blocks (sized n ∷ xs) ys h =
    ap (λ m. n + m) (count_bytes-link seen key blocks xs ys h)
count_bytes-link seen key blocks (inode k b ∷ xs) ys h =
    let swap = is_seen_swap key k in
    elim (Bool-cases (is_seen k seen)) [
      | inl e ↦ rw e (
          count_bytes-link seen key blocks xs ys (elim (Bool-cases (is_key key k)) [
            | inl f ↦ ground (arith, h, e, swap f seen)
            | inr f ↦ ground (arith, h, f)
          ]))
      | inr e ↦
          rw e (
            ap (λ m. b * 512 + m)
              (count_bytes-link (k ∷ seen) key blocks xs ys (ground (arith, h))))
    ]
