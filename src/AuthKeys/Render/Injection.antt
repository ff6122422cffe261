-- ===== src/AuthKeys/Render/Injection.antt =====
-- No client can write a line or a quote into the file.
use backitup.Prelude.{
  ℕ, ◌+◌, ◌*◌, ◌≤◌, ◌≡◌, ◌≢◌, refl, ◌∙◌, ◌⊎◌, inl, inr, Bool, true, false, ◌&&◌, ◌||◌, not, List,
  [], ◌∷◌, ◌++◌, Text, any, select, length, arith, ◌==◌, nat_eq, text_eq, if◌then◌else◌, codes,
  Bool-cases, count, count-append, is_nil, is_space, trim_left, trim_right, trim_space,
}
use backitup.FilePath.{join, separator}
use backitup.Model.{Client, Mode, is_valid}
use backitup.Model.Slug.{slug, hyphen, is_alnum}
use backitup.Model.Slug.Laws.{IsTidy, slug-IsTidy}
use backitup.AuthKeys.Render.{
  newline, quote, forced_command, invalid_pub_key, entry, render_one, render_checked, render_loop,
  by_id, render, header, render_mode,
}

count_of_any : (x : ℕ) (s : Text) → any (λ r. r == x) s ≡ false → count x s ≡ 0
unfolding count
count_of_any x [] h = refl
count_of_any x (c ∷ s) h = ground (arith, h, count_of_any x s)

count-trim_left : (x : ℕ) (p : ℕ → Bool) (s : Text) → count x (trim_left p s) ≤ count x s
unfolding count trim_left
count-trim_left x p [] = omega arith
count-trim_left x p (c ∷ s) = elim (Bool-cases (p c)) [
  | inl e ↦ rw e (ground (arith, count-trim_left x p s))
  | inr e ↦ rw e (omega arith)
]

count-trim_right : (x : ℕ) (p : ℕ → Bool) (s : Text) → count x (trim_right p s) ≤ count x s
unfolding count trim_right
count-trim_right x p [] = omega arith
count-trim_right x p (c ∷ s) = elim (Bool-cases (p c && is_nil (trim_right p s))) [
  | inl e ↦ rw e (omega arith)
  | inr e ↦ rw e (ground (arith, count-trim_right x p s))
]

count-trim_space : (x : ℕ) (s : Text) → count x s ≡ 0 → count x (trim_space s) ≡ 0
unfolding trim_space
count-trim_space x s h =
    let a = count-trim_right x is_space (trim_left is_space s) in
    let b = count-trim_left x is_space s in omega (arith, a, b, h)

count_of_IsTidy :
    (x : ℕ) (prev : Bool) (s : Text)
    → is_alnum x ≡ false
    → x ≢ hyphen
    → IsTidy prev s
    → count x s ≡ 0
unfolding count
count_of_IsTidy x prev [] a h t = refl
count_of_IsTidy x prev (c ∷ cs) a h (inl (alnum, t)) =
    ground (arith, a, h, alnum, count_of_IsTidy x false cs a h t)
count_of_IsTidy x prev (c ∷ cs) a h (inr (e, p, t)) =
    ground (arith, a, h, e, count_of_IsTidy x true cs a h t)

-- The characters that could break out of a line or out of the quoted command.
abbrev pub IsBreaking : ℕ → Type 0
IsBreaking x = (x ≡ newline) ⊎ (x ≡ quote)

count-slug : (x : ℕ) (name : Text) → IsBreaking x → count x (slug name) ≡ 0
count-slug x name b =
    count_of_IsTidy x true (slug name) (ground (arith, b)) (ground (arith, b)) (slug-IsTidy name).0

count-join :
    (x : ℕ) (base name : Text)
    → IsBreaking x
    → count x base ≡ 0
    → count x (join base (slug name)) ≡ 0
unfolding join count
count-join x base name b h = elim (Bool-cases (slug name == [])) [
  | inl e ↦ rw e h
  | inr e ↦ rw e (
      count-append x (base ++ separator) (slug name)
      ∙ ground (arith, h, b, count-append x base separator, count-slug x name b))
]

-- Whether a client gets a line.
unfoldable pub is_emitted : (Text → Bool) → Client → Bool
is_emitted parses c =
    c.enabled
    && not (is_nil (trim_space c.ssh_pub_key))
    && is_nil (invalid_pub_key parses c.ssh_pub_key)
    && is_valid c.mode

-- What a line holds: its end, and the two quotes of its command.
abbrev in_line : ℕ → ℕ
in_line x = if x == newline then 1 else 2

any_of_any :
    (x : ℕ) (s : Text)
    → IsBreaking x
    → any (λ r. r == x) s ≡ true
    → (any (λ r. r == newline || r == 13) s ≡ true) ⊎ (any (λ r. r == quote) s ≡ true)
any_of_any x [] b h = cc
any_of_any x (c ∷ s) b h = ground (arith, b, h, any_of_any x s b)

-- A key that is not rejected holds neither.
count_of_valid :
    (parses : Text → Bool) (x : ℕ) (key : Text)
    → IsBreaking x
    → is_nil (invalid_pub_key parses key) ≡ true
    → count x key ≡ 0
unfolding invalid_pub_key
count_of_valid parses x key b h = count_of_any x key (ground (arith, any_of_any x key b, h))

count-entry :
    (x : ℕ) (cmd key : Text)
    → IsBreaking x
    → count x cmd ≡ 0
    → count x key ≡ 0
    → count x (entry cmd key) ≡ in_line x
unfolding count
count-entry x cmd key b c k =
    let trimmed = count-trim_space x key k in
    let tail = count-append x (trim_space key) (newline ∷ []) in
    let whole = count-append x cmd (quote ∷ b' ' ∷ (trim_space key ++ newline ∷ [])) in
    ground (arith, b, c, trimmed, tail, whole)

count-command :
    (x : ℕ) (program base name : Text)
    → IsBreaking x
    → count x base ≡ 0
    → count x program ≡ 0
    → count x (program ++ join base (slug name)) ≡ 0
count-command x program base name b h p =
    omega (arith, count-append x program (join base (slug name)), count-join x base name b h, p)

count-render_mode :
    (x : ℕ) (base : Text) (c : Client) (m : Mode)
    → IsBreaking x
    → count x base ≡ 0
    → count x c.ssh_pub_key ≡ 0
    → count x (render_mode base c m).0 ≡ (if is_valid m then in_line x else 0)
unfolding render_mode count forced_command is_valid
count-render_mode x base c Mode.targz b h k =
    count-entry x (codes "backitup-recv " ++ join base (slug c.name)) c.ssh_pub_key b
      (count-command x (codes "backitup-recv ") base c.name b h (ground (arith, b))) k
count-render_mode x base c Mode.rsync b h k =
    count-entry x (codes "rrsync " ++ join base (slug c.name)) c.ssh_pub_key b
      (count-command x (codes "rrsync ") base c.name b h (ground (arith, b))) k
count-render_mode x base c (Mode.other m) b h k = refl

count-render_checked :
    (x : ℕ) (base : Text) (c : Client) (reason : Text)
    → IsBreaking x
    → count x base ≡ 0
    → (is_nil reason ≡ true → count x c.ssh_pub_key ≡ 0)
    → count x (render_checked base c reason).0
      ≡ (if is_nil reason && is_valid c.mode then in_line x else 0)
unfolding render_checked count
count-render_checked x base c reason b h k = elim (Bool-cases (is_nil reason)) [
  | inr e ↦ rw e refl
  | inl e ↦ rw e (count-render_mode x base c c.mode b h (k e))
]

count-render_one :
    (parses : Text → Bool) (x : ℕ) (base : Text) (c : Client)
    → IsBreaking x
    → count x base ≡ 0
    → count x (render_one parses base c).0 ≡ (if is_emitted parses c then in_line x else 0)
unfolding render_one is_emitted count
count-render_one parses x base c b h =
    let checked =
      count-render_checked x base c (invalid_pub_key parses c.ssh_pub_key) b h
        (count_of_valid parses x c.ssh_pub_key b) in
    ground (arith, checked)

count-render_loop :
    (parses : Text → Bool) (x : ℕ) (base : Text) (cs : List Client)
    → IsBreaking x
    → count x base ≡ 0
    → count x (render_loop parses base cs).0 ≡ in_line x * length (select (is_emitted parses) cs)
unfolding render_loop count
count-render_loop parses x base [] b h = omega arith
count-render_loop parses x base (c ∷ cs) b h =
    rw
      (
        count-append x (render_one parses base c).0 (render_loop parses base cs).0,
        count-render_one parses x base c b h,
        count-render_loop parses x base cs b h,
      )
      (elim (Bool-cases (is_emitted parses c)) [
        | inl e ↦ rw e (ground (arith, b))
        | inr e ↦ rw e (ground (arith, b))
      ])

-- With a base directory that holds no newline and no quote, the file holds one newline for each client
-- that gets a line, and the header's, and two quotes for each such client: no name and no key adds
-- a line, or a quote.
pub count-render :
    (parses : Text → Bool) (clients : List Client) (base : Text)
    → count newline base ≡ 0
    → count quote base ≡ 0
    → (count newline (render parses clients base).0
        ≡ 1 + length (select (is_emitted parses) (by_id clients)))
      × (count quote (render parses clients base).0
          ≡ 2 * length (select (is_emitted parses) (by_id clients)))
unfolding render count
count-render parses clients base n q = (
  count-append newline header (render_loop parses base (by_id clients)).0
      ∙ ground (arith, count-render_loop parses newline base (by_id clients) (inl refl) n),
  count-append quote header (render_loop parses base (by_id clients)).0
      ∙ ground (arith, count-render_loop parses quote base (by_id clients) (inr refl) q),
)
