-- ===== src/Server/Remotes/Lines.antt =====
-- rclone.conf has the lines that the remotes call for, and no other.
use backitup.Prelude.{
  ◌+◌, ◌≡◌, refl, sym, ◌∙◌, ap, true, [], ◌∷◌, Text, Outcome, Option, All, select, length, arith,
  ◌==◌, nat_eq, text_eq, count,
}
use backitup.Prelude.Rows.{All_of_Mem, All-mono}
use backitup.Prelude.Sorting.Laws.{Mem-find}
use backitup.Model.Backends.{backends, find_backend}
use backitup.Model.Backends.Section.{backend_lines, rclone_section}
use backitup.Model.Backends.Section.Laws.{has_value, count-rclone_section}
use backitup.Store.{Remote}
use backitup.Server.Remotes.{valid_remote_name, all_name_chars}
use backitup.Server.Remotes.Laws.{IsSafe, IsEntry}

count-all_name_chars : (s : Text) → all_name_chars s ≡ true → count 10 s ≡ 0
unfolding count all_name_chars
count-all_name_chars [] h = refl
count-all_name_chars (c ∷ s) h = let rest = count-all_name_chars s in ground (arith, h, rest)

count-valid_remote_name : (s : Text) → valid_remote_name s ≡ true → count 10 s ≡ 0
unfolding valid_remote_name
count-valid_remote_name s h = count-all_name_chars s (ground (arith, h))

-- No key of a field holds a newline.
keys_of_backends : All (λ b. All (λ f. count 10 f.key ≡ 0) b.fields) backends
unfolding backends count nat_eq
keys_of_backends = (
  (refl, (refl, (refl, tt))),
  (
    (refl, (refl, (refl, (refl, tt)))),
    (
      (refl, (refl, tt)),
      (
        (refl, (refl, tt)),
        (
          (refl, (refl, (refl, (refl, (refl, tt))))),
          (
            (refl, (refl, (refl, (refl, tt)))),
            ((refl, (refl, tt)), ((refl, (refl, (refl, (refl, tt)))), tt)),
          ),
        ),
      ),
    ),
  ),
)

-- The section of a safe remote has one line for its name, those of its backend, and one for each entry
-- of its config with a value, whatever the values hold, in each order of the entries.
pub count-rclone_section_safe :
    (obscure : Text → Outcome Text Text) (compact : Text → Option Text) (r : Remote)
    → IsSafe obscure r
    → count 10 (rclone_section compact r)
      ≡ 1 + count 10 (backend_lines r.backend) + length (select has_value r.config)
unfolding find_backend
count-rclone_section_safe obscure compact r (valid, def, known, entries) =
    let keys =
      All_of_Mem (λ b. All (λ f. count 10 f.key ≡ 0) b.fields) backends def
        (Mem-find (λ b. b.id == r.backend) backends def known) keys_of_backends in
    count-rclone_section compact r (count-valid_remote_name r.name valid) (
      All-mono (IsEntry obscure def.fields) (λ e. count 10 e.0 ≡ 0) r.config
        (λ e h.
          ap (count 10) (sym h.2) ∙ All_of_Mem (λ f. count 10 f.key ≡ 0) def.fields h.0 h.1 keys)
        entries)
