-- ===== src/Model/Backends/Section/Laws.antt =====
-- No value of a config adds a line to rclone.conf.
use backitup.Prelude.{
  ◌+◌, ◌≡◌, refl, ◌∙◌, Bool, not, List, [], ◌∷◌, ◌++◌, Text, Option, All, select, length, arith,
  ◌==◌, nat_eq, text_eq, Bool-cases, inl, inr, if◌then◌else◌, codes, replace_char, count,
  count-append,
}
use backitup.Store.{Remote}
use backitup.Model.Backends.Section.{
  newline, line, backend_lines, compact_value, entry_line, entry_lines, rclone_section,
}

count-replace_char : (s : Text) → count 10 (replace_char 10 32 s) ≡ 0
unfolding count
count-replace_char [] = refl
count-replace_char (c ∷ s) = ground (arith, count-replace_char s)

count-line : (s : Text) → count 10 s ≡ 0 → count 10 (line s) ≡ 1
unfolding count nat_eq
count-line s h = count-append 10 s newline ∙ omega (arith, h)

-- An entry with a value.
abbrev pub has_value : Text × Text → Bool
has_value e = not (e.1 == [])

module _ (compact : Text → Option Text) where
  count-entry_line :
      (e : Text × Text)
      → count 10 e.0 ≡ 0
      → count 10 (entry_line compact e) ≡ (if has_value e then 1 else 0)
  unfolding entry_line count nat_eq
  count-entry_line (k, v) h = elim (Bool-cases (v == [])) [
    | inl e ↦ rw e refl
    | inr e ↦ rw e (
        count-line (k ++ codes " = " ++ replace_char 10 32 (compact_value compact k v)) (
          count-append 10 (k ++ codes " = ") (replace_char 10 32 (compact_value compact k v))
          ∙ rw (count-append 10 k (codes " = "), count-replace_char (compact_value compact k v))
              (omega (arith, h))))
  ]

  count-entry_lines :
      (es : List (Text × Text))
      → All (λ e. count 10 e.0 ≡ 0) es
      → count 10 (entry_lines compact es) ≡ length (select has_value es)
  unfolding entry_lines count
  count-entry_lines [] h = refl
  count-entry_lines (e ∷ es) h =
      count-append 10 (entry_line compact e) (entry_lines compact es)
      ∙ rw (count-entry_line e h.0, count-entry_lines es h.1)
          (elim (Bool-cases (has_value e)) [
            | inl y ↦ rw y (omega arith)
            | inr n ↦ rw n (omega arith)
          ])

-- The lines of the name, of the backend and of the entries with a value, in each order of the entries.
pub count-rclone_section :
    (compact : Text → Option Text) (r : Remote)
    → count 10 r.name ≡ 0
    → All (λ e. count 10 e.0 ≡ 0) r.config
    → count 10 (rclone_section compact r)
      ≡ 1 + count 10 (backend_lines r.backend) + length (select has_value r.config)
unfolding rclone_section count nat_eq
count-rclone_section compact r name keys =
    count-append 10 (line (codes "[" ++ r.name ++ codes "]") ++ backend_lines r.backend)
      (entry_lines compact r.config)
    ∙ rw
        (
          count-append 10 (line (codes "[" ++ r.name ++ codes "]")) (backend_lines r.backend),
          count-entry_lines compact r.config keys,
          count-line (codes "[" ++ r.name ++ codes "]")
              (count-append 10 (codes "[" ++ r.name) (codes "]") ∙ omega (arith, name)),
        )
        refl
