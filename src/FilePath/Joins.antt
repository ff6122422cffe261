-- ===== src/FilePath/Joins.antt =====
-- When two joined paths are one.
use backitup.Prelude.{
  ◌≡◌, ◌≢◌, refl, ap, sym, ◌∙◌, Bool, true, false, [], ◌∷◌, ◌++◌, Text, any, length, length-append,
  append_cancel, arith, ◌==◌, nat_eq, text_eq,
}
use mathlib.Core.List.{append_assoc}
use backitup.FilePath.{join, is_name, separator}

slash : Text → Bool
slash t = any (λ c. c == b'/') t

no_slash : (n : Text) → is_name n ≡ true → slash n ≡ false
unfolding slash
no_slash n h = ground (arith, h)

ne_nil : (n : Text) → is_name n ≡ true → n ≢ []
ne_nil n h = ground (arith, h)

slash_inside : (s t : Text) → slash (s ++ b'/' ∷ t) ≡ true
unfolding slash nat_eq
slash_inside [] t = refl
slash_inside (c ∷ s) t = ground (arith, slash_inside s t)

join_name : (dir n : Text) → n ≢ [] → join dir n ≡ dir ++ separator ++ n
unfolding join
join_name dir n h = ground (arith, h)

join_nil : (dir : Text) → join dir [] ≡ dir
unfolding join text_eq nat_eq
join_nil dir = refl

longer : (dir n : Text) → n ≢ [] → join dir n ≢ dir
longer dir n h e = omega (
  arith,
  ap length (sym (join_name dir n h) ∙ e),
  length-append (dir ++ separator) n,
  length-append dir separator,
)

-- Two names in a directory are two paths.
pub join_ne : (dir i j : Text) → is_name i ≡ true → i ≢ j → join dir i ≢ join dir j
join_ne dir i [] v n e = longer dir i n (e ∙ join_nil dir)
join_ne dir i (c ∷ cs) v n e = n (
    append_cancel (dir ++ separator) i (c ∷ cs)
      (sym (join_name dir i (ne_nil i v)) ∙ e ∙ join_name dir (c ∷ cs) (λ h. cc)))

-- A name in a directory is no path below another directory in it.
pub join_below :
    (dir name sub j : Text)
    → is_name name ≡ true
    → sub ≢ []
    → j ≢ []
    → join dir name ≢ join (join dir sub) j
join_below dir name sub j v m n e =
    let inside : name ≡ sub ++ (separator ++ j) =
      append_cancel (dir ++ separator) name (sub ++ (separator ++ j)) (
        sym (join_name dir name (ne_nil name v))
        ∙ e
        ∙ join_name (join dir sub) j n
        ∙ ap (λ p. p ++ separator ++ j) (join_name dir sub m)
        ∙ append_assoc (dir ++ separator ++ sub) separator j
        ∙ append_assoc (dir ++ separator) sub (separator ++ j)) in
    ground (arith, no_slash name v, ap slash inside, slash_inside sub j)
