-- ===== src/Archive/Entry.antt =====
-- What an entry asks of the writers, against the callback of the walk.
use backitup.Prelude.{
  ℕ, ◌+◌, ◌≡◌, refl, sym, ◌∙◌, Bool, List, [], ◌∷◌, ◌++◌, Text, Option, none, some, Bool-cases, inl,
  inr, if◌then◌else◌,
}
use mathlib.Core.Path.{fun_ext}
use backitup.Archive.{
  Node, file, symlink, special, dir, vanished, unlisted, unresolved, unopened, unread, TarWriter,
  Header, Written, write_entry, and_then, put_header, copy_file, header_of, written_or,
}

-- What an entry asks for: a header, then the bytes of a file. What the disk refuses, it refuses behind the
-- header if there is one.
pub record Wanted : Type 0 where
  pub header : Option Header
  pub refusal : Option Text
  pub content : Option ℕ

abbrev nothing_wanted : Wanted
nothing_wanted = record { header = none; refusal = none; content = none }

abbrev only_header : Text → ℕ → Text → Wanted
only_header name size link = record nothing_wanted {
  header = some (record { name = name; size = size; link = link });
}

abbrev refused : Text → Wanted → Wanted
refused e x = record x { refusal = some e }

abbrev pub wanted : Bool → Text → Node → Wanted
wanted skip rel (file n) = record (only_header rel n []) { content = some n }
wanted skip rel (unopened n e) = refused e (only_header rel n [])
wanted skip rel (unread n e) = refused e (only_header rel n [])
wanted skip rel (symlink t) = if skip then nothing_wanted else only_header rel 0 t
wanted skip rel (unresolved e) = if skip then nothing_wanted else refused e nothing_wanted
wanted skip rel special = nothing_wanted
wanted skip rel (dir cs) = only_header (rel ++ b'/' ∷ []) 0 []
wanted skip rel (unlisted e) = refused e (only_header (rel ++ b'/' ∷ []) 0 [])
wanted skip rel (vanished e) = refused e nothing_wanted

-- The archive with the header and the bytes of an entry, up to the first refusal.
abbrev unless : Option Text → Written → Written → Option Text × Written
unless (some e) before after = (some e, before)
unless none before after = (none, after)

abbrev after_header : TarWriter → Option Header → Written → Option Text × Written
after_header out none w = (none, w)
after_header out (some h) w =
    unless (out.header_error h w) w (record w { headers = w.headers ++ h ∷ [] })

abbrev after_content : TarWriter → Option Text → Option ℕ → Written → Option Text × Written
after_content out (some e) n w = (some e, w)
after_content out none none w = (none, w)
after_content out none (some n) w =
    unless (out.copy_error n w) w (record w { files = w.files + 1; bytes = w.bytes + n })

abbrev pub write_wanted : TarWriter → Wanted → Written → Option Text × Written
write_wanted out x w =
    and_then (after_header out x.header w) (after_content out x.refusal x.content)

pub and_then_end : (r : Option Text × Written) → and_then r (λ w. (none, w)) ≡ r
and_then_end (none, w) = refl
and_then_end (some e, w) = refl

pub and_then_cong :
    (r q : Option Text × Written) (f g : Written → Option Text × Written)
    → r ≡ q
    → ((w : Written) → f w ≡ g w)
    → and_then r f ≡ and_then q g
and_then_cong r q f g e h = rw (e, fun_ext h) refl

unless-eq :
    (e : Option Text) (before after : Written) → written_or e before after ≡ unless e before after
unless-eq none before after = refl
unless-eq (some e) before after = refl

module _ (m : Text → Text → Bool) (ps : List Text) (skip : Bool) (out : TarWriter) where
  after_header-eq : (h : Header) (w : Written) → put_header out h w ≡ after_header out (some h) w
  after_header-eq h w = unless-eq (out.header_error h w) w _

  after_content-eq : (n : ℕ) (w : Written) → copy_file out n w ≡ after_content out none (some n) w
  after_content-eq n w = unless-eq (out.copy_error n w) w _

  -- The callback of the walk writes what the entry asks for.
  pub write_entry_lem :
      (rel : Text) (node : Node) (w : Written)
      → write_entry m ps skip out rel node w ≡ write_wanted out (wanted skip rel node) w
  unfolding write_entry
  write_entry_lem rel (file n) w =
      and_then_cong _ _ _ _ (after_header-eq (header_of rel n []) w) (after_content-eq n)
  write_entry_lem rel (symlink t) w = elim (Bool-cases skip) [
    | inl e ↦ rw e refl
    | inr e ↦ rw e (after_header-eq (header_of rel 0 t) w ∙ sym (and_then_end _))
  ]
  write_entry_lem rel special w = refl
  write_entry_lem rel (dir cs) w =
      after_header-eq (header_of (rel ++ b'/' ∷ []) 0 []) w ∙ sym (and_then_end _)
  write_entry_lem rel (vanished x) w = refl
  write_entry_lem rel (unlisted x) w =
      and_then_cong _ _ _ _ (after_header-eq (header_of (rel ++ b'/' ∷ []) 0 []) w) (λ v. refl)
  write_entry_lem rel (unresolved x) w = elim (Bool-cases skip) [
    | inl e ↦ rw e refl
    | inr e ↦ rw e refl
  ]
  write_entry_lem rel (unopened n x) w =
      and_then_cong _ _ _ _ (after_header-eq (header_of rel n []) w) (λ v. refl)
  write_entry_lem rel (unread n x) w =
      and_then_cong _ _ _ _ (after_header-eq (header_of rel n []) w) (λ v. refl)
