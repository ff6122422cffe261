-- ===== src/AuthKeys/Render.antt =====
-- internal/authkeys/authkeys.go: `Render`. Whether `ssh.ParseAuthorizedKey` takes a key is
-- a parameter.
pub mod Injection
use backitup.Prelude.{
  ℕ, Bool, true, false, ◌&&◌, ◌||◌, not, List, [], ◌∷◌, ◌++◌, Text, Option, none, some, sort_by,
  any, ltb, leb, ◌==◌, nat_eq, text_eq, if◌then◌else◌, codes, is_nil, trim_space,
}
use backitup.FilePath.{join}
use backitup.Model.{Client, Mode}
use backitup.Model.Slug.{slug}

abbrev pub newline : ℕ
newline = 10

abbrev pub quote : ℕ
quote = 34

-- `Header`
abbrev pub header : Text
header = codes "# Managed by backitup. Do not edit; regenerated from the database." ++ newline ∷ []

pub record Skipped : Type 0 where
  pub client_id : ℕ
  pub reason : Text

-- The directory, and the forced command of the two modes.
unfoldable pub forced_command : Mode → Text → Text → Option Text
forced_command Mode.rsync base slug = some (codes "rrsync " ++ join base slug)
forced_command Mode.targz base slug = some (codes "backitup-recv " ++ join base slug)
forced_command (Mode.other m) base slug = none

mode_text : Mode → Text
mode_text Mode.targz = codes "targz"
mode_text Mode.rsync = codes "rsync"
mode_text (Mode.other m) = m

-- One line: options with the forced command, and the key.
abbrev pub entry : Text → Text → Text
entry cmd key =
    codes "restrict,command=" ++ quote ∷ (cmd ++ quote ∷ b' ' ∷ (trim_space key ++ newline ∷ []))

abbrev skipped : Client → Text → Skipped
skipped c reason = record { client_id = c.id; reason = reason }

-- The line of a client with a mode, or the skipped client.
unfoldable pub render_mode : Text → Client → Mode → Text × List Skipped
unfolding mode_text forced_command
render_mode base c m = elim (forced_command m base (slug c.name)) [
  | none ↦ ([], skipped c (codes "unknown mode " ++ mode_text m) ∷ [])
  | some cmd ↦ (entry cmd c.ssh_pub_key, [])
]

-- A client with the reason against its key, which is empty for a safe one.
unfoldable pub render_checked : Text → Client → Text → Text × List Skipped
unfolding render_mode
render_checked base c reason =
    if not (is_nil reason) then ([], skipped c reason ∷ []) else render_mode base c c.mode

unfoldable pub by_id : List Client → List Client
by_id = sort_by (λ a b. ltb a.id b.id)

module _ (parses : Text → Bool) where
  -- The reason, empty for a key that is safe to embed.
  unfoldable pub invalid_pub_key : Text → Text
  invalid_pub_key key =
      if any (λ r. r == newline || r == 13) key
      then codes "embedded newline"
      else if any (λ r. r == quote) key
      then codes "embedded quote"
      else if any (λ r. ltb r 32) key
      then codes "control character"
      else if not (parses key)
      then codes "unparseable public key"
      else []

  -- What one client adds to the file, and to the skipped ones.
  unfoldable pub render_one : Text → Client → Text × List Skipped
  render_one base c =
      if not c.enabled || is_nil (trim_space c.ssh_pub_key)
      then ([], [])
      else render_checked base c (invalid_pub_key c.ssh_pub_key)

  -- The loop over the sorted clients.
  unfoldable pub render_loop : Text → List Client → Text × List Skipped
  render_loop base [] = ([], [])
  render_loop base (c ∷ cs) =
      let (line, skip) = render_one base c in
      let (body, skipped) = render_loop base cs in (line ++ body, skip ++ skipped)

  unfoldable pub render : List Client → Text → Text × List Skipped
  render clients base =
      let (body, skipped) = render_loop base (by_id clients) in (header ++ body, skipped)
