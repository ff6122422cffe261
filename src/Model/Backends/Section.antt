-- ===== src/Model/Backends/Section.antt =====
-- internal/model/remote.go: `RcloneSection`. The config is given as its entries in the order in which
-- the loop over the map meets them, which Go leaves open. The compaction of JSON is a parameter.
pub mod Laws
use backitup.Prelude.{
  Bool, List, [], ◌∷◌, ◌++◌, Text, Option, none, some, ◌==◌, text_eq, if◌then◌else◌, codes,
  replace_char,
}
use backitup.Store.{Remote}

abbrev newline : Text
newline = 10 ∷ []

abbrev line : Text → Text
line s = s ++ newline

-- The lines that depend on the backend.
unfoldable pub backend_lines : Text → Text
backend_lines b =
    if b == codes "s3"
    then line (codes "type = s3")
      ++ line (codes "provider = AWS")
      ++ line (codes "env_auth = false")
    else if b == codes "s3-compat"
    then line (codes "type = s3")
      ++ line (codes "provider = Other")
      ++ line (codes "env_auth = false")
    else if b == codes "b2"
    then line (codes "type = b2") ++ line (codes "hard_delete = true")
    else if b == codes "drive"
    then line (codes "type = drive") ++ line (codes "scope = drive")
    else line (codes "type = " ++ b)

module _ (compact : Text → Option Text) where
  -- Credentials in JSON on one line, if they can be read.
  unfoldable pub compact_value : Text → Text → Text
  compact_value k v =
      if k == codes "service_account_credentials"
      then elim (compact v) [ none ↦ v | some c ↦ c ]
      else v

  -- The line of an entry; an empty value has none.
  unfoldable pub entry_line : Text × Text → Text
  unfolding compact_value
  entry_line (k, v) =
      if v == [] then [] else line (k ++ codes " = " ++ replace_char 10 32 (compact_value k v))

  unfoldable pub entry_lines : List (Text × Text) → Text
  entry_lines [] = []
  entry_lines (e ∷ es) = entry_line e ++ entry_lines es

  unfoldable pub rclone_section : Remote → Text
  unfolding entry_lines backend_lines
  rclone_section r =
      line (codes "[" ++ r.name ++ codes "]") ++ backend_lines r.backend ++ entry_lines r.config
