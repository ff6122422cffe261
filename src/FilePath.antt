-- ===== src/FilePath.antt =====
-- `filepath.Join(dir, name)` for a clean directory and a name without separators, as the server
-- joins its base directory with a slug or a snapshot id: an empty name is dropped.
pub mod Joins
use backitup.Prelude.{
  Bool, ◌&&◌, not, any, [], ◌∷◌, ◌++◌, Text, if◌then◌else◌, ◌==◌, text_eq, nat_eq, codes,
}

abbrev pub separator : Text
separator = b'/' ∷ []

unfoldable pub join : Text → Text → Text
join dir name = if name == [] then dir else dir ++ separator ++ name

-- Whether a text is the name of an entry of a directory.
abbrev pub is_name : Text → Bool
is_name n =
    not (n == []) && not (n == codes ".") && not (n == codes "..") && not (any (λ c. c == b'/') n)
