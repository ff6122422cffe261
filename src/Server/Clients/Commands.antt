-- ===== src/Server/Clients/Commands.antt =====
-- internal/server/clients.go: the commands and the line of known_hosts that the page of a new client
-- shows. `net.SplitHostPort` is a parameter; the file of the host key is its content, `none` where it
-- cannot be read. A space is one of the ASCII.
use backitup.Prelude.{
  ℕ, Bool, ◌&&◌, ◌||◌, List, [], ◌∷◌, ◌++◌, Text, Option, none, some, leb, ◌==◌, nat_eq, text_eq,
  if◌then◌else◌, codes,
}

abbrev or_default : Text → Text → Text
or_default s def = if s == [] then def else s

-- `strings.Join` with a newline.
abbrev join_lines : List Text → Text
join_lines [] = []
join_lines (x ∷ []) = x
join_lines (x ∷ y ∷ ys) = x ++ 10 ∷ join_lines (y ∷ ys)

-- A line that the next one continues.
abbrev continued : Text → Text
continued s = s ++ codes " \\"

module _ (public_host client_image : Text) where
  unfoldable docker_base : Text → Text → Text → Text → List Text
  docker_base token api backup secrets =
      continued (codes "docker run --rm")
      ∷ continued (codes "  --user $(id -u):$(id -g)")
      ∷ continued (codes "  --mount type=bind,src=" ++ backup ++ codes ",dst=/source,readonly")
      ∷ continued (codes "  -v " ++ secrets ++ codes ":/secrets:ro")
      ∷ continued (codes "  -e BACKITUP_API=" ++ api)
      ∷ continued (codes "  -e BACKITUP_SERVER=" ++ public_host)
      ∷ continued (codes "  -e BACKITUP_TOKEN=" ++ token)
      ∷ continued (codes "  -e BACKITUP_SSH_KEY=/secrets/id")
      ∷ []

  abbrev docker_cmd : Text → List Text → Text
  docker_cmd extra base = join_lines (base ++ (continued extra ∷ (codes "  " ++ client_image) ∷ []))

  -- With the file of known hosts, and without a check of the host's key.
  unfoldable docker_cmds : Text → Text → Text → Text → Text × Text
  unfolding docker_base
  docker_cmds token api backup_path secrets_path =
      let base =
        docker_base token api (or_default backup_path (codes "/PATH/TO/BACKUP"))
          (or_default secrets_path (codes "/PATH/TO/SECRETS")) in
      (
        docker_cmd (codes "  -e BACKITUP_KNOWN_HOSTS=/secrets/known_hosts") base,
        docker_cmd (codes "  -e BACKITUP_INSECURE=1") base,
      )

abbrev pub is_space : ℕ → Bool
is_space c = c == 32 || leb 9 c && leb c 13

-- `strings.Fields`: the words between spaces. The word that is read lies in front of the others.
abbrev pub put : ℕ → List Text → List Text
put c [] = (c ∷ []) ∷ []
put c (w ∷ ws) = (c ∷ w) ∷ ws

abbrev pub close : List Text → List Text
close [] = [] ∷ []
close ([] ∷ ws) = [] ∷ ws
close ((c ∷ w) ∷ ws) = [] ∷ (c ∷ w) ∷ ws

-- Read from the end, with an open word in front.
unfoldable pub words : Text → List Text
words [] = [] ∷ []
words (c ∷ s) = let rest = words s in if is_space c then close rest else put c rest

abbrev without_open : List Text → List Text
without_open [] = []
without_open ([] ∷ ws) = ws
without_open ((c ∷ w) ∷ ws) = (c ∷ w) ∷ ws

unfoldable pub fields : Text → List Text
unfolding words
fields s = without_open (words s)

module _ (split_host_port : Text → Option (Text × Text)) where
  abbrev address_of : Text → Option (Text × Text) → Text
  address_of public_host none = public_host
  address_of public_host (some (host, port)) =
      if port == codes "22" then host else b'[' ∷ host ++ (codes "]:" ++ port)

  abbrev known_line : Text → List Text → Text
  known_line public_host (kind ∷ key ∷ rest) =
      address_of public_host (split_host_port public_host) ++ (b' ' ∷ kind) ++ (b' ' ∷ key)
  known_line public_host _ = []

  unfoldable pub known_hosts_line : Text → Text → (Text → Option Text) → Text
  unfolding fields
  known_hosts_line public_host key_path read_file =
      if key_path == [] then [] else elim (read_file key_path) [
        | none ↦ []
        | some content ↦ known_line public_host (fields content)
      ]
