-- ===== src/Server/Remotes.antt =====
-- internal/server/remotes.go: the remotes and rclone.conf. A form gives a text for each key, empty
-- where it has none; `none` is a form that cannot be parsed. `rclone obscure`, the compaction of JSON
-- and the connection to a remote are parameters. A statement of the database fails only by its
-- constraints.
pub mod Laws
pub mod Safety
pub mod Lines
use backitup.Prelude.{
  ℕ, Bool, true, false, ◌&&◌, ◌||◌, not, List, [], ◌∷◌, ◌++◌, Text, Outcome, ok, err, Option, none,
  some, select, leb, ◌==◌, nat_eq, text_eq, if◌then◌else◌, codes, trim_space, query_escape,
}
use backitup.Model.Backends.{RemoteField, BackendDef, find_backend}
use backitup.Model.Backends.Section.{rclone_section}
use backitup.Store.{Db, Remote, Answer}
use backitup.Store.Remotes.{
  create_remote, list_remotes, get_remote_by_name, update_remote, delete_remote,
}
use backitup.Server.Response.{Response, redirect, not_found}

abbrev pub Config : Type 0
Config = List (Text × Text)

abbrev pub Form : Type 0
Form = Text → Text

-- A letter, a digit, `-`, `_` or `.`
abbrev is_name_char : ℕ → Bool
is_name_char c =
    (leb b'a' c && leb c b'z')
    || (leb b'A' c && leb c b'Z')
    || (leb b'0' c && leb c b'9')
    || c == b'-'
    || c == b'_'
    || c == b'.'

all_name_chars : Text → Bool
all_name_chars [] = true
all_name_chars (c ∷ cs) = is_name_char c && all_name_chars cs

unfoldable pub valid_remote_name : Text → Bool
unfolding all_name_chars
valid_remote_name name = not (name == []) && all_name_chars name

-- The database and rclone.conf, whose path is configured or empty.
pub record Site : Type 0 where
  pub db : Db
  pub conf : Text

abbrev pub put : Text → Text → Config → Config
put k v cfg = (k, v) ∷ select (λ e. not (e.0 == k)) cfg

unfoldable pub lookup : Text → Config → Option Text
lookup k [] = none
lookup k (e ∷ es) = if e.0 == k then some e.1 else lookup k es

abbrev pub remotes_page : Text → Text → Response
remotes_page kind msg = redirect (codes "/settings/remotes?" ++ kind ++ codes "=" ++ msg)

abbrev edit_error : Text → Text → Response
edit_error name msg = redirect (codes "/settings/remotes/" ++ name ++ codes "/edit?err=" ++ msg)

module _ (obscure : Text → Outcome Text Text) where
  -- The value that is stored for a field.
  unfoldable pub stored : RemoteField → Text → Outcome Text Text
  stored f val = if f.obscure then obscure val else ok val

  abbrev pub obscure_error : Text → Text
  obscure_error e = query_escape (codes "Could not obscure password: " ++ e)

  -- The loop of a new remote over the fields: the config, or the message of the first error.
  unfoldable pub create_fields : Form → List RemoteField → Config → Outcome Text Config
  create_fields form [] cfg = ok cfg
  create_fields form (f ∷ fs) cfg =
      let val = trim_space (form f.key) in
      let skipped = create_fields form fs cfg in
      if val == []
      then (if f.required then err (query_escape (f.label ++ codes " is required")) else skipped)
      else elim (stored f val) [
        | err e ↦ err (obscure_error e)
        | ok v ↦ create_fields form fs (put f.key v cfg)
      ]

  -- What an edit keeps of a field that the form leaves empty.
  abbrev pub keep : Text → Option Text → Config → Config
  keep k none cfg = cfg
  keep k (some v) cfg = put k v cfg

  -- The loop of an edit over the fields.
  unfoldable pub edit_fields : Form → Config → List RemoteField → Config → Outcome Text Config
  edit_fields form old [] cfg = ok cfg
  edit_fields form old (f ∷ fs) cfg =
      let val = trim_space (form f.key) in
      let unchanged = edit_fields form old fs (keep f.key (lookup f.key old) cfg) in
      if val == [] then unchanged else elim (stored f val) [
        | err e ↦ err (obscure_error e)
        | ok v ↦ edit_fields form old fs (put f.key v cfg)
      ]

module _ (compact : Text → Option Text) (path : Text) (writes : Bool) where
  sections : List Remote → Text
  sections [] = []
  sections (r ∷ rs) = rclone_section compact r ++ 10 ∷ [] ++ sections rs

  -- Without a path, nothing; else the file is written as a whole, or left.
  unfoldable pub write_rclone_config : Site → Site
  unfolding sections
  write_rclone_config s =
      if path == []
      then s
      else if writes
      then record s { conf = sections (list_remotes s.db) }
      else s

  -- The insert, behind the checks.
  unfoldable pub insert_remote : Text → Text → Config → ℕ → Site → Response × Site
  insert_remote name backend cfg now s = answer (
      create_remote
        (record { id = 0; name = name; backend = backend; config = cfg; created_at = now }) s.db)
    where
      answer : Answer (Unit {0}) → Response × Site
      answer (ok u, d) = (
        remotes_page (codes "msg") (query_escape (codes "Remote \"" ++ name ++ codes "\" created")),
        write_rclone_config (record s { db = d }),
      )
      answer (err e, d) = (
        remotes_page (codes "err")
            (query_escape (codes "A remote named \"" ++ name ++ codes "\" already exists")),
        record s { db = d },
      )

  unfoldable pub update_config : Text → Config → Site → Response × Site
  update_config name cfg s = (
    remotes_page (codes "msg") (query_escape (codes "Remote \"" ++ name ++ codes "\" updated")),
    write_rclone_config (record s { db = update_remote name cfg s.db }),
  )

  unfoldable pub post_delete_remote : Text → Site → Response × Site
  post_delete_remote name s = if not (valid_remote_name name) then (not_found, s) else (
    remotes_page (codes "msg") (codes "Remote+%22" ++ query_escape name ++ codes "%22+deleted"),
    write_rclone_config (record s { db = delete_remote name s.db }),
  )

module _ (obscure : Text → Outcome Text Text) (compact : Text → Option Text) (path : Text)
    (writes : Bool) where
  -- A form for a known backend.
  unfoldable pub create_of : Text → Text → Form → BackendDef → ℕ → Site → Response × Site
  create_of name backend form def now s = elim (create_fields obscure form def.fields []) [
    | err msg ↦ (remotes_page (codes "err") msg, s)
    | ok cfg ↦ insert_remote compact path writes name backend cfg now s
  ]

  -- A form with a name that is valid.
  unfoldable pub create_named : Text → Form → ℕ → Site → Response × Site
  create_named name form now s = elim (find_backend (form (codes "backend"))) [
    | none ↦ (remotes_page (codes "err") (codes "Unknown+backend"), s)
    | some def ↦ create_of name (form (codes "backend")) form def now s
  ]

  unfoldable pub post_create_remote : Option Form → ℕ → Site → Response × Site
  post_create_remote none now s = (remotes_page (codes "err") (codes "invalid+form"), s)
  post_create_remote (some form) now s =
      let name = trim_space (form (codes "name")) in
      if name == []
      then (remotes_page (codes "err") (codes "Remote+name+is+required"), s)
      else if not (valid_remote_name name)
      then (
        remotes_page (codes "err") (
            codes
              "Remote+name+may+only+contain+letters%2C+digits%2C+hyphens%2C+underscores%2C+and+dots"),
        s,
      )
      else create_named name form now s

  -- An edit of a remote whose backend is known.
  unfoldable pub edit_of : Text → Form → Config → BackendDef → Site → Response × Site
  edit_of name form old def s = elim (edit_fields obscure form old def.fields []) [
    | err msg ↦ (edit_error name msg, s)
    | ok cfg ↦ update_config compact path writes name cfg s
  ]

  unfoldable pub edit_found : Text → Form → Remote → Site → Response × Site
  edit_found name form r s = elim (find_backend r.backend) [
    | none ↦ (not_found, s)
    | some def ↦ edit_of name form r.config def s
  ]

  -- With the name of the path.
  unfoldable pub post_edit_remote : Text → Option Form → Site → Response × Site
  post_edit_remote name none s =
      if not (valid_remote_name name)
      then (not_found, s)
      else (edit_error name (codes "invalid+form"), s)
  post_edit_remote name (some form) s =
      if not (valid_remote_name name) then (not_found, s) else elim (get_remote_by_name name s.db) [
        | none ↦ (not_found, s)
        | some r ↦ edit_found name form r s
      ]

-- The test of a remote, whose outcome is in the redirect.
unfoldable pub post_test_remote : (Text → Bool) → Text → Text → Response
post_test_remote connects path name =
    if not (valid_remote_name name)
    then not_found
    else if path == []
    then remotes_page (codes "err") (codes "rclone+not+configured")
    else if connects (name ++ codes ":")
    then remotes_page (codes "msg")
        (query_escape (codes "\"" ++ name ++ codes "\" connected successfully"))
    else remotes_page (codes "err") (
        query_escape (
          codes "Connection test failed for \""
          ++ name
          ++ codes "\" — check server logs for details"))
