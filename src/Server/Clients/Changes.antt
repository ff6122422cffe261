-- ===== src/Server/Clients/Changes.antt =====
-- internal/server/clients.go: the handlers that change a client's settings or show its runs. The
-- parser of cron expressions and the connection to a remote are parameters; `name` is the path's.
pub mod Laws
use backitup.Prelude.{
  ℕ, Bool, true, false, ◌&&◌, not, [], ◌++◌, Text, ok, err, Option, none, some, ltb, ◌==◌, nat_eq,
  text_eq, if◌then◌else◌, codes, trim_space, trim_slashes, query_escape,
}
use backitup.Model.{Client, Run}
use backitup.Store.{Db, Remote, Answer}
use backitup.Store.Clients.{get_client_by_slug, update_client_retention, update_client_offsite}
use backitup.Store.Runs.{get_run}
use backitup.Store.Objects.{forget_offsite_object}
use backitup.Store.Remotes.{get_remote_by_name}
use backitup.Model.Slug.{slug}
use backitup.Server.Response.{
  Response, redirect, bad_request, not_found, service_unavailable, internal_error,
}
use backitup.Server.Forms.{atoi_default}

-- The page of a client.
abbrev pub client_page : Text → Text
client_page name = codes "/clients/" ++ name

-- The answer of an update, which redirects to the client's page.
abbrev pub updated : Text → Answer (Unit {0}) → Response × Db
updated name (ok u, d) = (redirect (client_page name), d)
updated name (err e, d) = (internal_error, d)

pub record RetentionForm : Type 0 where
  pub retention_days : Text
  pub offsite_retention_days : Text
  pub expected_interval_secs : Text

-- At least one day on disk; the other two cannot be negative.
unfoldable pub hot_days : RetentionForm → ℕ
hot_days f = let n = atoi_default f.retention_days 14 in if ltb n 1 then 1 else n

unfoldable pub post_update_client_retention : Text → Option RetentionForm → Db → Response × Db
unfolding hot_days
post_update_client_retention name none d = (bad_request (codes "invalid form"), d)
post_update_client_retention name (some f) d = elim (get_client_by_slug name d) [
  | none ↦ (not_found, d)
  | some c ↦ updated name (
      update_client_retention c.id (hot_days f) (atoi_default f.offsite_retention_days 90)
        (atoi_default f.expected_interval_secs 0) d)
]

pub record OffsiteForm : Type 0 where
  pub offsite_remote : Text
  pub offsite_dir : Text
  pub offsite_cron : Text
  pub offsite_upload_mode : Text
  pub disable_offsite_pruning : Text

-- Whether a remote of the form is in the table; no remote turns offsite off.
unfoldable pub is_known_remote : Text → Db → Bool
is_known_remote remote d =
    if remote == []
    then true
    else elim (get_remote_by_name remote d) [ none ↦ false | some r ↦ true ]

-- What is stored for the form's upload mode.
abbrev pub upload_mode : Text → Text
upload_mode m = if m == codes "latest" then m else codes "all"

unfoldable pub set_offsite : Text → OffsiteForm → Client → Db → Response × Db
set_offsite name f c d = updated name (
    update_client_offsite c.id f.offsite_remote (trim_space (trim_slashes f.offsite_dir))
      (trim_space f.offsite_cron) (upload_mode f.offsite_upload_mode)
      (f.disable_offsite_pruning == codes "1") d)

-- A form whose cron expression is empty or can be parsed.
unfoldable pub set_checked : Text → OffsiteForm → Db → Response × Db
unfolding set_offsite
set_checked name f d =
    if not (is_known_remote f.offsite_remote d)
    then (bad_request (codes "invalid offsite_remote value"), d)
    else elim (get_client_by_slug name d) [
      | none ↦ (not_found, d)
      | some c ↦ set_offsite name f c d
    ]

-- Only an expression that is not empty is parsed.
unfoldable pub cron_error : (Text → Option Text) → Text → Option Text
cron_error parse_cron cron = if cron == [] then none else parse_cron cron

-- `parse_cron` gives the error of an expression that cannot be parsed.
unfoldable pub post_update_client_offsite :
    (Text → Option Text) → Text → Option OffsiteForm → Db → Response × Db
post_update_client_offsite parse_cron name none d = (bad_request (codes "invalid form"), d)
post_update_client_offsite parse_cron name (some f) d =
    elim (cron_error parse_cron (trim_space f.offsite_cron)) [
      | some e ↦ (bad_request (codes "invalid cron expression: " ++ e), d)
      | none ↦ set_checked name f d
    ]

unfoldable pub post_forget_offsite_object : Text → Text → Db → Response × Db
post_forget_offsite_object name snapshot_id d = elim (get_client_by_slug name d) [
  | none ↦ (not_found, d)
  | some c ↦ (
    redirect (client_page (slug c.name) ++ codes "?msg=entry+removed"),
    forget_offsite_object c.id snapshot_id c.offsite_remote d,
  )
]

-- The query that says how the test of a path ended.
abbrev test_result : (Text → Bool) → Text → Text
test_result connects path =
    if connects path
    then codes "?msg=" ++ query_escape (codes "Connected to " ++ path ++ codes " successfully")
    else codes "?err="
      ++ query_escape
          (codes "Connection test failed for " ++ path ++ codes " — check server logs for details")

-- The test of the root of a client's remote.
unfoldable pub post_test_client_offsite : (Text → Bool) → Text → Text → Db → Response
post_test_client_offsite connects rclone_config name d =
    if rclone_config == []
    then redirect (client_page name ++ codes "?err=rclone+not+configured")
    else elim (get_client_by_slug name d) [
      | none ↦ not_found
      | some c ↦
          if c.offsite_remote == []
          then redirect (client_page name ++ codes "?err=no+offsite+remote+configured")
          else redirect (client_page name ++ test_result connects (c.offsite_remote ++ codes ":"))
    ]

-- The answer, and the client whose upload on demand starts in the background.
unfoldable pub post_offsite_run : Bool → Text → Db → Response × Option ℕ
post_offsite_run has_trigger name d =
    if not has_trigger then (service_unavailable, none) else elim (get_client_by_slug name d) [
      | none ↦ (not_found, none)
      | some c ↦
          if c.offsite_remote == []
          then (bad_request (codes "client has no offsite remote configured"), none)
          else (
            redirect (client_page name ++ codes "?msg=Offsite+backup+started+in+the+background"),
            some c.id,
          )
    ]

unfoldable pub own_run : Client → Option Run → Option Run
own_run c none = none
own_run c (some r) = if not (r.client_id == c.id) then none else some r

-- The run of the page, `none` for the answer 404; the id of the path is `none` if it is no number.
unfoldable pub get_run_log : Text → Option ℕ → Db → Option Run
unfolding own_run
get_run_log name none d = none
get_run_log name (some id) d = elim (get_client_by_slug name d) [
  | none ↦ none
  | some c ↦ own_run c (get_run id d)
]
