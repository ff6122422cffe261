-- ===== src/Server/Routes.antt =====
-- internal/server/server.go: the routes, and the guard that stands in front of each handler.
use backitup.Prelude.{List, [], ◌∷◌, Text, codes}

-- The handlers that anybody reaches, `static` for the files under /static/.
pub data Open : Type 0 where
  healthz static get_login post_login post_logout : Open

-- Those behind `requireAdmin`.
pub data Admin : Type 0 where
  dashboard get_new_client post_clients get_client get_run_log post_rotate_client : Admin
  post_update_client_retention post_update_client_offsite post_forget_offsite_object : Admin
  post_offsite_run post_test_client_offsite get_snapshot_download post_snapshot_delete : Admin
  post_bulk_delete_snapshots get_offsite_download post_offsite_object_delete : Admin
  post_bulk_delete_offsite_objects post_delete_client get_users post_create_user : Admin
  post_delete_user get_remotes post_create_remote get_edit_remote post_edit_remote : Admin
  post_test_remote post_delete_remote get_fleet_status : Admin

-- Those behind `requireClient`.
pub data Api : Type 0 where
  get_config post_status : Api

pub data Handler : Type 0 where
  plain : Open → Handler
  require_admin : Admin → Handler
  require_client : Api → Handler

-- The patterns, in the order in which they are registered.
abbrev pub routes : List (Text × Handler)
routes =
    (codes "GET /healthz", plain Open.healthz)
    ∷ (codes "GET /static/", plain Open.static)
    ∷ (codes "GET /login", plain Open.get_login)
    ∷ (codes "POST /login", plain Open.post_login)
    ∷ (codes "POST /logout", plain Open.post_logout)
    ∷ (codes "GET /{$}", require_admin Admin.dashboard)
    ∷ (codes "GET /clients/new", require_admin Admin.get_new_client)
    ∷ (codes "POST /clients", require_admin Admin.post_clients)
    ∷ (codes "GET /clients/{name}", require_admin Admin.get_client)
    ∷ (codes "GET /clients/{name}/runs/{runID}", require_admin Admin.get_run_log)
    ∷ (codes "POST /clients/{name}/rotate", require_admin Admin.post_rotate_client)
    ∷ (codes "POST /clients/{name}/retention", require_admin Admin.post_update_client_retention)
    ∷ (codes "POST /clients/{name}/offsite", require_admin Admin.post_update_client_offsite)
    ∷ (
      codes "POST /clients/{name}/offsite/{snapshotID}/forget",
      require_admin Admin.post_forget_offsite_object,
    )
    ∷ (codes "POST /clients/{name}/offsite/run", require_admin Admin.post_offsite_run)
    ∷ (codes "POST /clients/{name}/offsite/test", require_admin Admin.post_test_client_offsite)
    ∷ (
      codes "GET /clients/{name}/snapshots/{snapshotID}",
      require_admin Admin.get_snapshot_download,
    )
    ∷ (
      codes "POST /clients/{name}/snapshots/{snapshotID}/delete",
      require_admin Admin.post_snapshot_delete,
    )
    ∷ (
      codes "POST /clients/{name}/snapshots/bulk-delete",
      require_admin Admin.post_bulk_delete_snapshots,
    )
    ∷ (
      codes "GET /clients/{name}/offsite/{snapshotID}/download",
      require_admin Admin.get_offsite_download,
    )
    ∷ (
      codes "POST /clients/{name}/offsite/{snapshotID}/delete",
      require_admin Admin.post_offsite_object_delete,
    )
    ∷ (
      codes "POST /clients/{name}/offsite/bulk-delete",
      require_admin Admin.post_bulk_delete_offsite_objects,
    )
    ∷ (codes "POST /clients/{name}/delete", require_admin Admin.post_delete_client)
    ∷ (codes "GET /users", require_admin Admin.get_users)
    ∷ (codes "POST /users", require_admin Admin.post_create_user)
    ∷ (codes "POST /users/{id}/delete", require_admin Admin.post_delete_user)
    ∷ (codes "GET /settings/remotes", require_admin Admin.get_remotes)
    ∷ (codes "POST /settings/remotes", require_admin Admin.post_create_remote)
    ∷ (codes "GET /settings/remotes/{name}/edit", require_admin Admin.get_edit_remote)
    ∷ (codes "POST /settings/remotes/{name}/edit", require_admin Admin.post_edit_remote)
    ∷ (codes "POST /settings/remotes/{name}/test", require_admin Admin.post_test_remote)
    ∷ (codes "POST /settings/remotes/{name}/delete", require_admin Admin.post_delete_remote)
    ∷ (codes "GET /api/v1/fleet", require_admin Admin.get_fleet_status)
    ∷ (codes "GET /api/v1/config", require_client Api.get_config)
    ∷ (codes "POST /api/v1/status", require_client Api.post_status)
    ∷ []
