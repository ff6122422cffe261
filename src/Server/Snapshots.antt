-- ===== src/Server/Snapshots.antt =====
-- internal/server/snapshots.go: what an admin downloads and deletes of a client's snapshots and
-- objects, over the platform of the lifecycle. `name` is the path's, `base` the server's directory of
-- backups; `ids` is `none` for a form that cannot be parsed. Where a statement fails, only the log
-- says so, if not an answer is given.
pub mod Laws
use backitup.Prelude.{
  ℕ, Bool, true, false, ◌||◌, not, List, [], ◌∷◌, ◌++◌, Text, Outcome, ok, err, Option, none, some,
  find, ◌==◌, text_eq, if◌then◌else◌, codes, contains,
}
use backitup.FilePath.{join}
use backitup.Model.{Client, Mode}
use backitup.Model.Slug.{slug}
use backitup.Store.{Db}
use backitup.Store.Clients.{get_client_by_slug}
use backitup.Store.Objects.{delete_offsite_object}
use backitup.Lifecycle.{
  Platform, Snapshot, World, Action, return, ◌>>=◌, attempt, handle, exec, query, act, read,
}
use backitup.Lifecycle.Naming.{offsite_dir, object_path, archive_suffix}
use backitup.Lifecycle.Upload.{is_registered}
use backitup.Server.Response.{Response, redirect, bad_request, not_found, internal_error}

-- An id that the handlers turn away.
unfoldable pub is_bad_id : Text → Bool
is_bad_id id = id == [] || contains (codes "..") id

-- The answer that leads back to the client's page with a message.
abbrev pub back : Client → Text → Response
back c msg = redirect (codes "/clients/" ++ slug c.name ++ codes "?" ++ msg)

-- A file that is sent as it is, a directory that is packed on the way, an object of the remote, or
-- an answer without any.
pub data Download : Type 0 where
  archive directory object : Text → Download
  refused : Response → Download

module _ (P : Platform) (base : Text) where
  open P use {delete_object, delete_snapshot, list}

  abbrev pub hot_dir : Client → Text
  hot_dir c = join base (slug c.name)

  unfoldable pub resolve_client :
      {A : Type 0} → Text → (Response → A) → (Client → Action P A) → Action P A
  resolve_client name answer rest =
      attempt (query (get_client_by_slug name)) (λ e. return (answer internal_error))
        λ found. elim found [ none ↦ return (answer not_found) | some c ↦ rest c ]

  unfoldable pub resolve_client_and_mode :
      {A : Type 0} → Text → (Response → A) → (Client → Action P A) → Action P A
  resolve_client_and_mode name answer rest =
      resolve_client name answer
        λ c. if not (is_registered c.mode) then return (answer internal_error) else rest c

  -- The snapshot that is listed under the id.
  unfoldable pub download_of : Client → Text → List Snapshot → Download
  download_of c id snaps = elim (find (λ s. s.id == id) snaps) [
    | none ↦ refused not_found
    | some s ↦ by_mode s.id c.mode
  ]
    where
      by_mode : Text → Mode → Download
      by_mode i Mode.rsync = directory (join (join (hot_dir c) (codes "snapshots")) i)
      by_mode i Mode.targz = archive (join (hot_dir c) i)
      by_mode i (Mode.other m) = refused not_found

  unfoldable pub get_snapshot_download : Text → Text → Action P Download
  get_snapshot_download name id = resolve_client_and_mode name refused λ c.
      if is_bad_id id
      then return (refused not_found)
      else attempt (read (list c.mode (hot_dir c))) (λ e. return (refused internal_error))
          λ snaps. return (download_of c id snaps)

  unfoldable pub get_offsite_download : Text → Text → Text → Action P Download
  get_offsite_download rclone_config name id = resolve_client name refused λ c.
      if c.offsite_remote == [] || rclone_config == []
      then return (refused (bad_request (codes "offsite not configured")))
      else if is_bad_id id
      then return (refused not_found)
      else return (object (c.offsite_remote ++ codes ":" ++ object_path (offsite_dir c) c.mode id))

  unfoldable pub post_snapshot_delete : Text → Text → Action P Response
  post_snapshot_delete name id =
      resolve_client_and_mode name (λ r. r)
        λ c.
          if is_bad_id id
          then return not_found
          else attempt (act (delete_snapshot c.mode (hot_dir c) id))
              (λ e. return (back c (codes "err=delete+failed")))
              λ _. return (back c (codes "msg=snapshot+deleted"))

  -- The object goes first; the record only behind it.
  unfoldable pub delete_tracked : Client → Text → Action P Response
  delete_tracked c id =
      attempt (act (delete_object c.offsite_remote (object_path (offsite_dir c) c.mode id)))
        (λ e. return (back c (codes "err=offsite+delete+failed")))
        λ _. exec (λ db. (ok tt, delete_offsite_object c.id id c.offsite_remote db)) >>= λ _.
          return (back c (codes "msg=offsite+object+deleted"))

  unfoldable pub post_offsite_object_delete : Text → Text → Action P Response
  unfolding delete_tracked
  post_offsite_object_delete name id =
      resolve_client name (λ r. r)
        λ c.
          if c.offsite_remote == []
          then return (back c (codes "err=offsite+not+configured"))
          else if is_bad_id id
          then return not_found
          else delete_tracked c id

  -- The loop of a bulk deletion on disk, with whether a deletion has failed.
  unfoldable pub delete_snapshots : Client → List Text → Bool → Action P Bool
  delete_snapshots c [] failed = return failed
  delete_snapshots c (id ∷ ids) failed =
      if is_bad_id id
      then delete_snapshots c ids failed
      else attempt (act (delete_snapshot c.mode (hot_dir c) id)) (λ e. delete_snapshots c ids true)
          λ _. delete_snapshots c ids failed

  unfoldable pub post_bulk_delete_snapshots : Text → Option (List Text) → Action P Response
  post_bulk_delete_snapshots name none = return (bad_request (codes "invalid form"))
  post_bulk_delete_snapshots name (some []) = return (redirect (codes "/clients/" ++ name))
  post_bulk_delete_snapshots name (some (id ∷ ids)) =
      resolve_client_and_mode name (λ r. r)
        λ c. delete_snapshots c (id ∷ ids) false >>= λ failed. return (
          if failed
          then back c (codes "err=some+deletes+failed")
          else back c (codes "msg=snapshots+deleted"))

  -- One object of a bulk deletion: the record goes also where the remote refused.
  unfoldable pub delete_bulk_object : Client → Text → Action P Bool
  delete_bulk_object c id =
      act (delete_object c.offsite_remote (object_path (offsite_dir c) c.mode id)) >>= λ r.
      exec (λ db. (ok tt, delete_offsite_object c.id id c.offsite_remote db)) >>= λ _.
      return (elim r [ ok u ↦ false | err e ↦ true ])

  unfoldable pub delete_objects : Client → List Text → Bool → Action P Bool
  unfolding delete_bulk_object
  delete_objects c [] failed = return failed
  delete_objects c (id ∷ ids) failed =
      if is_bad_id id
      then delete_objects c ids failed
      else delete_bulk_object c id >>= λ bad. delete_objects c ids (failed || bad)

  unfoldable pub post_bulk_delete_offsite_objects : Text → Option (List Text) → Action P Response
  post_bulk_delete_offsite_objects name none = return (bad_request (codes "invalid form"))
  post_bulk_delete_offsite_objects name (some []) = return (redirect (codes "/clients/" ++ name))
  post_bulk_delete_offsite_objects name (some (id ∷ ids)) =
      resolve_client name (λ r. r)
        λ c.
          if c.offsite_remote == []
          then return (back c (codes "err=offsite+not+configured"))
          else delete_objects c (id ∷ ids) false >>= λ failed. return (
              if failed
              then back c (codes "err=some+offsite+deletes+failed")
              else back c (codes "msg=offsite+objects+deleted"))
