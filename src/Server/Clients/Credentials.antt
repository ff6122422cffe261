-- ===== src/Server/Clients/Credentials.antt =====
-- internal/server/clients.go: `postRotateClient` and `postDeleteClient`, which take a client's
-- credentials away.
pub mod Laws
use backitup.Prelude.{
  ℕ, Bool, true, false, not, [], Text, Outcome, ok, err, Option, none, some, ◌==◌, text_eq,
  if◌then◌else◌, codes,
}
use backitup.Model.{Client}
use backitup.Store.{Db, DbError, conflict, not_found, Answer}
use backitup.Store.Clients.{get_client_by_slug, rotate_client_creds, delete_client}
use backitup.Server.Response
use backitup.Server.Response.{Response, redirect, page, bad_request, internal_error}
use backitup.Server.Clients.{
  Settings, Disk, Site, Draws, Creds, generate_client_creds, regen_authorized_keys,
}

module _ (parses : Text → Bool) (st : Settings) (k : Disk) where
  -- The compare-and-swap, and the rewrite of the keys, whose failure the page shows.
  unfoldable pub rotate_with : Client → Creds → Site → Response × Site
  rotate_with c creds s =
      answer
        (rotate_client_creds c.id creds.pub_line creds.token_hash creds.token_prefix c.version s.db)
    where
      answer : Answer (Unit {0}) → Response × Site
      answer (ok u, d) = (page, (regen_authorized_keys parses st k (record s { db = d })).1)
      answer (err conflict, d) = (
        Response.conflict (codes "concurrent rotation detected — reload the page and try again"),
        record s { db = d },
      )
      answer (err e, d) = (internal_error, record s { db = d })

  unfoldable pub rotate_found : Draws → Client → Site → Response × Site
  rotate_found ds c s = elim (generate_client_creds ds c.name) [
    | none ↦ (internal_error, s)
    | some creds ↦ rotate_with c creds s
  ]

  -- With the client's name of the path, and the form's confirmation, `none` where it has no form.
  unfoldable pub post_rotate_client : Draws → Text → Option Text → Site → Response × Site
  post_rotate_client ds name none s = (bad_request (codes "invalid form"), s)
  post_rotate_client ds name (some confirm) s =
      if not (confirm == codes "1")
      then (bad_request (codes "confirmation required"), s)
      else elim (get_client_by_slug name s.db) [
        | none ↦ (Response.not_found, s)
        | some c ↦ rotate_found ds c s
      ]

  unfoldable pub delete_found : Client → Site → Response × Site
  delete_found c s = answer (delete_client c.id s.db)
    where
      answer : Answer (Unit {0}) → Response × Site
      answer (ok u, d) =
          (redirect (codes "/"), (regen_authorized_keys parses st k (record s { db = d })).1)
      answer (err not_found, d) = (Response.not_found, record s { db = d })
      answer (err e, d) = (internal_error, record s { db = d })

  unfoldable pub post_delete_client : Text → Option Text → Site → Response × Site
  post_delete_client name none s = (bad_request (codes "invalid form"), s)
  post_delete_client name (some confirm) s =
      if not (confirm == codes "1")
      then (bad_request (codes "confirmation required"), s)
      else elim (get_client_by_slug name s.db) [
        | none ↦ (Response.not_found, s)
        | some c ↦ delete_found c s
      ]
