-- ===== src/Tests/Handlers.antt =====
-- The login and the handlers of the clients, with a password check that compares texts.
use backitup.Prelude.{
  ◌≡◌, refl, Bool, true, [], ◌∷◌, List, Text, Outcome, ok, err, some, none, codes, arith, ◌==◌,
  nat_eq, text_eq, sort_by,
}
use backitup.Clock.Stamp.{text_lt}
use backitup.Model.Slug.{slug}
use backitup.Model.{is_valid, Client}
use backitup.Store.{Db}
use backitup.Store.Users.{get_user_by_username}
use backitup.Store.Runs.{get_run}
use backitup.Store.Clients.{get_client_by_slug, list_clients, create_client}
use backitup.Auth.Sessions.{new_session_store}
use backitup.AuthKeys.Render.{render}
use backitup.Server.Response.{redirect, page, too_many_requests}
use backitup.Server.Limiter.{new_login_limiter, allow, is_past}
use backitup.Server.Login.{Gate, Credentials, require_admin, post_login, post_logout, is_user}
use backitup.Server.Login.Laws.{Attempt, attempts, post_login-require_admin, post_login-attempts}
use backitup.Server.ClientApi.{require_client, accepts}
use backitup.Server.Clients.{Settings, Disk, Site, Draws, Creds, generate_client_creds}
use backitup.Server.Clients.Keys.{IsCurrent}
use backitup.Server.Clients.Current.{create, serve, serve-IsCurrent}
use backitup.Server.Clients.Creation.{ClientForm, post_clients, insert_created}
use backitup.Server.Clients.Creation.Laws.{post_clients-require_client}
use backitup.Server.Clients.Credentials.{post_rotate_client}
use backitup.Server.Clients.Credentials.Laws.{renewed, post_rotate_client-require_client}
use backitup.Server.Clients.Changes.{OffsiteForm, get_run_log}
use backitup.Tests.Fixtures.{nas, ann, db, present}

abbrev compare_text : Text → Text → Outcome Text Bool
compare_text token hash = ok (token == hash)

abbrev gate : Gate
gate = record { limiter = new_login_limiter; sessions = new_session_store 50 }

abbrev right_form : Credentials
right_form = record { username = codes "ann"; password = [] }

post_login-require_admin_example :
    let (answer, g') =
      post_login compare_text (codes "a") (some right_form) (ok (codes "t")) 100 db gate in
    (answer ≡ redirect (codes "/"))
    × ((require_admin (some (codes "t")) 120 g'.sessions).0 ≡ some (codes "ann"))
    × ((require_admin (some (codes "t")) 150 g'.sessions).0 ≡ none)
    × ((require_admin (some (codes "t")) 120 (post_logout (some (codes "t")) g'.sessions).1).0
        ≡ none)
unfolding allow get_user_by_username text_eq new_session_store
post_login-require_admin_example =
    post_login-require_admin compare_text (codes "a") right_form (codes "t") 100 120 150 db gate ann
      refl refl refl (λ e. cc) (omega arith) (omega arith)

abbrev wrong_try : Attempt
wrong_try = record { form = record { username = codes "eve"; password = [] }; at = 100 }

abbrev ten_tries : List Attempt
ten_tries =
    wrong_try ∷ wrong_try ∷ wrong_try ∷ wrong_try ∷ wrong_try ∷ wrong_try ∷ wrong_try ∷ wrong_try
    ∷ wrong_try ∷ wrong_try ∷ []

post_login-attempts_example :
    let after = attempts compare_text (codes "a") (err []) db ten_tries gate in
    ((post_login compare_text (codes "a") (some right_form) (ok (codes "t")) 120 db after).0
      ≡ too_many_requests)
    × ((post_login compare_text
          (codes "a")
          (some right_form)
          (ok (codes "t"))
          120
          db
          after).1.sessions
        ≡ gate.sessions)
unfolding is_past is_user get_user_by_username text_eq
post_login-attempts_example =
    post_login-attempts compare_text (codes "a") (some right_form) (err []) (ok (codes "t")) 120 db
      ten_tries gate refl refl
      (
        (refl, refl),
        (
          (refl, refl),
          (
            (refl, refl),
            (
              (refl, refl),
              (
                (refl, refl),
                ((refl, refl), ((refl, refl), ((refl, refl), ((refl, refl), ((refl, refl), tt))))),
              ),
            ),
          ),
        ),
      )

abbrev settings : Settings
settings = record {
  auth_keys_path = codes "/keys";
  auth_keys_dir = codes "/";
  backup_base_dir = codes "/data";
  rclone_config = codes "/conf";
}

abbrev disk : Disk
disk = record { makes = λ dir. true; writes = true }

abbrev any_key : Text → Bool
any_key key = true

abbrev draws : Draws
draws = record {
  keypair = λ comment. ok (codes "pem", codes "ssh-ed25519 BBBB");
  token = ok (codes "secret-token");
  hash_password = λ token. ok token;
}

abbrev creds : Creds
creds = record {
  priv_pem = codes "pem";
  pub_line = codes "ssh-ed25519 BBBB";
  token = codes "secret-token";
  token_hash = codes "secret-token";
  token_prefix = codes "secret-t";
}

abbrev client_form : ClientForm
client_form = record {
  name = codes "Tower";
  mode = codes "rsync";
  source_label = [];
  retention_days = codes "7";
  offsite_retention_days = [];
  expected_interval_secs = codes "x";
  offsite_remote = [];
  offsite_dir = codes "/tower/";
  offsite_cron = [];
  skip_symlinks = [];
}

abbrev site : Site
site = record {
  db = db;
  auth_keys = (render any_key (list_clients db) (codes "/data")).0;
  dirs = [];
}

post_clients-require_client_example :
    (c : Client) × (require_client compare_text
        (codes "secret-token")
        (post_clients any_key settings disk draws (some client_form) present site).1.db
      ≡ some c)
    × (c.name ≡ codes "Tower")
    × (c.id ≡ 3)
unfolding generate_client_creds accepts text_eq post_clients is_valid insert_created create_client
post_clients-require_client_example =
    post_clients-require_client compare_text any_key settings disk draws client_form present site
      creds refl (λ e. cc) (λ e. cc) refl (refl, (refl, tt)) refl

post_rotate_client-require_client_example :
    let (answer, s') =
      post_rotate_client any_key settings disk draws (codes "nas") (some (codes "1")) site in
    (answer ≡ page)
    × (require_client compare_text (codes "secret-token") s'.db ≡ some (renewed creds nas))
    × (require_client compare_text (codes "old") s'.db ≡ none)
unfolding generate_client_creds accepts text_eq nat_eq get_client_by_slug sort_by text_lt slug
post_rotate_client-require_client_example =
    post_rotate_client-require_client compare_text any_key settings disk draws (codes "nas") site
      nas creds (codes "old") ((omega arith, tt), (tt, tt)) refl refl refl (λ e. cc) (λ e. cc) refl
      refl ((λ n. absurd (n refl)), ((λ n. refl), tt)) ((λ n. absurd (n refl)), ((λ n. refl), tt))

serve-IsCurrent_example :
    IsCurrent any_key settings disk
      (serve any_key settings disk (create draws (some client_form) present) site)
serve-IsCurrent_example =
    serve-IsCurrent any_key settings disk (record { makes = λ dir. refl; writes = refl }) (λ e. cc)
      (create draws (some client_form) present) site refl

abbrev offsite_form : OffsiteForm
offsite_form = record {
  offsite_remote = [];
  offsite_dir = [];
  offsite_cron = [];
  offsite_upload_mode = codes "latest";
  disable_offsite_pruning = [];
}

-- The database with clients that have no remote.
abbrev local_db : Db
local_db = record db { clients = record nas { offsite_remote = [] } ∷ [] }

-- The run of another client is not shown.
get_run_log_foreign : get_run_log (codes "nas") (some 3) db ≡ none
unfolding get_run_log get_client_by_slug get_run list_clients sort_by text_lt text_eq nat_eq slug
get_run_log_foreign = refl
