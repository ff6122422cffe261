-- ===== src/Tests/Router.antt =====
-- Three requests of strangers, to handlers that would empty the database.
use backitup.Prelude.{
  true, ℕ, ◌≡◌, ◌⊎◌, ◌≤◌, refl, subst, arith, Bool, false, List, [], ◌∷◌, ◌++◌, any, Text, Outcome,
  ok, err, none, some, ◌==◌, text_eq, nat_eq, if◌then◌else◌, codes, is_prefix, sort_by, trim_space,
}
use backitup.Model.{Client}
use backitup.Store.Clients.{list_clients}
use backitup.Clock.Stamp.{text_lt}
use backitup.Store.Users.{get_user_by_username}
use backitup.Auth.Sessions.{new_session_store, valid, create, lookup}
use backitup.Server.Response.{Response, page, not_found}
use backitup.Server.Limiter.{new_login_limiter, allow}
use backitup.Server.Login.{
  Credentials, is_user, require_admin, post_login, check_login, open_session,
}
use backitup.Server.ClientApi.{require_client, client_by_token, accepts}
use backitup.Server.Routes.{Admin, Api}
use backitup.Server.Router.{Request, Site, bearer_token, serve, serve_all}
use backitup.Server.Router.Strangers.{presents, serve_all-strangers}
use backitup.Tests.Fixtures.{db}

abbrev compare_text : Text → Text → Outcome Text Bool
compare_text token hash = ok (token == hash)

abbrev no_file : Text → Response
no_file path = not_found

abbrev emptied : Site → Response × Site
emptied s = (page, record s { db = record s.db { clients = [] } })

abbrev empty_admin : Admin → Text → Request → ℕ → Site → Response × Site
empty_admin h username r now s = emptied s

abbrev empty_api : Api → Client → Request → ℕ → Site → Response × Site
empty_api h cl r now s = emptied s

-- A mux for the patterns without a wildcard.
abbrev exact_mux : List Text → Text → Text → Outcome Response Text
exact_mux patterns method path =
    let pattern = method ++ b' ' ∷ path in
    if any (λ p. p == pattern) patterns then ok pattern else err not_found

abbrev server : Site
server = record {
  gate = record { limiter = new_login_limiter; sessions = new_session_store 50 };
  db = db;
}

abbrev request : Text → Text → Request
request method path = record {
  method = method;
  path = path;
  ip = codes "a";
  cookie = some (codes "t");
  authorization = codes "Bearer x";
  form = none;
  token = ok (codes "t");
}

abbrev login : Credentials → Request
login f = record (request (codes "POST") (codes "/login")) { form = some f }

abbrev wrong_form : Credentials
wrong_form = record { username = codes "ann"; password = codes "x" }

abbrev history : List (Request × ℕ)
history =
    (login wrong_form, 3)
    ∷ (request (codes "POST") (codes "/clients"), 4)
    ∷ (request (codes "GET") (codes "/api/v1/config"), 5)
    ∷ []

no_user :
    (f : Credentials)
    → some wrong_form ≡ some f
    → is_user compare_text f (get_user_by_username f.username db) ≡ false
unfolding is_user get_user_by_username text_eq nat_eq
no_user f h =
    let same : wrong_form ≡ f = cc in
    subst (λ x. is_user compare_text x (get_user_by_username x.username db) ≡ false) same refl

no_form :
    (f : Credentials)
    → none ≡ some f
    → is_user compare_text f (get_user_by_username f.username db) ≡ false
no_form f h = absurd (ground (arith, h))

no_client : require_client compare_text (bearer_token (codes "Bearer x")) db ≡ none
unfolding require_client client_by_token accepts bearer_token text_eq nat_eq is_prefix trim_space
    list_clients sort_by text_lt
no_client = refl

-- Another session is live, and the strangers carry one that has expired.
abbrev in_use : Site
in_use = record server {
  gate = record server.gate {
    sessions = record {
      ttl = 50;
      tokens =
          (codes "s", record { expiry = 99; username = codes "ben" })
          ∷ (codes "t", record { expiry = 2; username = codes "ann" })
          ∷ [];
    };
  };
}

dead_cookie :
    (now : ℕ)
    → 2 ≤ now
    → (c : Text) → some (codes "t") ≡ some c
    → (valid c now in_use.gate.sessions).0 ≡ false
unfolding valid lookup text_eq nat_eq
dead_cookie now late c h =
    let same : codes "t" ≡ c = cc in
    subst (λ x. (valid x now in_use.gate.sessions).0 ≡ false) same (ground (arith, late))

serve_all-strangers_example :
    let s' = serve_all compare_text no_file empty_admin empty_api exact_mux history in_use in
    (s'.db ≡ db)
    × ((lookup (codes "s") s'.gate.sessions.tokens ≡ lookup (codes "s") in_use.gate.sessions.tokens)
        ⊎ ((lookup (codes "s") s'.gate.sessions.tokens ≡ none)
            × (any (λ r. presents (codes "s") r.0.cookie) history ≡ true)))
serve_all-strangers_example =
    serve_all-strangers compare_text no_file empty_admin empty_api exact_mux history in_use
      (codes "s")
      (
        (no_user, no_client, dead_cookie 3 (omega arith)),
        (
          (no_form, no_client, dead_cookie 4 (omega arith)),
          ((no_form, no_client, dead_cookie 5 (omega arith)), tt),
        ),
      )

-- With a session, the same request reaches its handler.
serve_test :
    (serve compare_text no_file empty_admin empty_api exact_mux
      (request (codes "POST") (codes "/clients"))
      4
      (serve compare_text no_file empty_admin empty_api exact_mux
        (login (record wrong_form { password = [] }))
        3
        server).1).1.db.clients
    ≡ []
unfolding serve text_eq nat_eq new_session_store require_admin valid post_login allow check_login
    is_user get_user_by_username open_session create
serve_test = refl
