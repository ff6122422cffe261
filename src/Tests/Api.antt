-- ===== src/Tests/Api.antt =====
-- What a client calls, with a password check that compares texts.
use backitup.Prelude.{
  ◌≡◌, ◌≢◌, Bool, true, [], Text, Outcome, ok, some, none, All, select, codes, arith, ◌==◌, nat_eq,
  text_eq, false,
}
use backitup.Model.{Client}
use backitup.Store.Clients.{list_clients}
use backitup.Server.ClientApi.{StatusReq, accepts, require_client, post_status}
use backitup.Server.ClientApi.Laws.{require_client_lem, post_status-other}
use backitup.Tests.Fixtures.{nas, db, present}

abbrev compare_text : Text → Text → Outcome Text Bool
compare_text token hash = ok (token == hash)

abbrev report : StatusReq
report = record {
  status = codes "ok";
  run_id = 2;
  bytes = 1;
  files = 1;
  snapshot_id = codes "b";
  started_at = 0;
  finished_at = 0;
  log_tail = [];
}

require_client_lem_example :
    ((c : Client)
      → require_client compare_text (codes "secret") db ≡ some c
      → (codes "secret" ≢ [])
        × (c.enabled ≡ true)
        × (c.token_hash ≢ [])
        × (compare_text (codes "secret") c.token_hash ≡ ok true))
    × (require_client compare_text (codes "secret") db ≡ none
        → codes "secret" ≢ []
        → All (λ c. accepts compare_text (codes "secret") c ≡ false) (list_clients db))
require_client_lem_example = require_client_lem compare_text (codes "secret") db

post_status-other_example :
    select (λ q. q.client_id == 2) (post_status nas (some report) present db).1.runs
    ≡ select (λ q. q.client_id == 2) db.runs
post_status-other_example = post_status-other nas (some report) present 2 db (omega arith)
