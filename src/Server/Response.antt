-- ===== src/Server/Response.antt =====
-- internal/server: what a handler answers, without the pages that the templates make.
use backitup.Prelude.{Text}

-- The status of the answer, and where a redirect leads. `page` is an answer 200 with a page.
pub data Response : Type 0 where
  redirect : Text → Response
  bad_request : Text → Response
  conflict : Text → Response
  page not_found unauthorized too_many_requests service_unavailable internal_error : Response
