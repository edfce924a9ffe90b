-- ===== src/Tests/Routing.antt =====
-- src/router.c on concrete requests.
use cinder_http.Prelude.{◌≡◌, refl, [], ◌∷◌, none, some}
use cinder_http.Text.{Bytes, codes}
use cinder_http.Request.{Request, post, http_request_init}
use cinder_http.Response.{Response, http_response_init, memory}
use cinder_http.Router.{
  path_equals, routes, RouterResult, handled, router_dispatch, build_allow_header,
}
use cinder_http.Router.Statuses.{before_query, expected_status, router_dispatch-status}
use cinder_http.Tests.Parsing.{granted_all}

abbrev posted : Request
posted = record http_request_init { method = post; target = some (codes "/api/health") }

abbrev refusal : Response
refusal = record http_response_init {
  status_code = 405;
  reason_phrase = some (codes "Method Not Allowed");
  headers =
      record { name = codes "Content-Type"; value = codes "application/json" }
      ∷ record { name = codes "Allow"; value = codes "GET, HEAD" }
      ∷ [];
  body = memory (some (codes "{\"error\":\"method not allowed\"}"));
  body_length = 30;
}

refuses_post : router_dispatch granted_all none posted http_response_init ≡ (handled, refusal)
unfolding router_dispatch cinder_http.Router.dispatch_from path_equals
    cinder_http.Router.method_compatible cinder_http.Router.answer_unmatched
    cinder_http.Router.build_api_error cinder_http.Response.build_with_type
    cinder_http.Response.http_response_set_body_text cinder_http.Response.http_response_add_header
    build_allow_header cinder_http.Router.any_route cinder_http.Text.strcmp_eq
    cinder_http.Response.http_reason_phrase
refuses_post = refl

router_dispatch-status_example : 405 ≡ expected_status (before_query (codes "/api/health")) post
router_dispatch-status_example =
    router_dispatch-status granted_all none posted (codes "/api/health") http_response_init refusal
      refl refuses_post
