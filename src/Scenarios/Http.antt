-- ===== src/Scenarios/Http.antt =====
-- Requests of executeHTTP with a concrete client.
use grodt.Prelude.{Bool, true, false, some, [], ◌≡◌, refl}
use grodt.State.Http.{HttpStack, HttpRequest, Fetched, response, problem, other, execute_http}
use grodt.State.Http.Bounds.{IsBounded, IsDenied, execute_http-IsBounded, execute_http-IsDenied}
use grodt.State.Tasks.{is_blank}
use grodt.Scenarios.{live}

-- The client answers every request; `user` says that the URL carries credentials.
abbrev pub sky_client : Bool → HttpStack
sky_client user = record {
  decode_request =
      λ payload. some record { method = "GET"; url = "https://sky"; headers = []; body = "" };
  new_request =
      λ request. some (some record { scheme = "https"; hostname = "sky"; has_user = user });
  has_content_type = λ headers. false;
  fetch = λ n c request is_json check.
      response (record { status_code = 200; headers = []; read = λ limit. ("clear", false) });
  encode = λ r. "{}";
}

answered_test : (execute_http (sky_client false) true 0 live "{}").body ≡ "clear"
unfolding execute_http is_blank
answered_test = refl

execute_http-IsBounded_example : IsBounded (execute_http (sky_client false) true 0 live "{}")
execute_http-IsBounded_example = execute_http-IsBounded (sky_client false) true 0 live "{}"

abbrev no_fetch : HttpRequest → Fetched
no_fetch request = problem other

execute_http-IsDenied_example : IsDenied (execute_http (sky_client true) true 0 live "{}") (
    execute_http
      (record (sky_client true) { fetch = λ n c request is_json check. no_fetch request })
      true
      0
      live
      "{}")
execute_http-IsDenied_example =
    execute_http-IsDenied (sky_client true) (λ n c request is_json check. no_fetch request) true 0
      live "{}" refl
