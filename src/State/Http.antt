-- ===== src/State/Http.antt =====
-- internal/state/http.go: the execution of a request. `HttpStack` stands for encoding/json, net/url and
-- net/http; what it gives may differ at each tick.
pub mod Bounds
use Prim.Native.String.{len}
use text.Mathlib.Text.{◌==◌ as str_eq}
use grodt.Prelude.{
  ℕ, ◌+◌, String, Bool, true, false, not, ◌&&◌, ◌||◌, Option, none, some, List, [], ◌∷◌, ltb,
  is_empty, if◌then◌else◌,
}
use grodt.State.Store.{Context}
use grodt.State.Tasks.{is_blank}

abbrev pub max_http_redirects : ℕ
max_http_redirects = 3

abbrev pub max_http_body_bytes : ℕ
max_http_body_bytes = 1048576

abbrev pub max_http_header_bytes : ℕ
max_http_header_bytes = 65536

pub record HttpRequest : Type 0 where
  pub method : String
  pub url : String
  pub headers : List (String × String)
  pub body : String

pub record HttpResult : Type 0 where
  pub status_code : ℕ
  pub headers : List (String × List String)
  pub body : String
  pub error : String

-- What the checks read of a url.URL.
pub record Url : Type 0 where
  pub scheme : String
  pub hostname : String
  pub has_user : Bool

-- What errors.Is finds in an error of the client.
pub data Problem : Type 0 where
  too_many_redirects policy deadline cancelled other : Problem

-- A response: `read` gives what io.ReadAll returns for its body under a limit, the bytes and whether
-- there was an error.
pub record Response : Type 0 where
  pub status_code : ℕ
  pub headers : List (String × List String)
  pub read : ℕ → String × Bool

pub data Fetched : Type 0 where
  response : Response → Fetched
  problem : Problem → Fetched

-- The decoder of the payload, http.NewRequest with the URL of its request, whether the headers set
-- Content-Type, client.Do (with the added Content-Type and the CheckRedirect function), and
-- json.Marshal of a result.
pub record HttpStack : Type 0 where
  pub decode_request : String → Option HttpRequest
  pub new_request : HttpRequest → Option (Option Url)
  pub has_content_type : List (String × String) → Bool
  pub fetch : ℕ → Context → HttpRequest → Bool → (Option Url → ℕ → Option Problem) → Fetched
  pub encode : HttpResult → String

-- checkHTTPURL returns nil.
abbrev pub check_http_url : Bool → Option Url → Bool
check_http_url allow_http none = false
check_http_url allow_http (some u) =
    allow_http
    && (str_eq u.scheme "http" || str_eq u.scheme "https")
    && not (is_empty u.hostname)
    && not u.has_user

-- The CheckRedirect function, with the number of the requests so far.
abbrev pub check_redirect : Bool → Option Url → ℕ → Option Problem
check_redirect allow_http next via =
    if not (check_http_url allow_http next)
    then some policy
    else if ltb max_http_redirects via
    then some too_many_redirects
    else none

-- `HTTPResult{Error: code}`
abbrev pub http_error : String → HttpResult
http_error code = record { status_code = 0; headers = []; body = ""; error = code }

unfoldable pub header_bytes : List (String × String) → ℕ
header_bytes [] = 0
header_bytes ((k, v) ∷ headers) = len k + len v + header_bytes headers

unfoldable pub value_bytes : String → List String → ℕ
value_bytes k [] = 0
value_bytes k (v ∷ values) = len k + len v + value_bytes k values

unfoldable pub response_bytes : List (String × List String) → ℕ
unfolding value_bytes
response_bytes [] = 0
response_bytes ((k, values) ∷ headers) = value_bytes k values + response_bytes headers

abbrev pub problem_code : Problem → String
problem_code too_many_redirects = "redirect_limit"
problem_code policy = "http_policy_denied"
problem_code deadline = "http_timeout"
problem_code cancelled = "http_cancelled"
problem_code other = "http_failed"

-- The result under the limits on the headers and on the body.
unfoldable pub read_response : Response → HttpResult
unfolding response_bytes
read_response r =
    let (body, unread) = r.read (max_http_body_bytes + 1) in
    if ltb max_http_header_bytes (response_bytes r.headers)
    then http_error "header_limit"
    else record {
      status_code = r.status_code;
      headers = r.headers;
      body = if ltb max_http_body_bytes (len body) || unread then "" else body;
      error =
          if ltb max_http_body_bytes (len body)
          then "body_limit"
          else if unread
          then "body_read_failed"
          else "";
    }

abbrev pub read_fetched : Fetched → HttpResult
read_fetched (problem p) = http_error (problem_code p)
read_fetched (response r) = read_response r

-- The request is sent, unless its URL or the size of its headers forbids it.
unfoldable pub send : HttpStack → Bool → ℕ → Context → HttpRequest → Option Url → HttpResult
unfolding header_bytes read_response
send h allow_http tick c request url =
    if not (check_http_url allow_http url)
    then http_error "http_policy_denied"
    else if ltb max_http_header_bytes (header_bytes request.headers)
    then http_error "header_limit"
    else let is_json = not (is_empty request.body) && not (h.has_content_type request.headers) in
      read_fetched (h.fetch tick c request is_json (check_redirect allow_http))

unfoldable pub execute_request : HttpStack → Bool → ℕ → Context → Option HttpRequest → HttpResult
unfolding is_blank send
execute_request h allow_http tick c none = http_error "invalid_http_request"
execute_request h allow_http tick c (some request) =
    if is_blank request.method
    then http_error "invalid_http_request"
    else elim (h.new_request request) [
      | none ↦ http_error "invalid_http_request"
      | some url ↦ send h allow_http tick c request url
    ]

unfoldable pub execute_http : HttpStack → Bool → ℕ → Context → String → HttpResult
unfolding execute_request
execute_http h allow_http tick c payload =
    if not allow_http
    then http_error "http_disabled"
    else execute_request h allow_http tick c (h.decode_request payload)
