-- ===== src/State/Http/Bounds.antt =====
-- The results of executeHTTP (internal/state/http.go).
use Prim.Native.String.{len}
use grodt.Prelude.{
  ℕ, ◌≤◌, String, Bool, true, false, not, Option, none, some, List, inl, inr, ltb, is_empty, ◌≡◌,
  refl, arith, Bool-cases, ◌&&◌, ◌||◌, if◌then◌else◌,
}
use grodt.State.Store.{Context}
use grodt.State.Tasks.{is_blank}
use grodt.State.Http.{
  HttpStack, HttpRequest, HttpResult, Url, Problem, Fetched, Response, response, problem,
  check_http_url, check_redirect, http_error, problem_code, response_bytes, header_bytes,
  read_response, read_fetched, send, execute_request, execute_http,
}

-- The limits on a result, and what a result without an error holds.
pub record IsBounded (r : HttpResult) : Type 0 where
  pub body : len r.body ≤ 1048576
  pub headers : response_bytes r.headers ≤ 65536
  pub partial_body : is_empty r.error ≡ false → r.body ≡ ""

IsBounded-http_error : (code : String) → IsBounded (http_error code)
unfolding response_bytes
IsBounded-http_error code = record {
  body = ground arith;
  headers = ground arith;
  partial_body = λ h. refl;
}

IsBounded-if :
    (b : Bool) (x y : HttpResult) → IsBounded x → IsBounded y → IsBounded (if b then x else y)
IsBounded-if true x y hx hy = hx
IsBounded-if false x y hx hy = hy

IsBounded-read :
    (status : ℕ) (headers : List (String × List String)) (body : String) (over unread : Bool)
    → ltb 1048576 (len body) ≡ over
    → response_bytes headers ≤ 65536
    → IsBounded (record {
      status_code = status;
      headers = headers;
      body = if over || unread then "" else body;
      error = if over then "body_limit" else if unread then "body_read_failed" else "";
    })
IsBounded-read status headers body true unread over few = record {
  body = ground arith;
  headers = few;
  partial_body = λ h. refl;
}
IsBounded-read status headers body false true within few = record {
  body = ground arith;
  headers = few;
  partial_body = λ h. refl;
}
IsBounded-read status headers body false false within few = record {
  body = ground (arith, within);
  headers = few;
  partial_body = λ h. absurd (ground (arith, h));
}

IsBounded-read_response : (r : Response) → IsBounded (read_response r)
unfolding read_response
IsBounded-read_response r =
    let (body, unread) = r.read 1048577 in
    elim (Bool-cases (ltb 65536 (response_bytes r.headers))) [
      | inl over ↦ rw over (IsBounded-http_error "header_limit")
      | inr few ↦
          rw few (IsBounded-read r.status_code r.headers body _ unread refl (ground (arith, few)))
    ]

IsBounded-read_fetched : (f : Fetched) → IsBounded (read_fetched f)
IsBounded-read_fetched (problem p) = IsBounded-http_error (problem_code p)
IsBounded-read_fetched (response r) = IsBounded-read_response r

IsBounded-send :
    (h : HttpStack) (allow_http : Bool) (tick : ℕ) (c : Context) (request : HttpRequest)
    (url : Option Url)
    → IsBounded (send h allow_http tick c request url)
unfolding send
IsBounded-send h allow_http tick c request url =
    IsBounded-if (not (check_http_url allow_http url)) _ _ (IsBounded-http_error _) (
      IsBounded-if (ltb 65536 (header_bytes request.headers)) _ _ (IsBounded-http_error _) (
        IsBounded-read_fetched (
          h.fetch tick c request
            (not (is_empty request.body) && not (h.has_content_type request.headers))
            (check_redirect allow_http))))

IsBounded-execute_request :
    (h : HttpStack) (allow_http : Bool) (tick : ℕ) (c : Context) (o : Option HttpRequest)
    → IsBounded (execute_request h allow_http tick c o)
unfolding execute_request
IsBounded-execute_request h allow_http tick c none = IsBounded-http_error _
IsBounded-execute_request h allow_http tick c (some request) =
    IsBounded-if (is_blank request.method) _ _ (IsBounded-http_error _)
      (by_url (h.new_request request))
  where
    by_url :
        (o : Option (Option Url))
        → IsBounded (elim o [
          | none ↦ http_error "invalid_http_request"
          | some url ↦ send h allow_http tick c request url
        ])
    by_url none = IsBounded-http_error _
    by_url (some url) = IsBounded-send h allow_http tick c request url

-- Whatever the client gives, the result of executeHTTP has a body of at most 2^20 bytes and headers
-- of at most 2^16 bytes, and a result with an error has no body.
pub execute_http-IsBounded :
    (h : HttpStack) (allow_http : Bool) (tick : ℕ) (c : Context) (payload : String)
    → IsBounded (execute_http h allow_http tick c payload)
unfolding execute_http
execute_http-IsBounded h allow_http tick c payload =
    IsBounded-if (not allow_http) _ _ (IsBounded-http_error _)
      (IsBounded-execute_request h allow_http tick c (h.decode_request payload))

-- There is a request, for a URL that checkHTTPURL lets pass.
abbrev pub permits : HttpStack → Bool → Option HttpRequest → Bool
permits h allow_http none = false
permits h allow_http (some request) = elim (h.new_request request) [
  | none ↦ false
  | some url ↦ check_http_url allow_http url
]

-- A result that no response contributed to, whatever another client gives.
pub record IsDenied (r r' : HttpResult) : Type 0 where
  pub same : r ≡ r'
  pub failed : is_empty r.error ≡ false
  pub status : r.status_code ≡ 0

IsDenied-http_error :
    (code : String) → is_empty code ≡ false → IsDenied (http_error code) (http_error code)
IsDenied-http_error code h = record { same = refl; failed = h; status = refl }

IsDenied-if :
    (b : Bool) (x y y' : HttpResult)
    → IsDenied x x
    → IsDenied y y'
    → IsDenied (if b then x else y) (if b then x else y')
IsDenied-if true x y y' hx hy = hx
IsDenied-if false x y y' hx hy = hy

module _ (h : HttpStack)
    (fetch : ℕ → Context → HttpRequest → Bool → (Option Url → ℕ → Option Problem) → Fetched)
    (allow_http : Bool) (tick : ℕ) (c : Context) where
  IsDenied-send :
      (request : HttpRequest) (url : Option Url)
      → check_http_url allow_http url ≡ false
      → IsDenied
          (send h allow_http tick c request url)
          (send (record h { fetch = fetch }) allow_http tick c request url)
  unfolding send
  IsDenied-send request url denied = rw denied (IsDenied-http_error "http_policy_denied" refl)

  IsDenied-request :
      (o : Option HttpRequest)
      → permits h allow_http o ≡ false
      → IsDenied
          (execute_request h allow_http tick c o)
          (execute_request (record h { fetch = fetch }) allow_http tick c o)
  unfolding execute_request
  IsDenied-request none denied = IsDenied-http_error "invalid_http_request" refl
  IsDenied-request (some request) denied =
      IsDenied-if (is_blank request.method) _ _ _ (IsDenied-http_error "invalid_http_request" refl)
        (by_url (h.new_request request) denied)
    where
      by_url :
          (o : Option (Option Url))
          → (let b : Bool = elim o [ none ↦ false | some url ↦ check_http_url allow_http url ] in b)
            ≡ false
          → IsDenied
              (elim o [
                | none ↦ http_error "invalid_http_request"
                | some url ↦ send h allow_http tick c request url
              ])
              (elim o [
                | none ↦ http_error "invalid_http_request"
                | some url ↦ send (record h { fetch = fetch }) allow_http tick c request url
              ])
      by_url none denied = IsDenied-http_error "invalid_http_request" refl
      by_url (some url) denied = IsDenied-send request url denied

-- Unless the payload decodes to a request for a URL that checkHTTPURL lets pass, the result of
-- executeHTTP is the same for every client, has an error and has no status code.
pub execute_http-IsDenied :
    (h : HttpStack)
    (fetch : ℕ → Context → HttpRequest → Bool → (Option Url → ℕ → Option Problem) → Fetched)
    (allow_http : Bool) (tick : ℕ) (c : Context) (payload : String)
    → permits h allow_http (h.decode_request payload) ≡ false
    → IsDenied
        (execute_http h allow_http tick c payload)
        (execute_http (record h { fetch = fetch }) allow_http tick c payload)
unfolding execute_http
execute_http-IsDenied h fetch allow_http tick c payload denied =
    IsDenied-if (not allow_http) _ _ _ (IsDenied-http_error "http_disabled" refl)
      (IsDenied-request h fetch allow_http tick c (h.decode_request payload) denied)
