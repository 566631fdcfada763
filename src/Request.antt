-- ===== src/Request.antt =====
-- The requests of the client: class `Request` (web/client/src/common/request/Request.js) over
-- axios, and its interceptors (web/client/src/common/request/HttpRequest.js).
--
-- axios and the browser are parameters: `transport` gives what axios's adapter settles a request
-- with. A response's `data` is the parsed body, `none` for null.
pub mod Laws
use gonitor.Prelude.{
  ℕ, ◌*◌, Bool, true, false, Option, none, some, List, [], ◌∷◌, String, if◌then◌else◌, ◌==◌, nat_eq,
  string_eq,
}
use gonitor.Prelude.Int.{ℤ}

-- A template literal, as its parts
pub data Piece : Type 0 where
  text : String → Piece
  num : ℤ → Piece

abbrev pub Url : Type 0
Url = List Piece

pub data Method : Type 0 where
  get put post delete : Method

-- The body of an answer of the server
pub record Body (A : Type 0) : Type 0 where
  pub code : ℕ
  pub message : String
  pub content : Option A

-- A rejection, with its `message`
pub record Failure : Type 0 where
  pub message : String

pub data Settled (A : Type 0) : Type 0 where
  resolved : A → Settled A
  rejected : Failure → Settled A

-- The configuration of a request, with the header `Token`
pub record Config (P : Type 0) : Type 0 where
  pub method : Method
  pub url : Url
  pub payload : Option P
  pub token : Option String

-- What the chain of interceptors resolves with: a response, or an error that the interceptor for
-- rejections has returned
pub data Passed (A : Type 0) : Type 0 where
  response : Option (Body A) → Passed A
  error : Failure → Passed A

-- What a request leaves: how its promise settles, and whether the page goes to '/'
pub record Outcome (A : Type 0) : Type 0 where
  pub settled : Settled (Option (Body A))
  pub redirected : Bool

-- `requestInterceptors`
unfoldable pub request_interceptors : {P : Type 0} → Option String → Config P → Config P
request_interceptors stored config = record config { token = stored }

module _ {A : Type 0} where
  -- `responseInterceptors`; `res.data.code` throws where `data` is null: `null_error` is this
  -- TypeError, about the properties of null
  unfoldable pub response_interceptors : Failure → Option (Body A) → Settled (Passed A)
  response_interceptors null_error none = rejected null_error
  response_interceptors null_error (some body) = resolved (response (some body))

  -- The assignment to `window.location.href`
  unfoldable pub redirects : Option (Body A) → Bool
  redirects none = false
  redirects (some body) = body.code == 100001

  -- `responseInterceptorsCatch` returns the error, which resolves the promise
  unfoldable pub response_interceptors_catch : Failure → Settled (Passed A)
  response_interceptors_catch err = resolved (error err)

  -- `instance.interceptors.response.use(...)`
  unfoldable pub intercept_response : Failure → Settled (Option (Body A)) → Settled (Passed A)
  unfolding response_interceptors response_interceptors_catch
  intercept_response null_error (resolved d) = response_interceptors null_error d
  intercept_response null_error (rejected err) = response_interceptors_catch err

  -- `res.data`: an error has no such field
  abbrev pub data_of : Passed A → Option (Body A)
  data_of (response d) = d
  data_of (error err) = none

  -- `.then(res => resolve(res.data)).catch(err => reject(err))`
  unfoldable pub unwrap : Settled (Passed A) → Settled (Option (Body A))
  unwrap (resolved res) = resolved (data_of res)
  unwrap (rejected err) = rejected err

  unfoldable pub redirects_after : Settled (Option (Body A)) → Bool
  unfolding redirects
  redirects_after (resolved d) = redirects d
  redirects_after (rejected err) = false

module _ {P A : Type 0} (null_error : Failure) (stored : Option String)
    (transport : Config P → Settled (Option (Body A))) where
  -- A request through the two interceptors of `httpRequest`
  unfoldable pub perform : Config P → Outcome A
  unfolding request_interceptors intercept_response unwrap redirects_after
  perform config =
      let answer = transport (request_interceptors stored config) in
      record {
        settled = unwrap (intercept_response null_error answer);
        redirected = redirects_after answer;
      }

  -- The four methods of class `Request`
  unfoldable pub delete_request : Url → Outcome A
  unfolding perform
  delete_request url =
      perform (record { method = Method.delete; url = url; payload = none; token = none })

  unfoldable pub put_request : Url → P → Outcome A
  unfolding perform
  put_request url config =
      perform (record { method = Method.put; url = url; payload = some config; token = none })

  unfoldable pub get_request : Url → Outcome A
  unfolding perform
  get_request url =
      perform (record { method = Method.get; url = url; payload = none; token = none })

  unfoldable pub post_request : Url → P → Outcome A
  unfolding perform
  post_request url content =
      perform (record { method = Method.post; url = url; payload = some content; token = none })

-- What a caller of the four methods gets to see: a body, or an exception. A promise
-- that resolves with undefined throws where the caller reads a field of it: `undefined_error` is
-- this TypeError, about the properties of undefined, which has another message than `null_error`.
pub data Reply (A : Type 0) : Type 0 where
  got : Body A → Reply A
  failed : Failure → Reply A

unfoldable pub reply : {A : Type 0} → Failure → Settled (Option (Body A)) → Reply A
reply undefined_error (resolved none) = failed undefined_error
reply undefined_error (resolved (some body)) = got body
reply undefined_error (rejected err) = failed err

-- `class Result`, which nothing constructs, with the defaults of its constructor
pub record Result (A : Type 0) : Type 0 where
  pub code : ℕ
  pub message : String
  pub content : Option A

abbrev pub or_default : {A : Type 0} → Option A → A → A
or_default none default = default
or_default (some given) default = given

unfoldable pub new_result : {A : Type 0} → Option ℕ → Option String → Option (Option A) → Result A
new_result code message content = record {
  code = or_default code 500021;
  message = or_default message "";
  content = or_default content none;
}

-- The configuration of `httpRequest`: where it sends, and its limit in milliseconds
unfoldable pub base_url : String → String
base_url node_env = if node_env == "development" then "http://127.0.0.1:8899" else ""

abbrev pub time_limit : ℕ
time_limit = 30 * 1000

-- What the method `request` does with the answer: it is logged, or the rejection has no handler
pub data Logged (A : Type 0) : Type 0 where
  logged : Passed A → Logged A
  unhandled : Failure → Logged A

abbrev pub logged_of : {A : Type 0} → Settled (Passed A) → Logged A
logged_of (resolved res) = logged res
logged_of (rejected err) = unhandled err

-- The method `request`, which resolves nothing for its caller
unfoldable pub request :
    {P A : Type 0}
    → Failure
    → Option String
    → (Config P → Settled (Option (Body A)))
    → Config P
    → Logged A
unfolding request_interceptors intercept_response
request null_error stored transport config =
    logged_of (intercept_response null_error (transport (request_interceptors stored config)))
