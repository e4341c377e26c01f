-- ===== src/Api/Request.antt =====
-- `request` and `requestAuth` of api/client.ts. The session's token is passed in and returned; the
-- network is the parameter `fetch`, which answers a request or rejects. An abort signal makes
-- `fetch` reject and has no other effect here.
pub mod Laws
use adms_server.Common.{
  ℕ, String, ◌≡◌, refl, ◌⊎◌, inl, inr, Bool, ◌&&◌, Option, none, some, List, [], ◌∷◌, str_eq, leb,
  ◌==◌, if◌then◌else◌, get_or, truthy,
}
use adms_server.Common.Text.{of_ℕ, ◌+++◌}
use adms_server.Api.Json.{
  Json, null, bool, num, str, arr, obj, member, member?, is_truthy, to_text, is_text,
}

-- What an asynchronous call throws.
pub data JsError : Type 0 where
  -- `ApiClientError`: status, code, message
  client_error : ℕ → Json → String → JsError
  -- `UnauthorizedError`
  unauthorized : JsError
  -- any other error, with its message
  other : String → JsError

pub data Result {ℓ} (A : Type ℓ) : Type ℓ where
  ok : A → Result A
  thrown : JsError → Result A

pub result_cases :
    {A : Type 0} (r : Result A) → ((a : A) × (r ≡ ok a)) ⊎ ((e : JsError) × (r ≡ thrown e))
result_cases (ok a) = inl (a, refl)
result_cases (thrown e) = inr (e, refl)

-- What the browser's own asynchronous operations give: a value, or an error with its message.
pub data Outcome {ℓ} (A : Type ℓ) : Type ℓ where
  done : A → Outcome A
  failed : String → Outcome A

pub record HttpRequest : Type 0 where
  pub url : String
  pub method : Option String
  pub headers : List (String × String)
  pub body : Option Json

-- `json` and `blob` are what reading the body gives.
pub record Response : Type 0 where
  pub status : ℕ
  pub status_text : String
  pub json : Outcome Json
  pub blob : Outcome (List ℕ)

-- The parts of `RequestInit` that the calls give; a body is the value given to `JSON.stringify`.
pub record RequestInit : Type 0 where
  pub method : Option String
  pub headers : List (String × String)
  pub body : Option Json

-- What a call resolves to: `undefined`, or a value that was parsed.
pub data Reply : Type 0 where
  undefined : Reply
  value : Json → Reply

abbrev pub Fetch : Type 0
Fetch = HttpRequest → Outcome Response

-- `import.meta.env.VITE_API_BASE_URL ?? …`
abbrev base_url : Option String → String
base_url env = get_or env "http://192.168.1.248:8081"

-- `headers[k] = v`
abbrev set_header : String → String → List (String × String) → List (String × String)
set_header k v [] = (k, v) ∷ []
set_header k v ((j, w) ∷ hs) =
    let rest = set_header k v hs in if str_eq j k then (j, v) ∷ hs else (j, w) ∷ rest

abbrev pub header : String → List (String × String) → Option String
header k [] = none
header k ((j, w) ∷ hs) = let rest = header k hs in if str_eq j k then some w else rest

abbrev spread : List (String × String) → List (String × String) → List (String × String)
spread hs [] = hs
spread hs ((k, v) ∷ more) = spread (set_header k v hs) more

abbrev init_headers : Option RequestInit → List (String × String)
init_headers none = []
init_headers (some i) = i.headers

abbrev pub init_method : Option RequestInit → Option String
init_method none = none
init_method (some i) = i.method

abbrev pub init_body : Option RequestInit → Option Json
init_body none = none
init_body (some i) = i.body

-- `{ Accept: "application/json", ...init?.headers }`
abbrev pub base_headers : Option RequestInit → List (String × String)
base_headers init = spread (("Accept", "application/json") ∷ []) (init_headers init)

-- `if (token) headers.Authorization = …`
abbrev pub authorize : Option String → List (String × String) → List (String × String)
authorize token hs =
    if truthy (get_or token "")
    then set_header "Authorization" ("Bearer " +++ get_or token "") hs
    else hs

-- `res.ok`
abbrev pub is_ok : Response → Bool
is_ok res = leb 200 res.status && leb res.status 299

-- `super(message)`: `undefined` is the empty message.
abbrev pub message_text : Option Json → String
message_text none = ""
message_text (some v) = to_text v

-- The code and the message of an error body, over the defaults; `none` is a body that is no JSON.
abbrev pub envelope_error : Response → Option Json → Option Json → JsError
envelope_error res none message =
    client_error res.status (str ("HTTP_" +++ of_ℕ res.status)) res.status_text
envelope_error res (some code) message =
    if is_truthy code
    then client_error res.status code (message_text message)
    else client_error res.status (str ("HTTP_" +++ of_ℕ res.status)) res.status_text

-- What is thrown for a response that is not ok.
abbrev pub parsed_error : Response → Outcome Json → JsError
parsed_error res (done body) =
    envelope_error res (member? "code" (member "error" body))
      (member? "message" (member "error" body))
parsed_error res (failed m) =
    client_error res.status (str ("HTTP_" +++ of_ℕ res.status)) res.status_text

unfoldable pub response_error : Response → JsError
response_error res = parsed_error res res.json

abbrev pub parsed : Outcome Json → Result Reply
parsed (done v) = ok (value v)
parsed (failed m) = thrown (other m)

unfoldable pub request_of :
    String → List (String × String) → String → Option RequestInit → HttpRequest
request_of base headers path init = record {
  url = base +++ path;
  method = init_method init;
  headers = headers;
  body = init_body init;
}

unfoldable pub handle : Option String → Response → Option String × Result Reply
unfolding response_error
handle token res =
    if res.status == 401
    then (none, thrown unauthorized)
    else if is_ok res
    then (if res.status == 204 then (token, ok undefined) else (token, parsed res.json))
    else (token, thrown (response_error res))

abbrev pub settle : Option String → Outcome Response → Option String × Result Reply
settle token (done res) = handle token res
settle token (failed m) = (token, thrown (other m))

-- `request(path, signal, init)`: the token afterwards and what the promise settles to.
unfoldable pub request :
    String → Fetch → String → Option RequestInit → Option String → Option String × Result Reply
unfolding handle
request base fetch path init token =
    settle token (fetch (request_of base (authorize token (base_headers init)) path init))

abbrev pub settle_auth : Outcome Response → Result Reply
settle_auth (done res) = if is_ok res then parsed res.json else thrown (response_error res)
settle_auth (failed m) = thrown (other m)

-- `requestAuth(path, init)`: neither reads nor clears the token.
unfoldable pub request_auth : String → Fetch → String → Option RequestInit → Result Reply
unfolding response_error
request_auth base fetch path init =
    settle_auth (fetch (request_of base (base_headers init) path init))
