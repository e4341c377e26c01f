-- ===== src/Api/Tests.antt =====
-- The client against a server with three answers.
use text.Mathlib.TextLemmas.{nil-append, cons-append}
use adms_server.Common.{
  ℕ, String, true, none, some, List, [], ◌∷◌, ◌≡◌, refl, ◌≢◌, ◌↔◌, truthy, if◌then◌else◌, str_eq,
}
use adms_server.Common.Text.{of_ℕ, ◌+++◌}
use adms_server.Api.Json.{Json, str, obj, end, field, num, to_text}
use adms_server.Api.Query.{Params, word, number, qs}
use adms_server.Api.Request.{
  client_error, unauthorized, ok, thrown, value, Outcome, done, failed, Response, Fetch, request,
  response_error,
}
use adms_server.Api.Request.Laws.{
  sent, IsSuccess, Reads, Carries, body_error, default_error, response_error_lem,
  request-unauthorized_iff, request-ok_iff,
}
use adms_server.Api.Calls.{ApiCall, enrollment_call}
use adms_server.Api.Calls.Base.{Platform}
use adms_server.Api.Calls.Enrollments.{cancel_enrollment}

-- A writer of pairs, without percent-encoding.
abbrev encode : List (String × String) → String
encode [] = ""
encode ((k, v) ∷ ps) =
    let rest = encode ps in k +++ "=" +++ v +++ (if truthy rest then "&" +++ rest else "")

abbrev platform : Platform
platform = record { encode = encode; encode_uri_component = λ s. s }

encode-truthy :
    (p : String × String) (ps : List (String × String)) → truthy (encode (p ∷ ps)) ≡ true
encode-truthy (String.[], v) ps = rw (nil-append, cons-append) refl
encode-truthy (String.◌∷◌ c k, v) ps = rw cons-append refl

abbrev params : Params
params = ("limit", some (number 5)) ∷ ("cursor", none) ∷ ("search", some (word "Ann")) ∷ []

params_text : qs encode params ≡ "?limit=5&search=Ann"
unfolding qs of_ℕ
params_text = refl

abbrev conflict_body : Json
conflict_body = obj (
    field "error"
      (obj (field "code" (str "ENROLLMENT_CONFLICT") (field "message" (str "taken") end))) end)

abbrev answer : ℕ → Outcome Json → Response
answer status json = record {
  status = status;
  status_text = "text";
  json = json;
  blob = failed "no blob";
}

-- 401 for the path of the session, a conflict for that of the reservation, and success for the rest.
abbrev server : Fetch
server r =
    if str_eq r.url "http://s/me"
    then done (answer 401 (failed "no JSON"))
    else if str_eq r.url "http://s/reserve"
    then done (answer 409 (done conflict_body))
    else done (answer 200 (done (num 7)))

response_error_lem_example :
    ((body code : Json)
      → Carries (answer 409 (done conflict_body)) body code
      → response_error (answer 409 (done conflict_body))
        ≡ body_error (answer 409 (done conflict_body)) body code)
    × (((body code : Json) → ¬ Carries (answer 409 (done conflict_body)) body code)
        → response_error (answer 409 (done conflict_body))
          ≡ default_error (answer 409 (done conflict_body)))
response_error_lem_example = response_error_lem (answer 409 (done conflict_body))

conflict_told :
    response_error (answer 409 (done conflict_body))
    ≡ client_error 409 (str "ENROLLMENT_CONFLICT") "taken"
unfolding response_error to_text
conflict_told = refl

request-unauthorized_iff_example :
    (((request "http://s" server "/me" none (some "t")).1 ≡ thrown unauthorized) ↔ (
      (res : Response) × (server (sent "http://s" "/me" none (some "t")) ≡ done res)
      × (res.status ≡ 401)))
    × ((request "http://s" server "/me" none (some "t")).1 ≡ thrown unauthorized
        → (request "http://s" server "/me" none (some "t")).0 ≡ none)
    × ((request "http://s" server "/me" none (some "t")).1 ≢ thrown unauthorized
        → (request "http://s" server "/me" none (some "t")).0 ≡ some "t")
request-unauthorized_iff_example = request-unauthorized_iff "http://s" server "/me" none (some "t")

request-ok_iff_example : ((request "http://s" server "/count" none none).1 ≡ ok (value (num 7))) ↔ (
    (res : Response) × (server (sent "http://s" "/count" none none) ≡ done res)
    × IsSuccess res.status
    × Reads res (value (num 7)))
request-ok_iff_example = request-ok_iff "http://s" server "/count" none none (value (num 7))

abbrev cancel_call : ApiCall
cancel_call = enrollment_call (cancel_enrollment 4 "ann" "wrong person")
