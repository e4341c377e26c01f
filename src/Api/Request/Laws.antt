-- ===== src/Api/Request/Laws.antt =====
-- What a call does on every answer of the network.
use adms_server.Common.{
  ℕ, String, true, false, Option, none, some, ◌≡◌, refl, ◌≢◌, ◌↔◌, ◌⊎◌, inl, inr, sym, ap, ◌∙◌,
  subst, ◌≤◌, arith, Bool-cases,
}
use adms_server.Common.Text.{of_ℕ, ◌+++◌}
use adms_server.Api.Json.{Json, str, member, member?, is_truthy}
use adms_server.Api.Request.{
  JsError, client_error, unauthorized, ok, thrown, Outcome, done, failed, HttpRequest, Response,
  RequestInit, Reply, undefined, value, Fetch, authorize, base_headers, request_of, handle,
  response_error, envelope_error, parsed_error, message_text, parsed, is_ok, request, request_auth,
  settle, settle_auth,
}

-- The request that `request` makes.
abbrev pub sent : String → String → Option RequestInit → Option String → HttpRequest
sent base path init token = request_of base (authorize token (base_headers init)) path init

abbrev pub IsSuccess : ℕ → Type 0
IsSuccess status = (200 ≤ status) × (status ≤ 299)

-- What a successful response is read as: nothing if it has no content, and else its JSON.
abbrev pub Reads : Response → Reply → Type 0
Reads res v =
    ((res.status ≡ 204) × (v ≡ undefined))
    ⊎ ((res.status ≢ 204) × ((j : Json) × (res.json ≡ done j) × (v ≡ value j)))

-- The error code that the body of a response carries.
abbrev pub Carries : Response → Json → Json → Type 0
Carries res body code =
    (res.json ≡ done body)
    × (member? "code" (member "error" body) ≡ some code)
    × (is_truthy code ≡ true)

parsed-eq-ok_iff :
    (o : Outcome Json) (v : Reply) → (parsed o ≡ ok v) ↔ ((j : Json) × (o ≡ done j) × (v ≡ value j))
parsed-eq-ok_iff (done j) v = (λ e. (j, refl, cc), λ h. cc (h.1, h.2))
parsed-eq-ok_iff (failed m) v = (λ e. cc, λ h. cc (h.1))

parsed-ne-unauthorized : (o : Outcome Json) → parsed o ≢ thrown unauthorized
parsed-ne-unauthorized (done j) = λ e. cc
parsed-ne-unauthorized (failed m) = λ e. cc

-- The default of an error response.
abbrev pub default_error : Response → JsError
default_error res = client_error res.status (str ("HTTP_" +++ of_ℕ res.status)) res.status_text

-- The error with the code and message of a body.
abbrev pub body_error : Response → Json → Json → JsError
body_error res body code =
    client_error res.status code (message_text (member? "message" (member "error" body)))

envelope_error-cases :
    (res : Response) (code message : Option Json)
    → ((c : Json) × (code ≡ some c)
        × (is_truthy c ≡ true)
        × (envelope_error res code message ≡ client_error res.status c (message_text message)))
      ⊎ (envelope_error res code message ≡ default_error res)
envelope_error-cases res none message = inr refl
envelope_error-cases res (some c) message = elim (Bool-cases (is_truthy c)) [
  | inl e ↦ inl (c, refl, e, rw e refl)
  | inr e ↦ inr (rw e refl)
]

parsed_error-cases :
    (res : Response) (o : Outcome Json)
    → res.json ≡ o
    → ((body : Json) × (code : Json) × Carries res body code
        × (parsed_error res o ≡ body_error res body code))
      ⊎ (parsed_error res o ≡ default_error res)
parsed_error-cases res (failed m) e = inr refl
parsed_error-cases res (done body) e =
    elim (envelope_error-cases res (member? "code" (member "error" body))
      (member? "message" (member "error" body))) [
        | inl (c, coded, truth, same) ↦ inl (body, c, (e, coded, truth), same)
        | inr same ↦ inr same
      ]

response_error-cases :
    (res : Response)
    → ((body : Json) × (code : Json) × Carries res body code
        × (response_error res ≡ body_error res body code))
      ⊎ (response_error res ≡ default_error res)
unfolding response_error
response_error-cases res = parsed_error-cases res res.json refl

response_error_of_Carries :
    (res : Response) (body code : Json)
    → Carries res body code
    → response_error res ≡ body_error res body code
unfolding response_error
response_error_of_Carries res body code (is_json, coded, truth) = rw (is_json, coded, truth) refl

-- An error response is reported with its status, and with the code and message of its body exactly
-- if the body is JSON with a truthy `error.code`; else with the code HTTP_ and the status, and with
-- the status text.
pub response_error_lem :
    (res : Response)
    → ((body code : Json) → Carries res body code → response_error res ≡ body_error res body code)
      × (((body code : Json) → ¬ Carries res body code) → response_error res ≡ default_error res)
response_error_lem res = (
  response_error_of_Carries res,
  λ h. elim (response_error-cases res) [
    | inl (body, code, carries, same) ↦ absurd (h body code carries)
    | inr same ↦ same
  ],
)

response_error-ne-unauthorized : (res : Response) → response_error res ≢ unauthorized
response_error-ne-unauthorized res e = elim (response_error-cases res) [
  | inl (_, _, _, same) ↦ cc
  | inr same ↦ cc
]

handle-unauthorized_iff :
    (token : Option String) (res : Response)
    → ((handle token res).1 ≡ thrown unauthorized) ↔ (res.status ≡ 401)
unfolding handle
handle-unauthorized_iff token res =
    ground (arith, response_error-ne-unauthorized res, parsed-ne-unauthorized res.json)

handle-token :
    (token : Option String) (res : Response)
    → (res.status ≡ 401 → (handle token res).0 ≡ none)
      × (res.status ≢ 401 → (handle token res).0 ≡ token)
unfolding handle
handle-token token res = (λ h. ground arith, λ h. ground arith)

handle-ok_iff :
    (token : Option String) (res : Response) (v : Reply)
    → ((handle token res).1 ≡ ok v) ↔ (IsSuccess res.status × Reads res v)
unfolding handle
handle-ok_iff token res v =
    let (to, from) = parsed-eq-ok_iff res.json v in (λ e. ground arith, λ h. ground arith)

done-injective : {a b : Response} → ◌≡◌ {A = Outcome Response} (done a) (done b) → a ≡ b
done-injective e = cc

is_ok_of_failure : (res : Response) → ¬ IsSuccess res.status → is_ok res ≡ false
is_ok_of_failure res h = ground arith

settle_auth-ne-unauthorized : (a : Outcome Response) → settle_auth a ≢ thrown unauthorized
settle_auth-ne-unauthorized (failed m) = λ e. cc
settle_auth-ne-unauthorized (done res) =
    ground (arith, response_error-ne-unauthorized res, parsed-ne-unauthorized res.json)

module _ (base : String) (fetch : Fetch) (path : String) (init : Option RequestInit) where
  module _ (token : Option String) where
    -- `request` throws the error for a missing login exactly when the server answers 401; then the
    -- token is forgotten, and in every other case it is as before.
    pub request-unauthorized_iff :
        (((request base fetch path init token).1 ≡ thrown unauthorized) ↔ (
          (res : Response) × (fetch (sent base path init token) ≡ done res) × (res.status ≡ 401)))
        × ((request base fetch path init token).1 ≡ thrown unauthorized
            → (request base fetch path init token).0 ≡ none)
        × ((request base fetch path init token).1 ≢ thrown unauthorized
            → (request base fetch path init token).0 ≡ token)
    unfolding request
    request-unauthorized_iff = go (fetch (sent base path init token))
      where
        go :
            (a : Outcome Response)
            → (((settle token a).1 ≡ thrown unauthorized)
                ↔ ((res : Response) × (a ≡ done res) × (res.status ≡ 401)))
              × ((settle token a).1 ≡ thrown unauthorized → (settle token a).0 ≡ none)
              × ((settle token a).1 ≢ thrown unauthorized → (settle token a).0 ≡ token)
        go (failed m) = ((λ e. cc, λ h. cc (h.1)), λ e. cc, λ e. refl)
        go (done res) =
            let (to, from) = handle-unauthorized_iff token res in
            let (cleared, kept) = handle-token token res in
            (
              (
                λ e. (res, refl, to e),
                λ h. from (ap (λ (r : Response). r.status) (done-injective h.1) ∙ h.2),
              ),
              λ e. cleared (to e),
              λ e. kept (λ h. e (from h)),
            )

    -- `request` succeeds exactly when the server answers with a status from 200 to 299 and the
    -- answer can be read; the result is then nothing for status 204, and else the parsed body.
    pub request-ok_iff :
        (v : Reply)
        → ((request base fetch path init token).1 ≡ ok v) ↔ (
            (res : Response) × (fetch (sent base path init token) ≡ done res)
            × IsSuccess res.status
            × Reads res v)
    unfolding request
    request-ok_iff v = go (fetch (sent base path init token))
      where
        go :
            (a : Outcome Response)
            → ((settle token a).1 ≡ ok v)
              ↔ ((res : Response) × (a ≡ done res) × IsSuccess res.status × Reads res v)
        go (failed m) = (λ e. cc, λ h. cc (h.1))
        go (done res) =
            let (to, from) = handle-ok_iff token res v in
            (
              λ e. let (s, r) = to e in (res, refl, s, r),
              λ h. from (
                  subst (λ (r : Response). IsSuccess r.status × Reads r v)
                    (sym (done-injective h.1)) (h.2, h.3)),
            )

  -- `requestAuth` never throws the error for a missing login: a 401 is reported as the error that
  -- its response carries, as is every other status outside 200 to 299.
  pub request_auth_error :
      ((res : Response)
        → fetch (request_of base (base_headers init) path init) ≡ done res
        → ¬ IsSuccess res.status
        → request_auth base fetch path init ≡ thrown (response_error res))
      × (request_auth base fetch path init ≢ thrown unauthorized)
  unfolding request_auth
  request_auth_error = (
    λ res e failure. rw (e, is_ok_of_failure res failure) refl,
    settle_auth-ne-unauthorized (fetch (request_of base (base_headers init) path init)),
  )
