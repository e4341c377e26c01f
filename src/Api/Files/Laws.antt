-- ===== src/Api/Files/Laws.antt =====
-- How the errors of uploads compare with those of `request`.
use adms_server.Common.{String, true, some, ◌≡◌, refl, ◌≢◌}
use adms_server.Api.Json.{Json, null, member, member?, is_truthy, coalesce, to_text}
use adms_server.Api.Request.{done, failed, Response, response_error}
use adms_server.Api.Files.{upload_error}

coalesce_of_truthy : (v d : Json) → is_truthy v ≡ true → coalesce (some v) d ≡ v
coalesce_of_truthy null d h = cc
coalesce_of_truthy _ d h = refl

coalesce_of_ne_null : (v d : Json) → v ≢ null → coalesce (some v) d ≡ v
coalesce_of_ne_null null d h = absurd (h refl)
coalesce_of_ne_null _ d h = refl

-- An upload reports an error response exactly as `request` does, wherever the body carries a truthy
-- code and a message that is not null, or is no JSON.
upload_error-eq-response_error :
    (res : Response)
    → ((body code message : Json)
        → res.json ≡ done body
        → member? "code" (member "error" body) ≡ some code
        → is_truthy code ≡ true
        → member? "message" (member "error" body) ≡ some message
        → message ≢ null
        → upload_error res ≡ response_error res)
      × ((m : String) → res.json ≡ failed m → upload_error res ≡ response_error res)
unfolding upload_error response_error to_text
upload_error-eq-response_error res = (
  λ body code message is_json coded truth said some_text.
      rw
        (
          is_json,
          coded,
          said,
          coalesce_of_truthy code _ truth,
          coalesce_of_ne_null message _ some_text,
          truth,
        )
        refl,
  λ m broken. rw broken refl,
)
