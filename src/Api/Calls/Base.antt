-- ===== src/Api/Calls/Base.antt =====
-- The shapes that the calls of the `api` object in api/client.ts are built from.
use adms_server.Common.{String, Bool, true, Option, none, some, List, [], ◌∷◌}
use adms_server.Api.Json.{Json}
use adms_server.Api.Request.{RequestInit}

-- A call: whether it goes through `request` (else through `requestAuth`), and its arguments.
pub record Endpoint : Type 0 where
  pub authenticated : Bool
  pub path : String
  pub init : Option RequestInit

-- What the browser writes for a query string and for a part of a URL.
pub record Platform : Type 0 where
  pub encode : List (String × String) → String
  pub encode_uri_component : String → String

-- `request(path, signal)`
abbrev pub get : String → Endpoint
get path = record { authenticated = true; path = path; init = none }

-- `request(path, undefined, { method })`
abbrev pub send : String → String → Endpoint
send method path = record {
  authenticated = true;
  path = path;
  init = some (record { method = some method; headers = []; body = none });
}

-- The init of a call with a JSON body.
abbrev pub json_init : String → Json → RequestInit
json_init method body = record {
  method = some method;
  headers = ("Content-Type", "application/json") ∷ [];
  body = some body;
}

-- `request(path, undefined, { method, headers, body: JSON.stringify(body) })`
abbrev pub send_json : String → String → Json → Endpoint
send_json method path body = record {
  authenticated = true;
  path = path;
  init = some (json_init method body);
}
