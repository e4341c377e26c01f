-- ===== src/Api/Query.antt =====
-- The query string of a call (`qs`). The browser's `URLSearchParams` writes its pairs as text: that
-- is the parameter `encode`.
pub mod Laws
use adms_server.Common.{
  str_eq, ℕ, String, Bool, true, false, Option, none, some, List, [], ◌∷◌, if◌then◌else◌, truthy,
}
use adms_server.Common.Text.{of_ℕ, ◌+++◌}

-- A parameter's value; an absent one is `undefined` or `null`.
pub data QueryValue : Type 0 where
  word : String → QueryValue
  number : ℕ → QueryValue
  flag : Bool → QueryValue

-- `String(v)`
abbrev pub value_text : QueryValue → String
value_text (word s) = s
value_text (number n) = of_ℕ n
value_text (flag true) = "true"
value_text (flag false) = "false"

abbrev pub Params : Type 0
Params = List (String × Option QueryValue)

-- `q.set(k, v)`: the value of a name that is there already is replaced.
abbrev pub set : String → String → List (String × String) → List (String × String)
set k v [] = (k, v) ∷ []
set k v ((j, w) ∷ q) = let rest = set k v q in if str_eq j k then (j, v) ∷ q else (j, w) ∷ rest

-- The loop of `qs`.
unfoldable pub collect : List (String × String) → Params → List (String × String)
collect q [] = q
collect q ((k, none) ∷ ps) = collect q ps
collect q ((k, some v) ∷ ps) = collect (set k (value_text v) q) ps

-- `s ? "?" + s : ""`
abbrev question : String → String
question s = if truthy s then "?" +++ s else ""

unfoldable pub qs : (List (String × String) → String) → Params → String
unfolding collect
qs encode params = question (encode (collect [] params))
