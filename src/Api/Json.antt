-- ===== src/Api/Json.antt =====
-- The JSON values that the client sends and receives. A number is a natural number: no other occurs
-- in the fields that the frontend reads or writes.
pub mod Members
use adms_server.Common.{
  str_eq, ℕ, String, Bool, true, false, Option, none, some, List, [], ◌∷◌, if◌then◌else◌, truthy,
  not, ◌==◌,
}
use adms_server.Common.Text.{of_ℕ, ◌+++◌}

mutual
  pub data Json : Type 0 where
    null : Json
    bool : Bool → Json
    num : ℕ → Json
    str : String → Json
    arr : Items → Json
    obj : Fields → Json

  pub data Items : Type 0 where
    nil : Items
    cons : Json → Items → Items

  pub data Fields : Type 0 where
    end : Fields
    field : String → Json → Fields → Fields

abbrev find_field : String → Fields → Option Json
find_field k end = none
find_field k (field j v fs) = let rest = find_field k fs in if str_eq j k then some v else rest

-- `v?.k`: `undefined` at everything that is not an object with that member.
abbrev pub member : String → Json → Option Json
member k (obj fs) = find_field k fs
member k null = none
member k (bool b) = none
member k (num n) = none
member k (str s) = none
member k (arr xs) = none

-- `u?.k` where `u` may be `undefined`
abbrev pub member? : String → Option Json → Option Json
member? k none = none
member? k (some v) = member k v

-- Whether a value is truthy.
abbrev pub is_truthy : Json → Bool
is_truthy null = false
is_truthy (bool b) = b
is_truthy (num n) = not (n == 0)
is_truthy (str s) = truthy s
is_truthy (arr xs) = true
is_truthy (obj fs) = true

-- `v ?? d`
abbrev pub coalesce : Option Json → Json → Json
coalesce none d = d
coalesce (some null) d = d
coalesce (some (bool b)) d = bool b
coalesce (some (num n)) d = num n
coalesce (some (str s)) d = str s
coalesce (some (arr xs)) d = arr xs
coalesce (some (obj fs)) d = obj fs

-- `v === "k"`
abbrev pub is_text : Json → String → Bool
is_text (str s) k = str_eq s k
is_text null k = false
is_text (bool b) k = false
is_text (num n) k = false
is_text (arr xs) k = false
is_text (obj fs) k = false

-- `String(v)`; in an array `null` is written as nothing, and the items are joined by commas.
unfoldable mutual
  pub to_text : Json → String
  to_text null = "null"
  to_text (bool true) = "true"
  to_text (bool false) = "false"
  to_text (num n) = of_ℕ n
  to_text (str s) = s
  to_text (arr xs) = join xs
  to_text (obj fs) = "[object Object]"

  pub item_text : Json → String
  item_text null = ""
  item_text (bool true) = "true"
  item_text (bool false) = "false"
  item_text (num n) = of_ℕ n
  item_text (str s) = s
  item_text (arr xs) = join xs
  item_text (obj fs) = "[object Object]"

  pub join : Items → String
  join nil = ""
  join (cons v nil) = item_text v
  join (cons v (cons w xs)) = item_text v +++ "," +++ join (cons w xs)

abbrev pub text_items : List String → Items
text_items [] = nil
text_items (s ∷ ss) = cons (str s) (text_items ss)

abbrev fields_of : List (String × Option Json) → Fields
fields_of [] = end
fields_of ((k, none) ∷ ms) = fields_of ms
fields_of ((k, some v) ∷ ms) = field k v (fields_of ms)

-- An object literal as `JSON.stringify` writes it: a member that is `undefined` is left out.
abbrev pub object : List (String × Option Json) → Json
object ms = obj (fields_of ms)

-- A text or `null`.
abbrev pub nullable : Option String → Json
nullable none = null
nullable (some s) = str s
