-- ===== src/Api/Json/Members.antt =====
-- The members of an object literal.
use adms_server.Common.{
  String, ◌≡◌, refl, inl, inr, Bool, true, not, ◌&&◌, Option, none, some, List, [], ◌∷◌, arith,
  str_eq, eq_iff, if◌then◌else◌, Bool-cases, all,
}
use adms_server.Api.Json.{Json, member, object}

-- What an object literal gives for a key: the first entry decides.
abbrev pub lookup : String → List (String × Option Json) → Option Json
lookup k [] = none
lookup k ((j, v) ∷ ms) = let rest = lookup k ms in if str_eq j k then v else rest

-- Whether no key stands twice.
abbrev distinct_keys : List (String × Option Json) → Bool
distinct_keys [] = true
distinct_keys ((j, v) ∷ ms) = all (λ m. not (str_eq m.0 j)) ms && distinct_keys ms

lookup-fresh :
    (k : String) (ms : List (String × Option Json))
    → all (λ m. not (str_eq m.0 k)) ms ≡ true
    → lookup k ms ≡ none
lookup-fresh k [] h = refl
lookup-fresh k ((j, v) ∷ ms) h = ground (arith, lookup-fresh k ms)

-- Where the keys are distinct, a member is what its entry gives, and `undefined` is no member.
pub member-object :
    (k : String) (ms : List (String × Option Json))
    → distinct_keys ms ≡ true
    → member k (object ms) ≡ lookup k ms
member-object k [] h = refl
member-object k ((j, some v) ∷ ms) h = ground (arith, member-object k ms)
member-object k ((j, none) ∷ ms) h = elim (Bool-cases (str_eq j k)) [
  | inl e ↦
      let same : j ≡ k = (eq_iff j k).0 e in ground (arith, member-object k ms, lookup-fresh k ms)
  | inr e ↦ ground (arith, member-object k ms)
]
