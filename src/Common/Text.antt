-- ===== src/Common/Text.antt =====
-- Texts as JavaScript treats them. A text is a list of characters; `length` counts UTF-16 code
-- units, as `.length` does, and a character outside the basic plane counts as two.
pub mod Trim
pub mod Length
use Prim.Native.Nat.{ℕ, zero, suc, ◌+◌, ◌/◌, ◌%◌}
use Prim.Native.Char.{Char, code}
use Prim.Native.String.{String, [], ◌∷◌, char_at}
use Prim.Native.String as Str
use mathlib.Core.Bool.{Bool, true, false, ◌&&◌, ◌||◌}
use adms_server.Common.Tests.{ltb, leb, ◌==◌, if◌then◌else◌, truthy}

-- `s + t`, and the places of a template
infixr 65 ◌+++◌
abbrev pub ◌+++◌ : String → String → String
s +++ t = Str.◌++◌ s t

abbrev units : Char → ℕ
units c = if ltb (code c) 0x10000 then 1 else 2

-- `s.length`
unfoldable pub length : String → ℕ
length [] = 0
length (c ∷ s) = units c + length s

-- The white space and line ends that `trim` strips.
unfoldable pub is_space : Char → Bool
is_space c =
    let n = code c in
    (leb 9 n && leb n 13)
    || n == 32
    || n == 160
    || n == 0x1680
    || (leb 0x2000 n && leb n 0x200a)
    || n == 0x2028
    || n == 0x2029
    || n == 0x202f
    || n == 0x205f
    || n == 0x3000
    || n == 0xfeff

unfoldable pub trim_start : String → String
trim_start [] = []
trim_start (c ∷ s) = let rest = trim_start s in if is_space c then rest else c ∷ s

unfoldable pub trim_end : String → String
trim_end [] = []
trim_end (c ∷ s) =
    let rest = trim_end s in if is_space c then (if truthy rest then c ∷ rest else []) else c ∷ rest

-- `s.trim()`
unfoldable pub trim : String → String
unfolding trim_start trim_end is_space
trim s = trim_end (trim_start s)

abbrev pub begins_with : String → String → Bool
begins_with s [] = true
begins_with [] (d ∷ t) = false
begins_with (c ∷ s) (d ∷ t) = code c == code d && begins_with s t

-- `s.includes(t)`
unfoldable pub includes : String → String → Bool
includes [] t = begins_with [] t
includes (c ∷ s) t = begins_with (c ∷ s) t || includes s t

abbrev drop_text : String → String → String
drop_text [] s = s
drop_text (d ∷ t) [] = []
drop_text (d ∷ t) (c ∷ s) = drop_text t s

-- `s.replace(t, r)`, for a text `r` without the sign $: the first place where `t` stands is replaced.
unfoldable pub replace : String → String → String → String
replace [] t r = if truthy t then [] else r
replace (c ∷ s) t r =
    let rest = replace s t r in
    if begins_with (c ∷ s) t then r +++ drop_text t (c ∷ s) else c ∷ rest

digit : ℕ → Char
digit n = char_at "0123456789" (n % 10)

digits : ℕ → ℕ → String → String
digits zero n out = out
digits (suc f) n out =
    let longer = digits f (n / 10) (digit n ∷ out) in if ltb n 10 then digit n ∷ out else longer

-- `String(n)` at a natural number: at most n + 1 digits are written.
unfoldable pub of_ℕ : ℕ → String
unfolding digits digit
of_ℕ n = digits (suc n) n ""
