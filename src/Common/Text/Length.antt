-- ===== src/Common/Text/Length.antt =====
-- The number of code units of a text.
use Prim.Native.Nat.{◌+◌, ◌<◌}
use Prim.Native.String.{String, [], ◌∷◌}
use text.Mathlib.TextLemmas.{nil-append, cons-append}
use mathlib.Core.Path.{◌≡◌, refl}
use mathlib.Core.Bool.{true}
use native.Mathlib.Omega.{arith}
use adms_server.Common.Tests.{truthy}
use adms_server.Common.Text.{length, ◌+++◌}

pub length-append : (s t : String) → length (s +++ t) ≡ length s + length t
unfolding length
length-append [] t = rw nil-append (omega arith)
length-append (c ∷ s) t = rw cons-append (omega (arith, length-append s t))

pub truthy_of_length : (s : String) → 0 < length s → truthy s ≡ true
unfolding length
truthy_of_length [] h = absurd (omega arith)
truthy_of_length (c ∷ s) h = refl
