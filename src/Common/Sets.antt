-- ===== src/Common/Sets.antt =====
-- A JavaScript `Set` of texts, as the list of its members in the order in which they were added.
use Prim.Native.String.{String}
use mathlib.Core.Path.{◌≡◌, refl}
use mathlib.Core.Bool.{Bool, not, ◌&&◌, ◌||◌}
use mathlib.Core.List.{List, [], ◌∷◌, ◌++◌}
use native.Mathlib.Omega.{arith}
use text.Mathlib.Text.{◌==◌ as str_eq}
use text.Mathlib.TextEquality.{eq_iff}
use adms_server.Common.Tests.{if◌then◌else◌}
use adms_server.Common.Lists.{filter, any}

abbrev pub has : List String → String → Bool
has set v = any (str_eq v) set

abbrev pub add : List String → String → List String
add set v = if has set v then set else set ++ v ∷ []

abbrev pub delete : List String → String → List String
delete set v = filter (λ x. not (str_eq v x)) set

abbrev pub add_all : List String → List String → List String
add_all set [] = set
add_all set (v ∷ vs) = add_all (add set v) vs

abbrev pub delete_all : List String → List String → List String
delete_all set [] = set
delete_all set (v ∷ vs) = delete_all (delete set v) vs

pub has-append_one :
    (set : List String) (v w : String) → has (set ++ v ∷ []) w ≡ (has set w || str_eq w v)
has-append_one [] v w = ground arith
has-append_one (x ∷ set) v w = ground (arith, has-append_one set v w)

pub has-add : (set : List String) (v w : String) → has (add set v) w ≡ (str_eq w v || has set w)
has-add set v w = ground (arith, has-append_one set v w, eq_iff w v)

pub has-delete :
    (set : List String) (v w : String) → has (delete set v) w ≡ (not (str_eq w v) && has set w)
has-delete [] v w = ground arith
has-delete (x ∷ set) v w = ground (arith, has-delete set v w, eq_iff v x, eq_iff w x, eq_iff w v)

pub has-add_all :
    (set vs : List String) (w : String) → has (add_all set vs) w ≡ (has vs w || has set w)
has-add_all set [] w = refl
has-add_all set (v ∷ vs) w = ground (arith, has-add_all (add set v) vs w, has-add set v w)

pub has-delete_all :
    (set vs : List String) (w : String) → has (delete_all set vs) w ≡ (not (has vs w) && has set w)
has-delete_all set [] w = refl
has-delete_all set (v ∷ vs) w =
    ground (arith, has-delete_all (delete set v) vs w, has-delete set v w)
