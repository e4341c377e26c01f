-- ===== src/Common/Text/Trim.antt =====
-- Trimming a text twice changes nothing, and the ends of a trimmed text.
use Prim.Native.String.{String, [], ◌∷◌}
use text.Mathlib.TextLemmas.{nil-append, cons-append}
use mathlib.Core.Path.{◌≡◌, refl, ap, ◌∙◌}
use mathlib.Core.Logic.{inl, inr}
use mathlib.Core.Bool.{true, false}
use native.Mathlib.Omega.{arith}
use adms_server.Common.Tests.{truthy, Bool-cases}
use adms_server.Common.Text.{is_space, trim_start, trim_end, trim, ◌+++◌}

-- The text is empty or begins with no white space.
abbrev IsTrimmedStart : String → Type 0
IsTrimmedStart [] = Unit
IsTrimmedStart (c ∷ s) = is_space c ≡ false

trim_start-IsTrimmedStart : (s : String) → IsTrimmedStart (trim_start s)
unfolding trim_start
trim_start-IsTrimmedStart [] = tt
trim_start-IsTrimmedStart (c ∷ s) = elim (Bool-cases (is_space c)) [
  | inl e ↦ rw e (trim_start-IsTrimmedStart s)
  | inr e ↦ rw e e
]

trim_start_of_IsTrimmedStart : (s : String) → IsTrimmedStart s → trim_start s ≡ s
unfolding trim_start
trim_start_of_IsTrimmedStart [] h = refl
trim_start_of_IsTrimmedStart (c ∷ s) h = rw h

-- What does not begin with white space keeps its first character.
trim_end-IsTrimmedStart : (s : String) → IsTrimmedStart s → IsTrimmedStart (trim_end s)
unfolding trim_end
trim_end-IsTrimmedStart [] h = tt
trim_end-IsTrimmedStart (c ∷ s) h = rw h h

trim_end_idem : (s : String) → trim_end (trim_end s) ≡ trim_end s
unfolding trim_end
trim_end_idem [] = refl
trim_end_idem (c ∷ s) = ground (arith, trim_end_idem s)

pub trim_idem : (s : String) → trim (trim s) ≡ trim s
unfolding trim
trim_idem s =
    rw
      (trim_start_of_IsTrimmedStart (trim_end (trim_start s))
        (trim_end-IsTrimmedStart (trim_start s) (trim_start-IsTrimmedStart s)))
      (trim_end_idem (trim_start s))

trim-IsTrimmedStart : (s : String) → IsTrimmedStart (trim s)
unfolding trim
trim-IsTrimmedStart s = trim_end-IsTrimmedStart (trim_start s) (trim_start-IsTrimmedStart s)

trim_end-trim : (s : String) → trim_end (trim s) ≡ trim s
unfolding trim
trim_end-trim s = trim_end_idem (trim_start s)

truthy-append : (s t : String) → truthy t ≡ true → truthy (s +++ t) ≡ true
truthy-append [] t h = rw nil-append h
truthy-append (c ∷ s) t h = rw cons-append refl

-- The end of a text is the end of its last part, if that part is not all white space.
trim_end-append :
    (s t : String) → truthy (trim_end t) ≡ true → trim_end (s +++ t) ≡ s +++ trim_end t
unfolding trim_end
trim_end-append [] t h = rw (nil-append, nil-append)
trim_end-append (c ∷ s) t h =
    rw (cons-append, cons-append, trim_end-append s t h)
      (ground (arith, truthy-append s (trim_end t) h))

IsTrimmedStart-append :
    (s t : String) → truthy s ≡ true → IsTrimmedStart s → IsTrimmedStart (s +++ t)
IsTrimmedStart-append [] t h k = cc
IsTrimmedStart-append (c ∷ s) t h k = rw cons-append k

trim_of_IsTrimmedStart : (s : String) → IsTrimmedStart s → trim s ≡ trim_end s
unfolding trim
trim_of_IsTrimmedStart s h = rw (trim_start_of_IsTrimmedStart s h)

-- Two trimmed texts with anything between them are trimmed.
pub trim-append :
    (s t mid : String)
    → truthy (trim s) ≡ true
    → truthy (trim t) ≡ true
    → trim (trim s +++ mid +++ trim t) ≡ trim s +++ mid +++ trim t
trim-append s t mid hs ht =
    let last : trim_end (mid +++ trim t) ≡ mid +++ trim t =
      trim_end-append mid (trim t) (rw (trim_end-trim t) ht)
      ∙ ap (λ u. mid +++ u) (trim_end-trim t) in
    trim_of_IsTrimmedStart (trim s +++ mid +++ trim t)
      (IsTrimmedStart-append (trim s) (mid +++ trim t) hs (trim-IsTrimmedStart s))
    ∙ trim_end-append (trim s) (mid +++ trim t) (rw last (truthy-append mid (trim t) ht))
    ∙ ap (λ u. trim s +++ u) last
