-- ===== src/I18n/Language/Laws.antt =====
-- The language that is chosen, and the texts in both languages.
use Prim.Native.Char.{code}
use Prim.Native.String.{String, [], ◌∷◌}
use adms_server.Common.{Bool, false, not, ◌||◌, Option, map, ◌==◌, ◌≡◌, refl, if◌then◌else◌}
use adms_server.Api.Request.{done, failed}
use adms_server.I18n.Locale.{Locale}
use adms_server.I18n.Translations.{texts}
use adms_server.I18n.Language.{Language, translations_map, set_locale, load}

-- The placeholders of a text, one after the other, with their braces.
abbrev holes : Bool → String → String
holes inside [] = []
holes inside (c ∷ s) =
    let opened = if inside then not (code c == 125) else code c == 123 in
    let rest = holes opened s in if inside || opened then c ∷ rest else rest

abbrev pub placeholders : String → String
placeholders s = holes false s

-- Every text has the same placeholders in both languages, in the same order.
pub placeholders-eq :
    (l m : Locale)
    → map placeholders (texts (translations_map l)) ≡ map placeholders (texts (translations_map m))
placeholders-eq Locale.th Locale.th = refl
placeholders-eq Locale.th Locale.en = refl
placeholders-eq Locale.en Locale.th = refl
placeholders-eq Locale.en Locale.en = refl

-- Where the storage is accessible, a language that is set is shown at once, and again after the page
-- is loaded anew; where it is not, it is shown until then, and a new page begins in Thai.
pub locale_roundtrip :
    (l : Locale) (s : Language)
    → ((set_locale l s).locale ≡ l)
      × ((v : Option String) → s.storage ≡ done v → (load (set_locale l s).storage).locale ≡ l)
      × ((m : String) → s.storage ≡ failed m → (load (set_locale l s).storage).locale ≡ Locale.th)
unfolding load set_locale
locale_roundtrip Locale.th s = (refl, λ v e. rw e refl, λ m e. rw e refl)
locale_roundtrip Locale.en s = (refl, λ v e. rw e refl, λ m e. rw e refl)
