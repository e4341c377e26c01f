-- ===== src/I18n/Tests.antt =====
-- The languages, and the choice of one.
use adms_server.Common.{String, ◌≡◌, Option, none, map}
use adms_server.Api.Request.{done, failed}
use adms_server.I18n.Locale.{Locale}
use adms_server.I18n.Translations.{texts}
use adms_server.I18n.Language.{Language, translations_map, set_locale, load}
use adms_server.I18n.Language.Laws.{placeholders, placeholders-eq, locale_roundtrip}

placeholders-eq_example :
    map placeholders (texts (translations_map Locale.th))
    ≡ map placeholders (texts (translations_map Locale.en))
placeholders-eq_example = placeholders-eq Locale.th Locale.en

abbrev fresh : Language
fresh = record { locale = Locale.th; storage = done none }

locale_roundtrip_example :
    ((set_locale Locale.en fresh).locale ≡ Locale.en)
    × ((v : Option String)
        → fresh.storage ≡ done v
        → (load (set_locale Locale.en fresh).storage).locale ≡ Locale.en)
    × ((m : String)
        → fresh.storage ≡ failed m
        → (load (set_locale Locale.en fresh).storage).locale ≡ Locale.th)
locale_roundtrip_example = locale_roundtrip Locale.en fresh
