-- ===== src/I18n/Language.antt =====
-- i18n/index.tsx: the language provider. The browser's storage is what it holds under the key
-- adms.locale, or an error where it is not accessible.
pub mod Laws
use adms_server.Common.{String, Option, none, some, if◌then◌else◌, str_eq}
use adms_server.Api.Request.{Outcome, done, failed}
use adms_server.I18n.Locale.{Locale}
use adms_server.I18n.Translations.{Translations}
use adms_server.I18n.English.{en}
use adms_server.I18n.Thai.{th}

abbrev pub translations_map : Locale → Translations
translations_map Locale.th = th
translations_map Locale.en = en

-- `type Locale` as the text that is stored.
abbrev locale_key : Locale → String
locale_key Locale.th = "th"
locale_key Locale.en = "en"

abbrev Storage : Type 0
Storage = Outcome (Option String)

-- The initial state: what is stored, if it is a language, and else Thai.
unfoldable pub initial_locale : Storage → Locale
initial_locale (done (some stored)) =
    if str_eq stored "en" then Locale.en else if str_eq stored "th" then Locale.th else Locale.th
initial_locale (done none) = Locale.th
initial_locale (failed m) = Locale.th

pub record Language : Type 0 where
  pub locale : Locale
  pub storage : Storage

abbrev stored : Locale → Storage → Storage
stored l (done v) = done (some (locale_key l))
stored l (failed m) = failed m

unfoldable pub set_locale : Locale → Language → Language
set_locale l s = record { locale = l; storage = stored l s.storage }

-- The page is loaded: the provider starts with the storage as it is.
unfoldable pub load : Storage → Language
unfolding initial_locale
load storage = record { locale = initial_locale storage; storage = storage }
