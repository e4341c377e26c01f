-- ===== src/I18n.antt =====
-- i18n/ of the frontend: the translated texts that the modelled code shows and API errors in words.
pub mod Translations
pub mod English
pub mod Thai
pub mod ApiErrors
pub mod Locale
pub mod Language
pub mod EnumLabels
mod Tests
