-- ===== src/I18n/Locale.antt =====
-- i18n/types.ts: the two languages.
pub data Locale : Type 0 where
  th en : Locale
