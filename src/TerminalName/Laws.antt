-- ===== src/TerminalName/Laws.antt =====
-- What the suggested terminal name can be.
use adms_server.Common.{
  ◌≤◌, ◌<◌, String, true, Option, none, some, ◌≡◌, refl, ◌↔◌, ◌⊎◌, get_or, truthy, arith, subst,
}
use adms_server.Common.Text.{length, trim, ◌+++◌}
use adms_server.Common.Text.Length.{length-append, truthy_of_length}
use adms_server.Common.Text.Trim.{trim_idem, trim-append}
use adms_server.TerminalName.{
  RankMetadata, abbreviation, max_terminal_name_length, compute_terminal_name_preview,
}

trim-empty : trim "" ≡ ""
unfolding trim
trim-empty = refl

trim-abbreviation :
    (rank : Option RankMetadata)
    → trim (get_or (abbreviation rank) "") ≡ get_or (abbreviation rank) ""
trim-abbreviation none = trim-empty
trim-abbreviation (some m) =
    elim m.rank_en_abbreviation
      as (λ o.
        trim (get_or (elim o [ none ↦ none | some a ↦ some (trim a) ]) "")
        ≡ get_or (elim o [ none ↦ none | some a ↦ some (trim a) ]) "") [
          | none ↦ trim-empty
          | some a ↦ trim_idem a
        ]

module _ (english_name : Option String) (rank : Option RankMetadata) where
  abbrev name : String
  name = trim (get_or english_name "")

  abbrev abbr : String
  abbr = get_or (abbreviation rank) ""

  -- The suggestion is never cut: it is the whole trimmed name, or the whole abbreviation, a blank
  -- and the whole name, and in the second case it has at most 20 code units.
  pub preview_whole :
      (compute_terminal_name_preview english_name rank).value ≡ name
      ⊎ ((compute_terminal_name_preview english_name rank).value ≡ abbr +++ " " +++ name)
        × (length (abbr +++ " " +++ name) ≤ max_terminal_name_length)
  unfolding compute_terminal_name_preview
  preview_whole = ground arith

  -- The rank is reported as dropped exactly when there are a name and an abbreviation and the two
  -- with a blank between them are longer than 20 code units.
  pub rank_omitted_iff :
      ((compute_terminal_name_preview english_name rank).rank_omitted_for_length ≡ true) ↔ (
        (truthy name ≡ true)
        × (truthy abbr ≡ true)
        × (max_terminal_name_length < length (abbr +++ " " +++ name)))
  unfolding compute_terminal_name_preview
  rank_omitted_iff = ground arith

  trim-abbr : trim abbr ≡ abbr
  trim-abbr = trim-abbreviation rank

  trim-with_rank :
      truthy name ≡ true → truthy abbr ≡ true → trim (abbr +++ " " +++ name) ≡ abbr +++ " " +++ name
  trim-with_rank named ranked =
      subst (λ a. trim (a +++ " " +++ name) ≡ a +++ " " +++ name) trim-abbr
        (trim-append abbr (get_or english_name "") " " (rw trim-abbr ranked) named)

  -- Trimming the suggestion changes nothing, so that the name that is sent is the name shown.
  trim-preview :
      trim (compute_terminal_name_preview english_name rank).value
      ≡ (compute_terminal_name_preview english_name rank).value
  unfolding compute_terminal_name_preview
  trim-preview = ground (arith, trim_idem (get_or english_name ""), trim-empty, trim-with_rank)

  -- A trimmed name of more than 20 code units is suggested as it is, whatever the rank: the
  -- suggestion then is longer than the limit.
  long_name_kept :
      max_terminal_name_length < length name
      → ((compute_terminal_name_preview english_name rank).value ≡ name)
        × (max_terminal_name_length
            < length (compute_terminal_name_preview english_name rank).value)
  unfolding compute_terminal_name_preview
  long_name_kept h = ground (
    arith,
    truthy_of_length name (omega arith),
    length-append abbr (" " +++ name),
    length-append " " name,
  )
