-- ===== src/TerminalName.antt =====
-- lib/terminalName.ts of the frontend: the suggested display name for the terminal.
pub mod Laws
mod Tests
use adms_server.Common.{
  ℕ, String, Bool, true, false, Option, none, some, leb, if◌then◌else◌, get_or, truthy,
}
use adms_server.Common.Text.{length, trim, ◌+++◌}

-- `RankMetadata` of the API schema; a nullable field is an option.
pub record RankMetadata : Type 0 where
  pub rank_th_original : Option String
  pub rank_en : Option String
  pub rank_en_abbreviation : Option String

abbrev pub max_terminal_name_length : ℕ
max_terminal_name_length = 20

pub record TerminalNamePreview : Type 0 where
  pub value : String
  pub rank_omitted_for_length : Bool

-- `rankMetadata?.rank_en_abbreviation?.trim()`
abbrev pub abbreviation : Option RankMetadata → Option String
abbreviation none = none
abbreviation (some m) = elim m.rank_en_abbreviation [ none ↦ none | some a ↦ some (trim a) ]

-- An `undefined` abbreviation is as falsy as an empty one.
unfoldable pub compute_terminal_name_preview :
    Option String → Option RankMetadata → TerminalNamePreview
compute_terminal_name_preview english_name rank_metadata =
    let name = trim (get_or english_name "") in
    let abbr = get_or (abbreviation rank_metadata) "" in
    let with_rank = abbr +++ " " +++ name in
    if truthy name
    then (if truthy abbr
        then (if leb (length with_rank) max_terminal_name_length
            then record { value = with_rank; rank_omitted_for_length = false }
            else record { value = name; rank_omitted_for_length = true })
        else record { value = name; rank_omitted_for_length = false })
    else record { value = ""; rank_omitted_for_length = false }
