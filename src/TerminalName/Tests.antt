-- ===== src/TerminalName/Tests.antt =====
-- The suggestion at a few people.
use adms_server.Common.{String, true, false, Option, none, some, ◌≡◌, refl}
use adms_server.Common.Text.{length, trim}
use adms_server.TerminalName.{RankMetadata, compute_terminal_name_preview}

abbrev commander : Option RankMetadata
commander = some (record {
  rank_th_original = none;
  rank_en = some "Commander";
  rank_en_abbreviation = some " CDR. ";
})

short_name :
    compute_terminal_name_preview (some " Somchai ") commander
    ≡ record { value = "CDR. Somchai"; rank_omitted_for_length = false }
unfolding compute_terminal_name_preview trim length
short_name = refl

no_room :
    compute_terminal_name_preview (some "Somchai Sukjaidee") commander
    ≡ record { value = "Somchai Sukjaidee"; rank_omitted_for_length = true }
unfolding compute_terminal_name_preview trim length
no_room = refl

abbrev long_name : String
long_name = "Somchai Sukjaidee Rakthai"
