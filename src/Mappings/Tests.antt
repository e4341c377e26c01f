-- ===== src/Mappings/Tests.antt =====
-- The panel with one enrollment that is ready.
use adms_server.Common.{String, refl, false, none, some, List, [], ◌∷◌}
use adms_server.Api.Json.{Json, null}
use adms_server.Api.Request.{Result, ok}
use adms_server.Enrollments.Forms.{Verification}
use adms_server.I18n.English.{en}
use adms_server.Mappings.{
  EligibleItem, MappingPanel, MappingEvent, select, set_note, request, confirm,
}
use adms_server.Mappings.Laws.{AllEvident, mapping_run-AllEvident}

abbrev ready : EligibleItem
ready = record { enrollment_id = 4; device_user_pk = some 9; controlled_attendance_id = some 2 }

abbrev panel : MappingPanel
panel = record {
  items = ready ∷ [];
  selected_id = none;
  verified_by = "ann";
  note = "";
  busy = false;
  error = none;
  confirm_open = false;
}

abbrev accept : Verification → Result Json
accept v = ok null

abbrev lower : String → String
lower s = s

abbrev steps : List MappingEvent
steps = select (some 4) ∷ set_note " checked " ∷ request ∷ confirm ∷ []

mapping_run-AllEvident_example : AllEvident lower en accept false panel steps
mapping_run-AllEvident_example = mapping_run-AllEvident lower en accept panel steps refl
