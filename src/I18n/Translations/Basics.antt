-- ===== src/I18n/Translations/Basics.antt =====
-- i18n/types.ts: the members of `Translations` for the shared words, the navigation, and the names of states and roles.
use adms_server.Common.{String, List, [], ◌∷◌}

pub record ApiErrorTexts : Type 0 where
  pub validation_error : String
  pub not_found : String
  pub rate_limited : String
  pub internal_error : String
  pub generic_error_prefix : String

abbrev pub api_errors_texts : ApiErrorTexts → List String
api_errors_texts t =
    t.validation_error ∷ t.not_found ∷ t.rate_limited ∷ t.internal_error ∷ t.generic_error_prefix
    ∷ []

pub record CommonTexts : Type 0 where
  pub system_title : String
  pub system_subtitle : String
  pub loading : String
  pub save : String
  pub saving : String
  pub cancel : String
  pub close : String
  pub edit : String
  pub delete : String
  pub active : String
  pub inactive : String
  pub refresh : String
  pub search : String
  pub search_placeholder : String
  pub clear : String
  pub all : String
  pub none : String
  pub status : String
  pub actions : String
  pub details : String
  pub error : String
  pub success : String
  pub warning : String
  pub back : String
  pub next : String
  pub confirm : String
  pub unauthorized : String
  pub forbidden : String
  pub page : String
  pub of : String
  pub items : String
  pub showing : String
  pub to : String
  pub results : String
  pub production_environment_label : String
  pub api_errors : ApiErrorTexts
  pub open api_errors use *

abbrev pub common_texts : CommonTexts → List String
common_texts t =
    t.system_title ∷ t.system_subtitle ∷ t.loading ∷ t.save ∷ t.saving ∷ t.cancel ∷ t.close ∷ t.edit
    ∷ t.delete ∷ t.active ∷ t.inactive ∷ t.refresh ∷ t.search ∷ t.search_placeholder ∷ t.clear
    ∷ t.all ∷ t.none ∷ t.status ∷ t.actions ∷ t.details ∷ t.error ∷ t.success ∷ t.warning ∷ t.back
    ∷ t.next ∷ t.confirm ∷ t.unauthorized ∷ t.forbidden ∷ t.page ∷ t.of ∷ t.items ∷ t.showing ∷ t.to
    ∷ t.results ∷ t.production_environment_label ∷ []

pub record NavTexts : Type 0 where
  pub operations : String
  pub dashboard : String
  pub attendance : String
  pub enrollment : String
  pub identity_people : String
  pub personnel : String
  pub mappings : String
  pub infrastructure : String
  pub devices : String
  pub system : String
  pub administration : String
  pub audit : String
  pub operators : String
  pub my_account : String
  pub change_password : String
  pub sign_out : String

abbrev pub nav_texts : NavTexts → List String
nav_texts t =
    t.operations ∷ t.dashboard ∷ t.attendance ∷ t.enrollment ∷ t.identity_people ∷ t.personnel
    ∷ t.mappings ∷ t.infrastructure ∷ t.devices ∷ t.system ∷ t.administration ∷ t.audit
    ∷ t.operators ∷ t.my_account ∷ t.change_password ∷ t.sign_out ∷ []

pub record StatusTexts : Type 0 where
  pub writes_locked : String
  pub writes_active : String
  pub collector_live : String
  pub collector_offline : String
  pub collector_connecting : String
  pub device_connected : String
  pub device_disconnected : String
  pub db_healthy : String
  pub db_degraded : String
  pub mqtt_healthy : String
  pub mqtt_unreachable : String
  pub live_stream_active : String

abbrev pub status_texts : StatusTexts → List String
status_texts t =
    t.writes_locked ∷ t.writes_active ∷ t.collector_live ∷ t.collector_offline
    ∷ t.collector_connecting ∷ t.device_connected ∷ t.device_disconnected ∷ t.db_healthy
    ∷ t.db_degraded ∷ t.mqtt_healthy ∷ t.mqtt_unreachable ∷ t.live_stream_active ∷ []

pub record RoleTexts : Type 0 where
  pub viewer : String
  pub enrollment_operator : String
  pub operator : String
  pub admin : String
  pub viewer_desc : String
  pub enrollment_operator_desc : String
  pub operator_desc : String
  pub admin_desc : String
  pub loading_account : String
  pub session_error_title : String
  pub session_error_body : String
  pub relogin_button : String

abbrev pub roles_texts : RoleTexts → List String
roles_texts t =
    t.viewer ∷ t.enrollment_operator ∷ t.operator ∷ t.admin ∷ t.viewer_desc
    ∷ t.enrollment_operator_desc ∷ t.operator_desc ∷ t.admin_desc ∷ t.loading_account
    ∷ t.session_error_title ∷ t.session_error_body ∷ t.relogin_button ∷ []
