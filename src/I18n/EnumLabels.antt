-- ===== src/I18n/EnumLabels.antt =====
-- i18n/enumLabels.ts: labels for the server's enumeration values, and a label's lookup.
use adms_server.Common.{String, Option, none, some, List, [], ◌∷◌, if◌then◌else◌, str_eq}
use adms_server.I18n.Locale.{Locale}

-- The labels of one value in both languages.
pub record Label : Type 0 where
  pub en : String
  pub th : String

abbrev LabelMap : Type 0
LabelMap = List (String × Label)

-- `map[value]`
abbrev pub label_of : LabelMap → String → Option Label
label_of [] value = none
label_of ((k, l) ∷ more) value =
    let rest = label_of more value in if str_eq value k then some l else rest

-- `label[locale]`
abbrev in_locale : Locale → Label → String
in_locale Locale.th l = l.th
in_locale Locale.en l = l.en

abbrev text_of : Locale → Option Label → String → String
text_of locale none value = value
text_of locale (some l) value = in_locale locale l

unfoldable pub enum_label : LabelMap → String → Locale → String
enum_label m value locale = text_of locale (label_of m value) value

abbrev pub enrollment_status_labels : LabelMap
enrollment_status_labels =
    ("RESERVED", record { en = "Reserved"; th = "จองรหัสแล้ว" })
    ∷ (
      "TERMINAL_ACCOUNT_CREATED",
      record { en = "Terminal Account Created"; th = "สร้างบัญชีบนเครื่องแล้ว" },
    )
    ∷ (
      "FINGERPRINT_ENROLLMENT_PENDING",
      record { en = "Fingerprint Enrollment Pending"; th = "รอลงทะเบียนลายนิ้วมือ" },
    )
    ∷ (
      "FINGERPRINT_ENROLLED",
      record { en = "Fingerprint Enrolled"; th = "ลงทะเบียนลายนิ้วมือแล้ว" },
    )
    ∷ ("CONTROLLED_SCAN_PENDING", record { en = "Awaiting Test Scan"; th = "รอทดสอบสแกน" })
    ∷ (
      "CONTROLLED_SCAN_CONFIRMED",
      record { en = "Test Scan Confirmed"; th = "ยืนยันการทดสอบสแกนแล้ว" },
    )
    ∷ ("READY_FOR_MAPPING", record { en = "Ready to Confirm Identity"; th = "พร้อมยืนยันตัวบุคคล" })
    ∷ ("RETIRED", record { en = "Completed"; th = "เสร็จสมบูรณ์" })
    ∷ ("CANCELLED", record { en = "Cancelled"; th = "ยกเลิกแล้ว" })
    ∷ []

abbrev attendance_status_labels : LabelMap
attendance_status_labels =
    ("ON_TIME", record { en = "On Time"; th = "ตรงเวลา" })
    ∷ ("LATE", record { en = "Late"; th = "สาย" })
    ∷ ("UNKNOWN", record { en = "Unknown"; th = "ไม่ทราบสถานะ" })
    ∷ []

abbrev mapping_status_labels : LabelMap
mapping_status_labels =
    ("VERIFIED", record { en = "Verified"; th = "ยืนยันแล้ว" })
    ∷ ("PROBABLE", record { en = "Probable"; th = "คาดว่าถูกต้อง" })
    ∷ ("LEGACY", record { en = "Legacy"; th = "ข้อมูลเดิม" })
    ∷ ("CANDIDATE", record { en = "Candidate"; th = "รอพิจารณา" })
    ∷ ("REVOKED", record { en = "Revoked"; th = "ยกเลิกการยืนยัน" })
    ∷ []

abbrev verification_method_labels : LabelMap
verification_method_labels =
    ("CONTROLLED_SCAN", record { en = "Controlled Test Scan"; th = "ทดสอบสแกนภายใต้การควบคุม" })
    ∷ (
      "TERMINAL_ROSTER_REVIEW",
      record { en = "Terminal Roster Review"; th = "ตรวจสอบรายชื่อบนเครื่อง" },
    )
    ∷ (
      "MANUAL_ADMIN_CONFIRMATION",
      record { en = "Manual Admin Confirmation"; th = "ผู้ดูแลระบบยืนยันด้วยตนเอง" },
    )
    ∷ ("LEGACY_MIGRATION", record { en = "Legacy Migration"; th = "โอนย้ายจากระบบเดิม" })
    ∷ []

abbrev attendance_reasoning_labels : LabelMap
attendance_reasoning_labels =
    ("NO_DEVICE_USER", record { en = "No Terminal Account Found"; th = "ไม่พบบัญชีบนเครื่องสแกน" })
    ∷ (
      "LEGACY_USER",
      record { en = "Legacy Account (Not Migrated)"; th = "บัญชีเก่าที่ยังไม่โอนย้าย" },
    )
    ∷ ("NO_MAPPING", record { en = "No Identity Confirmed Yet"; th = "ยังไม่ได้ยืนยันตัวบุคคล" })
    ∷ (
      "BEFORE_VALID_FROM",
      record { en = "Scan Before Identity Was Confirmed"; th = "สแกนก่อนวันที่ยืนยันตัวบุคคล" },
    )
    ∷ (
      "AFTER_VALID_TO",
      record { en = "Scan After Identity Expired"; th = "สแกนหลังจากหมดอายุการยืนยัน" },
    )
    ∷ (
      "INSIDE_INTERVAL",
      record { en = "Matched (Diagnostic Only)"; th = "จับคู่ได้ (สำหรับตรวจสอบเท่านั้น)" },
    )
    ∷ []
