-- ===== src/I18n/Thai/Overview.antt =====
-- i18n/th.ts: the Thai texts of the login and the pages that only show data.
use adms_server.I18n.Translations.Overview.{
  LoginTexts, DashboardTexts, AttendanceTexts, DeviceTexts, AuditTexts,
}

abbrev pub login_th : LoginTexts
login_th = record {
  title = "ระบบจัดการเครื่องสแกนเวลา (ADMS)";
  subtitle = "เข้าสู่ระบบเพื่อปฏิบัติงาน";
  environment = "เซิร์ฟเวอร์ปฏิบัติการ";
  username_label = "ชื่อผู้ใช้งาน";
  username_placeholder = "กรอกชื่อผู้ใช้ของคุณ";
  password_label = "รหัสผ่าน";
  password_placeholder = "กรอกรหัสผ่าน";
  sign_in_button = "เข้าสู่ระบบ";
  signing_in = "กำลังเข้าสู่ระบบ...";
  failed = "ชื่อผู้ใช้หรือรหัสผ่านไม่ถูกต้อง";
}

abbrev pub dashboard_th : DashboardTexts
dashboard_th = record {
  title = "ภาพรวมระบบและการปฏิบัติงาน";
  subtitle = "สถานะการทำงานสด สถิติลงทะเบียน และบันทึกเวลา";
  system_operational = "ระบบทำงานสมบูรณ์";
  system_degraded = "ระบบมีข้อขัดข้องบางส่วน";
  kpi_personnel_total = "กำลังพลทั้งหมด";
  kpi_personnel_eligible = "กำลังพลที่ต้องสแกน";
  kpi_personnel_excluded = "ปฏิบัติหน้าที่พิเศษ";
  kpi_attendance_today = "สแกนวันนี้";
  kpi_attendance_total = "สแกนสะสมทั้งหมด";
  kpi_unattributed = "สแกนที่ยังไม่จับคู่";
  kpi_devices_active = "เครื่องสแกนที่พร้อมใช้";
  kpi_devices_total = "เครื่องสแกนทั้งหมด";
  kpi_mappings_active = "ยืนยันตัวตนสำเร็จ";
  kpi_mappings_total = "ประวัติการจับคู่ทั้งหมด";
  kpi_unmapped_users = "ผู้ใช้บนเครื่องที่ยังไม่จับคู่";
  enrollment_status_title = "ภาพรวมสถานะการลงทะเบียน";
  enrollment_active_count_label = "รายการที่ต้องดำเนินการ";
  enrollment_active_count_hint = "เฉพาะงานที่ยังไม่เสร็จจริง";
  lifecycle_in_progress = "กำลังลงทะเบียน";
  lifecycle_completed = "เสร็จแล้ว";
  lifecycle_removed = "นำออกจากเครื่องแล้ว";
  lifecycle_cancelled = "ยกเลิกแล้ว";
  mappings_historical_hint = "รวมประวัติทั้งหมด";
}

abbrev pub attendance_th : AttendanceTexts
attendance_th = record {
  title = "บันทึกเวลาเข้า-ออก (สด)";
  subtitle = "รายงานการสแกนนิ้วแบบเรียลไทม์";
  live_stream_badge = "ถ่ายทอดสดสัญญาณ";
  time_column = "เวลาที่สแกน";
  time_column_suffix = "เวลาประเทศไทย";
  person_column = "กำลังพล / บุคคล";
  rank_column = "ยศ";
  terminal_id_column = "รหัสเครื่อง";
  device_column = "เครื่องสแกน";
  punch_column = "ประเภทการกด";
  status_column = "ผลการตรวจสอบ";
  on_time = "ตรงเวลา";
  late = "สาย";
  unknown = "ไม่ทราบสถานะ";
  reconciliation_title = "การตรวจสอบรายการที่ยังไม่จับคู่";
  reconciliation_desc = "รายการสแกนที่ยังไม่มีการยืนยันตัวบุคคล";
  log_id_column = "รหัสรายการ";
  device_user_pk_column = "รหัสลำดับ (ระบบ)";
  unmapped_user_label = "(ยังไม่ยืนยันตัวบุคคล)";
  no_unattributed_rows = "ไม่พบรายการที่ยังไม่ยืนยันตัวบุคคลในช่วงนี้";
  terminal_user_column = "รหัสเครื่อง";
  temporal_classification_column = "สาเหตุ";
  diagnostic_detail_column = "รายละเอียดการตรวจสอบ";
}

abbrev pub devices_th : DeviceTexts
devices_th = record {
  title = "เครื่องสแกนลายนิ้วมือ";
  subtitle = "สถานะฮาร์ดแวร์และการเชื่อมต่อเครื่องสแกน";
  device_ip = "หมายเลข IP เครื่อง";
  serial = "หมายเลขเครื่อง (Serial)";
  platform = "แพลตฟอร์ม";
  firmware = "เฟิร์มแวร์";
  last_seen = "ติดต่อล่าสุด";
  discovered_users = "รายชื่อผู้ใช้ที่ตรวจพบบนเครื่องสแกน";
  discovered_users_historical_hint = "เคยพบทั้งหมด (รวมที่นำออกแล้ว)";
  current_terminal_accounts = "บัญชีที่อยู่บนเครื่องสแกนขณะนี้";
  device_user_pk = "รหัสลำดับ";
  privilege = "สิทธิ์การใช้งาน";
  incarnation = "รอบการใช้งานบัญชี";
  terminal_uid_column = "รหัสอ้างอิงบนเครื่อง";
  display_name_column = "ชื่อที่แสดงบนเครื่อง";
  roster_sync_hint = "ซิงค์ข้อมูลจากเครื่องสแกนโดยอัตโนมัติ";
  inactive_since_prefix = "ปิดใช้งานตั้งแต่";
  recycled_label = "นำรหัสกลับมาใช้ใหม่";
}

abbrev pub audit_th : AuditTexts
audit_th = record {
  title = "บันทึกความปลอดภัย";
  subtitle = "ประวัติการปฏิบัติงานและการเปลี่ยนแปลงในระบบ";
  event_type_filter = "ประเภทเหตุการณ์";
  timestamp_column = "เวลา (UTC)";
  event_type_column = "เหตุการณ์";
  operator_column = "ผู้ดำเนินการ";
  details_column = "รายละเอียด";
  origin_ip_column = "IP ต้นทาง";
}
