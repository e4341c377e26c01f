-- ===== src/I18n/Thai/Basics.antt =====
-- i18n/th.ts: the Thai texts of the shared words, the navigation, and the names of states and roles.
use adms_server.I18n.Translations.Basics.{
  ApiErrorTexts, CommonTexts, NavTexts, StatusTexts, RoleTexts,
}

abbrev api_errors_th : ApiErrorTexts
api_errors_th = record {
  validation_error = "ข้อมูลไม่ถูกต้อง กรุณาตรวจสอบและลองใหม่อีกครั้ง";
  not_found = "ไม่พบข้อมูลที่ต้องการ";
  rate_limited = "มีการร้องขอถี่เกินไป กรุณารอสักครู่แล้วลองใหม่";
  internal_error = "เกิดข้อผิดพลาดของระบบ กรุณาลองใหม่อีกครั้ง";
  generic_error_prefix = "เกิดข้อผิดพลาด กรุณาลองใหม่อีกครั้ง";
}

abbrev pub common_th : CommonTexts
common_th = record {
  system_title = "ระบบจัดการเครื่องสแกนเวลา";
  system_subtitle = "ADMS Console";
  loading = "กำลังโหลดข้อมูล...";
  save = "บันทึก";
  saving = "กำลังบันทึก...";
  cancel = "ยกเลิก";
  close = "ปิด";
  edit = "แก้ไข";
  delete = "ลบ";
  active = "เปิดใช้งาน";
  inactive = "ปิดใช้งาน";
  refresh = "รีเฟรช";
  search = "ค้นหา";
  search_placeholder = "พิมพ์ชื่อ, ยศ หรือรหัสบุคคล...";
  clear = "ล้างค่า";
  all = "ทั้งหมด";
  none = "ไม่มี";
  status = "สถานะ";
  actions = "การดำเนินการ";
  details = "รายละเอียด";
  error = "เกิดข้อผิดพลาด";
  success = "สำเร็จ";
  warning = "คำเตือน";
  back = "ย้อนกลับ";
  next = "ถัดไป";
  confirm = "ยืนยัน";
  unauthorized = "กรุณาเข้าสู่ระบบใหม่";
  forbidden = "ไม่มีสิทธิ์เข้าถึงส่วนนี้";
  page = "หน้า";
  of = "จาก";
  items = "รายการ";
  showing = "แสดง";
  to = "ถึง";
  results = "ผลลัพธ์";
  production_environment_label = "ระบบใช้งานจริง";
  api_errors = api_errors_th;
}

abbrev pub nav_th : NavTexts
nav_th = record {
  operations = "การปฏิบัติงาน";
  dashboard = "ภาพรวมระบบ";
  attendance = "บันทึกเวลาเข้า-ออก";
  enrollment = "ลงทะเบียนลายนิ้วมือ";
  identity_people = "ข้อมูลบุคคลและการยืนยัน";
  personnel = "ข้อมูลกำลังพล";
  mappings = "ยืนยันความถูกต้องตัวบุคคล";
  infrastructure = "ระบบและอุปกรณ์";
  devices = "เครื่องสแกนลายนิ้วมือ";
  system = "สถานะและตั้งค่าระบบ";
  administration = "การบริหารจัดการ";
  audit = "บันทึกความปลอดภัย";
  operators = "บัญชีผู้ใช้งานระบบ";
  my_account = "บัญชีผู้ใช้";
  change_password = "เปลี่ยนรหัสผ่าน";
  sign_out = "ออกจากระบบ";
}

abbrev pub status_th : StatusTexts
status_th = record {
  writes_locked = "🔒 โหมดดูข้อมูล (ปลอดภัย)";
  writes_active = "⚠\u{fe0f} เปิดการแก้ไขข้อมูลอยู่ (ระวัง)";
  collector_live = "ระบบรับข้อมูลทำงานปกติ";
  collector_offline = "ระบบรับข้อมูลหยุดทำงาน";
  collector_connecting = "กำลังเชื่อมต่อระบบ...";
  device_connected = "เชื่อมต่อเครื่องสแกนแล้ว";
  device_disconnected = "ขาดการเชื่อมต่อเครื่องสแกน";
  db_healthy = "ฐานข้อมูลปกติ";
  db_degraded = "ฐานข้อมูลมีปัญหา";
  mqtt_healthy = "ระบบข้อความปกติ";
  mqtt_unreachable = "ติดต่อระบบข้อความไม่ได้";
  live_stream_active = "สัญญาณข้อมูลสดทำงาน";
}

abbrev pub roles_th : RoleTexts
roles_th = record {
  viewer = "ผู้ดูข้อมูล (VIEWER)";
  enrollment_operator = "เจ้าหน้าที่ลงทะเบียน (ENROLLMENT)";
  operator = "เจ้าหน้าที่ปฏิบัติงาน (OPERATOR)";
  admin = "ผู้ดูแลระบบ (ADMIN)";
  viewer_desc = "ดูข้อมูลและรายงานได้ แต่ไม่สามารถแก้ไขข้อมูล";
  enrollment_operator_desc =
      "ลงทะเบียนบุคคลและลายนิ้วมือได้เมื่อมีการเปิดช่วงปฏิบัติงาน แต่ไม่สามารถเปิดช่วงปฏิบัติงานหรือจัดการระบบ";
  operator_desc =
      "เปิดและปิดช่วงปฏิบัติงานได้ และดูแลงานประจำวัน แต่ไม่สามารถจัดการบัญชีผู้ใช้หรือการตั้งค่าระบบสำคัญ";
  admin_desc = "จัดการระบบ ผู้ใช้งาน บุคลากร เครื่องสแกน และสิทธิ์ทั้งหมด";
  loading_account = "กำลังโหลดสิทธิ์ผู้ใช้งาน...";
  session_error_title = "ตรวจสอบสิทธิ์ผู้ใช้งานไม่สำเร็จ";
  session_error_body = "ระบบไม่สามารถยืนยันสิทธิ์ของคุณได้ กรุณาเข้าสู่ระบบใหม่อีกครั้ง";
  relogin_button = "เข้าสู่ระบบใหม่";
}
