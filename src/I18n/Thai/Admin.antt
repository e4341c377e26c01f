-- ===== src/I18n/Thai/Admin.antt =====
-- i18n/th.ts: the Thai texts of the system page, the live connection and the write session.
use adms_server.I18n.Translations.Admin.{SystemTexts, StreamTexts, WriteSessionTexts}

abbrev pub system_th : SystemTexts
system_th = record {
  title = "สถานะและตั้งค่าระบบ";
  subtitle = "ข้อมูลสุขภาพระบบ, บัญชีผู้ใช้ และตารางยศ";
  health_title = "สถานะการทำงานของบริการย่อย";
  api_service = "เว็บเซอร์วิส (Web API)";
  api_reachable = "เชื่อมต่อได้";
  database_service = "ฐานข้อมูล";
  mqtt_service = "ระบบแจ้งเตือนแบบสด";
  mqtt_hint = "ส่งข้อมูลอัปเดตแบบสดไปยังเบราว์เซอร์";
  collector_service = "ระบบเชื่อมต่อเครื่องสแกนลายนิ้วมือ";
  last_updated_label = "อัปเดตล่าสุด";
  change_password_title = "เปลี่ยนรหัสผ่านของคุณ";
  current_password = "รหัสผ่านปัจจุบัน";
  new_password = "รหัสผ่านใหม่ (อย่างน้อย 12 ตัวอักษร)";
  confirm_password = "ยืนยันรหัสผ่านใหม่";
  change_password_button = "บันทึกรหัสผ่านใหม่";
  password_changed_success = "เปลี่ยนรหัสผ่านสำเร็จเรียบร้อยแล้ว";
  rank_reference_title = "ตารางอ้างอิงยศทหารเรือ (RTN Ranks)";
  operators_title = "การจัดการบัญชีผู้ใช้งานระบบ";
  operators_subtitle = "สร้างและจัดการสิทธิ์ของผู้ใช้งาน ADMS Console (เฉพาะผู้ดูแลระบบ)";
  create_operator_button = "สร้างบัญชีผู้ใช้ใหม่";
  username = "ชื่อผู้ใช้ (Username)";
  display_name = "ชื่อที่แสดง (Display Name)";
  role = "สิทธิ์การใช้งาน (Role)";
  initial_password = "รหัสผ่านเริ่มต้น";
  create_account = "สร้างบัญชีผู้ใช้";
  toggle_active = "เปลี่ยนสถานะ";
  deactivate = "ปิดใช้งาน";
  activate = "เปิดใช้งาน";
  password_form_subtitle =
      "การเปลี่ยนรหัสผ่านจะออกจากระบบในอุปกรณ์อื่นทั้งหมด (เซสชันนี้ยังคงใช้งานได้ตามปกติ)";
  password_validation_error = "กรุณากรอกรหัสผ่านปัจจุบัน และรหัสผ่านใหม่อย่างน้อย 12 ตัวอักษร";
  operator_validation_error =
      "กรุณากรอกชื่อผู้ใช้ ชื่อที่แสดง และรหัสผ่าน (อย่างน้อย 12 ตัวอักษร) ให้ครบ";
  operator_create_success_prefix = "สร้างบัญชี";
  operator_create_success_suffix = "เรียบร้อยแล้ว";
  created_column = "สร้างเมื่อ";
  admin_only_badge = "เฉพาะผู้ดูแลระบบ";
  current_session_label = "(เซสชันนี้)";
  rank_table_hint = "ข้อมูลอ้างอิงกลางของระบบ";
  rank_th_full_column = "ยศเต็ม (ไทย)";
  rank_th_abbr_column = "คำย่อ (ไทย)";
  rank_en_column = "ยศ (อังกฤษ)";
  rank_en_abbr_column = "คำย่อ (อังกฤษ)";
  rank_category_column = "หมวดยศ";
  scheduler_title = "ช่วงเวลาทำงานอัตโนมัติ";
  scheduler_last_run = "รันล่าสุด";
  scheduler_never_run = "ยังไม่เคยรัน";
  scheduler_stale_warning =
      "ตัวตั้งเวลาไม่ได้ติดต่อ API มาเกิน 3 วัน — ตรวจสอบ service adms-auto-session บนเครื่องเซิร์ฟเวอร์";
  scheduler_subtitle =
      "เปิดช่วงเวลาทำงานอัตโนมัติ จันทร์–ศุกร์ 09:00–18:00 Asia/Bangkok (เฉพาะผู้ดูแลระบบ)";
  scheduler_toggle_label = "ช่วงเวลาทำงานอัตโนมัติ (จันทร์–ศุกร์ 09:00–18:00)";
  scheduler_toggle_hint =
      "เมื่อเปิดใช้งาน ระบบจะเปิดช่วงเวลาทำงานอัตโนมัติเวลา 09:00 และปิด 18:00 ในวันทำการ นอกช่วงเวลานี้ระบบจะล็อกการแก้ไขจนกว่าจะเปิดด้วยตนเอง";
  scheduler_enabled_badge = "ตั้งเวลาอัตโนมัติ: เปิด";
  scheduler_disabled_badge = "ตั้งเวลาอัตโนมัติ: ปิด";
  scheduler_active_window_badge = "ช่วงเวลาอัตโนมัติกำลังทำงาน";
  scheduler_manual_badge = "โหมดกำหนดเอง";
  scheduler_locked_badge = "ล็อกการแก้ไข";
  scheduler_admin_only_hint = "เฉพาะผู้ดูแลระบบ (ADMIN) เท่านั้นที่เปิด/ปิดการตั้งเวลาอัตโนมัติได้";
  scheduler_load_error = "โหลดการตั้งเวลาไม่สำเร็จ";
  scheduler_update_success = "อัปเดตการตั้งเวลาสำเร็จ";
  scheduler_update_failed = "ไม่สามารถอัปเดตการตั้งเวลาได้";
  scheduler_toggle_on = "เปิดตั้งเวลาอัตโนมัติ";
  scheduler_toggle_off = "ปิดตั้งเวลาอัตโนมัติ";
}

abbrev pub stream_th : StreamTexts
stream_th = record {
  connected = "เชื่อมต่อข้อมูลสดแล้ว";
  connecting = "กำลังเชื่อมต่อ...";
  disconnected = "การเชื่อมต่อข้อมูลสดขาดหาย — สามารถลองใหม่ได้";
  retry = "เชื่อมต่อใหม่";
}

abbrev pub write_session_th : WriteSessionTexts
write_session_th = record {
  title = "ช่วงเวลาแก้ไขข้อมูล";
  locked_title = "ระบบยังไม่เปิดให้บันทึกข้อมูล";
  locked_body = "หากต้องการลงทะเบียนกำลังพลหรือแก้ไขการจับคู่ กรุณาเปิดช่วงเวลาทำงานก่อน";
  active_title = "เปิดให้แก้ไขข้อมูลอยู่";
  opened_by_label = "เปิดโดย";
  remaining_label = "เวลาที่เหลือ";
  reason_label = "เหตุผล";
  reason_placeholder = "เช่น ลงทะเบียนกำลังพล — อาคาร 3";
  open_button = "เปิดช่วงเวลาทำงาน";
  close_button = "ปิดช่วงเวลาทำงานตอนนี้";
  opening = "กำลังเปิด...";
  closing = "กำลังปิด...";
  open_failed = "ไม่สามารถเปิดช่วงเวลาทำงานได้";
  already_active = "มีช่วงเวลาทำงานเปิดอยู่แล้ว";
  admin_only_hint =
      "เฉพาะเจ้าหน้าที่ปฏิบัติงานหรือผู้ดูแลระบบเท่านั้นที่เปิดหรือปิดช่วงปฏิบัติงานได้";
  badge_locked = "🔒 ยังไม่เปิดให้แก้ไข";
  badge_active = "🟢 เปิดให้แก้ไขอยู่";
}
