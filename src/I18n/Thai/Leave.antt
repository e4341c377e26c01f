-- ===== src/I18n/Thai/Leave.antt =====
-- i18n/th.ts: the Thai texts of leave, holidays and the daily roster.
use adms_server.I18n.Translations.Leave.{LeaveTexts}

abbrev pub leave_th : LeaveTexts
leave_th = record {
  trial_body_date =
      "ระบบจะเริ่มนับจริงและส่งรายงานตั้งแต่วันที่ {date} — คนที่ยังไม่ลงนิ้วจะไม่ถูกนับขาด";
  track_date_label = "เริ่มใช้งานจริงวันที่";
  track_date_button = "ตั้งวันเริ่มใช้งานจริง";
  track_date_active =
      "นับจริงตั้งแต่ {date} — ก่อนหน้านั้นเป็นช่วงทดลอง ไม่นับ และไม่ส่งรายงาน · คนที่ยังไม่ลงนิ้วจะไม่ถูกนับขาด";
  trial_title = "โหมดทดลอง — ยังไม่นับขาดจริง";
  trial_body =
      "ระบบจะเริ่มนับจริงและส่งรายงาน Telegram เมื่อคนที่ต้องสแกนลงลายนิ้วมือครบ (ตอนนี้ {done}/{req} คน) — ไม่รวมผู้ปฏิบัติหน้าที่พิเศษ ผู้ไปราชการ/ช่วยราชการ และพลทหาร";
  trial_absent = "ขาด (ทดลอง)";
  readiness_away = "ไปราชการ";
  track_title = "เริ่มนับขาด / ส่งรายงานจริง";
  track_auto = "อัตโนมัติ — เริ่มเมื่อลงนิ้วครบ";
  track_on = "เปิดนับจริงเลย";
  track_off = "ปิด (ทดลองต่อ)";
  track_live = "กำลังนับจริง";
  track_trial = "โหมดทดลอง";
  st_not_enrolled = "ยังไม่ลงนิ้ว (ไม่นับ)";
  readiness_title = "ความพร้อมลงลายนิ้วมือ";
  readiness_hint = "คนที่ยังไม่ลงนิ้วจะไม่ถูกนับ มา/สาย/ขาด — เริ่มนับวันถัดจากวันที่ลงนิ้วเสร็จ";
  readiness_required = "ต้องสแกน";
  readiness_enrolled = "ลงนิ้วแล้ว";
  readiness_missing = "ยังขาด";
  tg_title = "รายงานผู้ขาดเข้า Telegram";
  tg_hint = "ส่งอัตโนมัติ จ.–ศ. 11:05 (หลังปิดช่วงสแกน) เฉพาะรายชื่อผู้ขาด";
  tg_preview = "ดูตัวอย่างข้อความวันนี้";
  tg_send = "ส่งทดสอบตอนนี้";
  tg_sent = "ส่งแล้ว";
  tg_not_configured =
      "ยังไม่ได้ตั้งค่า bot — ใส่ TELEGRAM_BOT_TOKEN และ TELEGRAM_CHAT_ID ในไฟล์ .env แล้ว deploy ใหม่";
  tg_failed = "ส่งไม่สำเร็จ";
  tg_non_workday = "วันหยุด — ไม่มีรายงาน";
  nav_monthly = "รายงานประจำเดือน";
  monthly_title = "รายงานการมาปฏิบัติงานประจำเดือน";
  monthly_subtitle = "วันทำงาน {n} วัน · นับสแกนช่วง {window} · หลัง {time} นับเป็นมาสาย";
  export_excel = "ส่งออก Excel (CSV)";
  legend = "รหัส";
  device_live = "เครื่องสแกนเชื่อมต่ออยู่";
  device_offline = "เครื่องสแกนไม่ได้เชื่อมต่อ";
  device_unknown = "ไม่ทราบสถานะเครื่องสแกน";
  device_last_seen = "เชื่อมต่อล่าสุด";
  nav_leave = "ลา / ราชการ";
  nav_daily = "ยอดกำลังพลประจำวัน";
  title = "บันทึกการลา / ไปราชการ / ช่วยราชการ";
  subtitle = "บันทึกตามเอกสารที่ ผบ.พัน ลงนามแล้ว — ผู้ที่ลาจะไม่ถูกนับว่าขาด";
  form_title = "บันทึกรายการใหม่";
  person = "กำลังพล";
  type = "ประเภท";
  start_date = "ตั้งแต่วันที่";
  end_date = "ถึงวันที่";
  order_ref = "เลขที่คำสั่ง / หนังสือ";
  order_ref_required = "ประเภทนี้ต้องระบุเลขที่คำสั่ง";
  destination = "ไปที่ / หน่วยปลายทาง";
  note = "หมายเหตุ";
  save_button = "บันทึก";
  saved = "บันทึกเรียบร้อย";
  select_person_required = "กรุณาเลือกกำลังพลและวันที่";
  overlap = "คนนี้มีรายการลา/ราชการในช่วงวันที่นี้อยู่แล้ว";
  days = "วัน";
  list_title = "รายการ";
  filter_current = "ปัจจุบันและที่จะถึง";
  filter_all = "ทั้งหมด";
  show_cancelled = "แสดงที่ยกเลิกแล้ว";
  cancel_button = "ยกเลิก";
  cancel_title = "ยกเลิกรายการนี้";
  cancel_reason = "เหตุผลที่ยกเลิก";
  cancel_reason_placeholder = "เช่น บันทึกผิดวันที่, ยกเลิกการลา";
  cancelled = "ยกเลิกแล้ว";
  no_records = "ไม่มีรายการ";
  recorded_by = "บันทึกโดย";
  history_title = "ประวัติการลา / ราชการ";
  add_for_person = "บันทึกลา / ราชการ";
  holidays_title = "วันหยุดราชการ";
  holiday_name = "ชื่อวันหยุด";
  holiday_add = "เพิ่มวันหยุด";
  holiday_hint = "วันเสาร์-อาทิตย์ไม่ต้องเพิ่ม ระบบนับเป็นวันหยุดอยู่แล้ว";
  daily_title = "ยอดกำลังพลประจำวัน";
  daily_subtitle = "นับสแกนช่วง {window} · หลัง {time} นับเป็นมาสาย";
  holiday_badge = "วันหยุด";
  total_label = "ยอดทั้งหมด";
  by_branch = "แยกตามแผนก";
  branch = "แผนก";
  first_scan = "สแกนแรก";
  st_present = "มา";
  st_late = "มาสาย";
  st_leave = "ลา";
  st_duty = "ราชการ / ช่วยราชการ";
  st_exempt = "ปฏิบัติหน้าที่";
  st_not_yet = "ยังไม่สแกน";
  st_absent = "ขาด";
  st_off = "วันหยุด";
  today = "วันนี้";
  all_statuses = "ทุกสถานะ";
}
