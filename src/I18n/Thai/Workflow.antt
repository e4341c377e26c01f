-- ===== src/I18n/Thai/Workflow.antt =====
-- i18n/th.ts: the Thai texts of the personnel workflows.
use adms_server.I18n.Translations.Workflow.{WorkflowTexts}

abbrev pub workflow_th : WorkflowTexts
workflow_th = record {
  scan_window_expired = "หมดเวลารอสแกนแล้ว — กดเปิดรอสแกนใหม่ แล้วให้สแกนอีกครั้ง";
  scan_window_reopen = "เปิดรอสแกนใหม่ (5 นาที)";
  names_synced_result = "อัปเดตชื่อบนเครื่องสแกน {renamed} คน (ไม่สำเร็จ {failed})";
  names_mismatch_title = "ชื่อบนเครื่องสแกนไม่ตรงกับข้อมูลบุคคล {n} บัญชี";
  names_sync_all_button = "อัปเดตชื่อบนเครื่องทั้งหมด ({n})";
  terminal_name_auto =
      "ระบบอัปเดตชื่อบนเครื่องให้อัตโนมัติเมื่อแก้ยศหรือชื่ออังกฤษ — ปุ่มนี้ใช้เมื่อเครื่องไม่ได้ต่ออยู่ตอนแก้";
  save_english_name = "บันทึกชื่ออังกฤษ";
  save_english_name_hint =
      "บุคคลนี้ยังไม่มีชื่อภาษาอังกฤษ — บันทึกที่นี่จะเก็บเข้าข้อมูลบุคคล แล้วระบบสร้างชื่อบนเครื่องให้ (ยศ + ชื่อ)";
  terminal_name_title = "ชื่อบนเครื่องสแกน";
  terminal_name_on_device = "บนเครื่อง";
  terminal_name_expected = "ควรเป็น (ยศ + ชื่ออังกฤษ)";
  terminal_name_mismatch = "ชื่อบนเครื่องไม่ตรงกับข้อมูลบุคคล";
  terminal_name_sync_button = "อัปเดตชื่อบนเครื่องสแกน";
  terminal_name_synced = "อัปเดตชื่อบนเครื่องแล้ว (ลายนิ้วมือไม่เปลี่ยน)";
  terminal_name_needs_english = "ต้องใส่ชื่อภาษาอังกฤษก่อน";
  open_policy_title = "การแก้ไขข้อมูลและลงลายนิ้วมือ: เปิดตลอดเวลา";
  open_policy_body =
      "ไม่ต้องเปิดช่วงแก้ไขข้อมูลแล้ว — แก้ไขรายชื่อ บันทึกการลา และลงลายนิ้วมือได้ตลอด สิทธิ์ยังเป็นไปตาม role และทุกการแก้ไขถูกบันทึกใน audit ส่วนการสแกนเข้างานนับเฉพาะช่วง 06:30–11:00 (สแกนหลัง 10:00 = มาสาย; สแกนนอกช่วงจะถูกเก็บไว้แต่ไม่นับ)";
  outside_window = "สแกนนอกเวลา";
  offboard_deferred =
      "ปิดชื่อแล้ว — ลบลายนิ้วมือออกจากเครื่องได้เมื่อเปิดงานลายนิ้วมือ (ดูในตัวกรอง 'ย้ายออกแล้ว แต่ยังมีนิ้วในเครื่อง')";
  fingerprint_window_needed = "ต้องเปิดงานลายนิ้วมือก่อน (จ.–ศ. 09:00–18:00)";
  pw_current_wrong = "รหัสผ่านปัจจุบันไม่ถูกต้อง";
  pw_same = "รหัสผ่านใหม่ต้องไม่ซ้ำกับรหัสผ่านปัจจุบัน";
  pw_too_short = "รหัสผ่านใหม่ต้องมีอย่างน้อย 12 ตัวอักษร (ตอนนี้ {n} ตัว)";
  pw_current_missing = "กรุณากรอกรหัสผ่านปัจจุบัน";
  pw_too_long = "รหัสผ่านยาวเกินไป (ไม่เกิน 256 ตัวอักษร)";
  pw_session_expired = "เซสชันหมดอายุ กรุณาเข้าสู่ระบบใหม่";
  reason_finance = "การเงิน";
  reason_command_office = "สำนักงานผู้บังคับบัญชา";
  reason_other = "อื่นๆ (ระบุ)";
  quick_required = "สแกนนิ้ว";
  quick_exempt_prefix = "";
  selected_count = "เลือกแล้ว {n} คน";
  bulk_exempt = "ตั้งเป็นยกเว้นสแกน";
  bulk_require = "ยกเลิกยกเว้น (ต้องสแกน)";
  bulk_done = "อัปเดตแล้ว {n} คน";
  clear_selection = "ล้างที่เลือก";
  all_branches = "แผนก: ทั้งหมด";
  select_page = "เลือกทั้งหน้า";
  position_col = "ตำแหน่ง";
  wiz_step1 = "สร้างบัญชีในเครื่อง";
  wiz_step2 = "ลงนิ้วที่เครื่อง";
  wiz_step3 = "ทดสอบสแกน";
  wiz_step4 = "ยืนยันตัวบุคคล";
  wiz_step_of = "ขั้นที่";
  auto_scan_hint = "เมื่อสแกนแล้ว ระบบจะยืนยันให้อัตโนมัติ ไม่ต้องกดปุ่ม";
  verify_inline_title = "ยืนยันว่าลายนิ้วมือนี้เป็นของบุคคลนี้จริง";
  verify_note_label = "หมายเหตุการยืนยัน";
  verify_note_placeholder = "เช่น ตรวจบัตรประจำตัวแล้ว";
  verify_button = "ยืนยันและเสร็จสิ้น";
  waiting_admin_verify = "ขั้นสุดท้าย: รอผู้ดูแลระบบยืนยันตัวบุคคล";
  verified_done = "ลงทะเบียนเสร็จสมบูรณ์ — เริ่มบันทึกเวลาเข้างานได้แล้ว";
  nav_attendance_group = "เวลาเข้า-ออกงาน";
  nav_personnel_group = "บัญชีพล";
  nav_fingerprint_group = "ลายนิ้วมือ";
  nav_admin_group = "ผู้ดูแลระบบ";
  write_closed_banner = "งานลายนิ้วมือ / เครื่องสแกน: ปิดอยู่";
  write_closed_hint =
      "แก้ไขรายชื่อ ยศ ตำแหน่ง และบันทึกการลาได้ตลอดเวลา — ส่วนการลงนิ้วและจัดการเครื่องสแกนเปิดอัตโนมัติ จ.–ศ. 09:00–18:00 หรือให้ผู้ดูแลเปิดที่หน้า 'สถานะและตั้งค่าระบบ'";
  write_open_banner = "งานลายนิ้วมือ / เครื่องสแกน: เปิดถึง";
  hub_title = "งานบัญชีพล";
  import_title = "อัปเดตรายชื่อ / ยศ จาก Excel";
  import_desc = "ส่งออกไฟล์ → แก้ใน Excel → นำเข้า ระบบจะแสดงรายการที่เปลี่ยนให้ตรวจก่อนบันทึก";
  join_title = "รับเข้าใหม่";
  join_desc = "เพิ่มชื่อเข้าบัญชีพล แล้วลงทะเบียนลายนิ้วมือที่เครื่องสแกน";
  leave_title = "ย้ายออก / พ้นหน่วย";
  leave_desc =
      "เลือกชื่อ แล้วกด 'ย้ายออก' ในหน้าข้อมูล ระบบจะปิดชื่อและลบลายนิ้วมือออกจากเครื่องให้";
  exempt_title = "ปฏิบัติหน้าที่พิเศษ";
  exempt_desc = "เช่น สำนักงาน ผบ., การเงิน — ไม่ต้องลงนิ้ว ไม่นับขาดงาน ตั้งได้ในหน้าข้อมูลรายคน";
  count_active = "กำลังพลปัจจุบัน";
  count_needs_enroll = "ยังไม่ลงลายนิ้วมือ";
  count_exempt = "ปฏิบัติหน้าที่พิเศษ";
  count_left_with_account = "ย้ายออกแล้ว แต่ยังมีนิ้วในเครื่อง";
  filter_scan_all = "ลายนิ้วมือ: ทั้งหมด";
  scan_enrolled = "ลงนิ้วแล้ว";
  scan_needs = "ยังไม่ลงนิ้ว";
  scan_exempt = "ปฏิบัติหน้าที่พิเศษ";
  scan_left_with_account = "รอลบนิ้วออกจากเครื่อง";
  col_scan = "ลายนิ้วมือ";
  enroll_button = "ลงทะเบียนลายนิ้วมือ";
  scan_policy_title = "การสแกนนิ้วเข้า-ออกงาน";
  scan_required = "ต้องสแกนนิ้วเข้า-ออกงาน";
  scan_exempt_label = "ยกเว้น ไม่ต้องสแกนนิ้ว";
  exempt_reason_label = "เหตุผล / สังกัด";
  exempt_reason_placeholder = "เช่น สำนักงาน ผบ., การเงิน";
  exempt_reason_required = "กรุณาระบุเหตุผล";
  set_exempt_button = "ตั้งเป็นยกเว้นสแกน";
  clear_exempt_button = "ยกเลิกการยกเว้น (ต้องสแกน)";
  saved_ok = "บันทึกแล้ว";
  offboard_button = "ย้ายออก / พ้นหน่วย";
  offboard_title = "ยืนยันการย้ายออก";
  offboard_body =
      "ระบบจะ (1) ปิดชื่อออกจากบัญชีพล — ประวัติการเข้างานเดิมยังเก็บไว้ (2) ลบบัญชีและลายนิ้วมือออกจากเครื่องสแกน";
  offboard_accounts = "บัญชีในเครื่องสแกนที่จะถูกลบ";
  offboard_no_accounts = "ไม่มีบัญชีในเครื่องสแกน";
  offboard_reason_placeholder = "เช่น ย้ายไป ..., ปลดประจำการ, เกษียณ";
  offboard_done = "ย้ายออกเรียบร้อย — ปิดชื่อและลบลายนิ้วมือออกจากเครื่องแล้ว";
  offboard_partial =
      "ปิดชื่อแล้ว แต่ลบออกจากเครื่องไม่สำเร็จ (เครื่องอาจไม่ตอบสนอง) — กดปุ่มด้านล่างเพื่อลองใหม่";
  retry_remove_button = "ลบนิ้วที่ค้างในเครื่อง";
  rejoin_hint = "ถ้ากลับเข้าหน่วย ต้องลงทะเบียนลายนิ้วมือใหม่";
  needs_write_window = "ต้องเปิดการแก้ไขข้อมูลก่อน";
}
