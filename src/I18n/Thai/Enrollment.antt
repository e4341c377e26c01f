-- ===== src/I18n/Thai/Enrollment.antt =====
-- i18n/th.ts: the Thai texts of the enrollment page.
use adms_server.I18n.Translations.Enrollment.{EnrollmentTexts}

abbrev pub enrollment_th : EnrollmentTexts
enrollment_th = record {
  title = "ลงทะเบียนลายนิ้วมือ";
  subtitle = "ขั้นตอนการลงทะเบียนลายนิ้วมือและตรวจสอบความถูกต้อง";
  start_new = "เริ่มลงทะเบียนใหม่";
  active_queue = "คิวที่กำลังดำเนินการ";
  no_active_sessions = "ไม่มีรายการที่กำลังลงทะเบียน";
  step1_title = "ขั้นตอนที่ 1: เลือกบุคคล";
  step1_desc = "เลือกลงทะเบียนให้กำลังพล และระบบจะจองรหัส ID บนเครื่องสแกนให้อัตโนมัติ";
  step1_button = "เริ่มลงทะเบียน";
  step2_title = "ขั้นตอนที่ 2: สร้างผู้ใช้บนเครื่องสแกน";
  step2_desc = "ส่งคำสั่งสร้างบัญชีผู้ใช้ไปยังเครื่องสแกน ZEM560 ทันที";
  step2_button = "สร้างผู้ใช้บนเครื่อง";
  step3_title = "ขั้นตอนที่ 3: ลงทะเบียนลายนิ้วมือที่เครื่อง";
  step3_desc =
      "1. ไปที่เครื่องสแกน\n2. เลือกรหัสที่แสดงด้านบน\n3. วางนิ้วตามที่เครื่องแจ้ง\n4. เมื่อเสร็จแล้ว กลับมากดปุ่มด้านล่าง";
  step3_button = "ลงลายนิ้วมือเสร็จแล้ว";
  step4_title = "ขั้นตอนที่ 4: ทดสอบสแกนนิ้วจริง";
  step4_desc = "ให้กำลังพลทดสอบสแกนนิ้ว 1 ครั้ง ระบบจะตรวจจับผลสแกนสดอัตโนมัติ";
  step4_button = "ยืนยันผลการสแกนทดสอบ";
  step5_title = "ขั้นตอนที่ 5: ตรวจสอบข้อมูล";
  step5_desc = "ข้อมูลพร้อมสำหรับการยืนยันตัวบุคคล";
  step5_button = "ส่งให้ผู้ดูแลยืนยัน";
  step5_checklist_terminal_account = "สร้างผู้ใช้บนเครื่องแล้ว";
  step5_checklist_fingerprint = "ลงทะเบียนลายนิ้วมือแล้ว";
  step5_checklist_scan = "ทดสอบสแกนนิ้วแล้ว";
  step6_title = "ขั้นตอนที่ 6: ยืนยันตัวบุคคล (ผู้ดูแลระบบ)";
  step6_desc = "ผู้ดูแลระบบตรวจสอบหลักฐานและลงนามยืนยันตัวตน";
  step6_button = "ยืนยันการเชื่อมบุคคลกับเครื่อง";
  completed_title = "ลงทะเบียนสำเร็จสมบูรณ์";
  completed_desc = "กำลังพลนี้สามารถสแกนเวลาเข้า-ออกงานได้ตามปกติแล้ว";
  cancelled_title = "รายการถูกยกเลิก";
  history_title = "ประวัติการลงทะเบียน";
  history_empty = "ยังไม่มีรายการที่เสร็จสิ้นหรือถูกนำออก";
  removed_from_terminal_label = "นำออกจากเครื่องแล้ว";
  removed_from_terminal_body = "บัญชีเดิมถูกนำออกจากเครื่องสแกนแล้ว ประวัติเดิมยังถูกเก็บไว้";
  history_preserved_note = "ประวัติเก่า — เก็บไว้เพื่ออ้างอิง แก้ไขไม่ได้";
  select_person = "เลือกกำลังพลที่ต้องการลงทะเบียน";
  select_device = "เลือกเครื่องสแกนลายนิ้วมือ";
  select_person_device_operator_required = "กรุณาเลือกบุคคล เครื่องสแกน และกรอกชื่อผู้ดำเนินการ";
  terminal_display_name = "ชื่อที่จะแสดงบนหน้าจอเครื่องสแกน (ภาษาอังกฤษ)";
  live_scan_detected = "ตรวจพบลายนิ้วมือสแกนทดสอบสำเร็จ!";
  waiting_for_scan = "รอการสแกน...";
  cancel_session = "ยกเลิกการลงทะเบียนนี้";
  cancel_reason_placeholder = "เหตุผลที่ยกเลิก (จำเป็นต้องระบุ)";
  cancel_reason_required = "กรุณาระบุเหตุผลที่ยกเลิก";
  scan_timestamp_label = "เวลาที่สแกน";
  scan_timestamp_required = "กรุณาเลือกเวลาที่สแกน";
  metadata_inspector = "ข้อมูลทางเทคนิคของเซสชัน";
  write_session_locked_title = "ระบบยังไม่เปิดให้บันทึกข้อมูล";
  write_session_locked_body = "กรุณาให้ผู้ดูแลระบบเปิดช่วงเวลาทำงานก่อนเริ่มลงทะเบียน";
  write_session_expired_mid_workflow =
      "ช่วงเวลาทำงานหมดอายุแล้ว ข้อมูลที่ทำไว้ยังถูกบันทึกอยู่ — กรุณาให้ผู้ดูแลระบบเปิดช่วงเวลาทำงานใหม่เพื่อดำเนินการต่อ";
  terminal_name_no_english_hint =
      "บุคคลนี้ยังไม่มีชื่อภาษาอังกฤษในระบบ กรุณาให้ผู้ดูแลระบบตั้งค่าในหน้าข้อมูลกำลังพล หรือกรอกชื่อตอนนี้ (ใช้ตัวอักษรและตัวเลขภาษาอังกฤษเท่านั้น)";
  terminal_name_rank_omitted_hint =
      "ระบบไม่ได้ใส่ยศนำหน้าเพราะยศ+ชื่อยาวเกินไปสำหรับเครื่องสแกน ชื่อเต็มยังคงอยู่ในข้อมูลกำลังพลตามปกติ";
  creating_or_verifying = "กำลังสร้าง / ตรวจสอบบัญชีบนเครื่อง...";
  verify_reconcile_button = "ตรวจสอบ / ยืนยันใหม่";
  terminal_conflict_title = "รหัสนี้บนเครื่องเป็นของบุคคลอื่น";
  terminal_conflict_body =
      "บัญชีบนเครื่องมีอยู่แล้วแต่ไม่ตรงกับรายการลงทะเบียนนี้ ระบบไม่ได้แก้ไขหรือลบข้อมูลใดๆ กรุณาให้ผู้ดูแลระบบตรวจสอบเครื่องก่อนดำเนินการต่อ";
  terminal_unconfirmed_title = "ไม่สามารถยืนยันบัญชีบนเครื่องได้";
  terminal_unconfirmed_body =
      "ระบบพยายามสร้างบัญชีแล้วแต่ยังไม่สามารถยืนยันได้จากเครื่องสแกน สามารถลองใหม่ได้อย่างปลอดภัย";
  terminal_in_progress_body = "คำสั่งของรายการนี้กำลังทำงานอยู่ กรุณารอสักครู่ก่อนลองใหม่";
  terminal_unavailable_title = "ไม่สามารถเชื่อมต่อเครื่องสแกนได้";
  terminal_unavailable_body =
      "ยังไม่มีการสร้างหรือแก้ไขบัญชีใดๆ — ระบบไม่สามารถอ่านรายชื่อบัญชีบนเครื่องได้ก่อนเริ่มดำเนินการ สามารถลองใหม่ได้อย่างปลอดภัยเมื่อเชื่อมต่อเครื่องได้แล้ว";
  terminal_reconciled_success =
      "ยืนยันบัญชีบนเครื่องแล้ว — บัญชีมีอยู่แล้วบนเครื่องและตรงกับรายการลงทะเบียนนี้";
  terminal_created_success = "สร้างบัญชีบนเครื่องเรียบร้อยแล้ว";
  enrollment_conflict_body =
      "รายการลงทะเบียนมีการเปลี่ยนสถานะแล้ว กรุณาโหลดข้อมูลล่าสุดแล้วลองอีกครั้ง";
  already_cancelled_body = "รายการนี้ถูกยกเลิกแล้ว";
  scan_not_found_yet_body = "ยังไม่พบการสแกน กรุณาให้บุคคลลองสแกนอีกครั้ง";
  active_enrollment_exists_body =
      "บุคคลนี้มีรายการลงทะเบียนที่กำลังดำเนินการอยู่แล้ว กรุณาดำเนินการรายการเดิมให้เสร็จก่อน";
  cancel_success_message = "ยกเลิกรายการลงทะเบียนเรียบร้อยแล้ว";
  reserve_success_message = "เริ่มลงทะเบียนเรียบร้อยแล้ว";
  fingerprint_window_active_message = "พร้อมแล้ว — ไปที่เครื่องสแกนได้เลย";
  fingerprint_confirmed_message = "ยืนยันการลงลายนิ้วมือแล้ว";
  scan_window_started_message = "กำลังรอการสแกนทดสอบ";
  scan_confirmed_message = "ยืนยันผลการทดสอบสแกนแล้ว";
  ready_for_mapping_success_message = "ส่งให้ผู้ดูแลยืนยันแล้ว";
  start_scan_window_button = "เริ่มทดสอบสแกน";
  badge_browser_action = "ทำที่คอมพิวเตอร์";
  badge_physical_action = "ทำที่เครื่องสแกน";
  badge_admin_action = "ต้องให้ผู้ดูแลระบบทำ";
  technical_details_toggle = "รายละเอียดทางเทคนิค";
  meta_employee_id_label = "รหัสบุคคล (ระบบ)";
  meta_terminal_uid_label = "รหัสอ้างอิงบนเครื่อง";
  meta_reserved_at_label = "เวลาที่จองรหัส";
  meta_account_created_label = "เวลาที่สร้างบัญชีบนเครื่อง";
  meta_fp_confirmed_at_label = "เวลาที่ยืนยันลายนิ้วมือ";
  meta_scan_confirmed_at_label = "เวลาที่ยืนยันการทดสอบสแกน";
  session_header_prefix = "รายการที่";
  target_terminal_label = "เครื่องสแกนเป้าหมาย";
  reserved_id_label = "รหัสที่จองไว้";
  reserved_by_prefix = "โดย";
  step_of_label = "ขั้นตอนที่";
  search_person_placeholder = "พิมพ์ชื่อเพื่อค้นหา...";
  no_person_match_found = "ไม่พบชื่อที่ค้นหา";
  fix_english_name_link = "ไปแก้ไขชื่อภาษาอังกฤษ →";
}
