-- ===== src/I18n/Thai/People.antt =====
-- i18n/th.ts: the Thai texts of personnel and mappings.
use adms_server.I18n.Translations.People.{PersonnelTexts, MappingTexts}

abbrev pub personnel_th : PersonnelTexts
personnel_th = record {
  title = "ข้อมูลกำลังพลและบุคคล";
  subtitle = "ทะเบียนรายชื่อกำลังพลและสถานะการสแกนนิ้ว";
  thai_name = "ชื่อ-นามสกุล (ภาษาไทย)";
  english_name = "ชื่อ-นามสกุล (ภาษาอังกฤษ)";
  not_set = "— (ยังไม่ได้ระบุ)";
  personnel_id = "รหัสบุคคล / เครื่องหมาย";
  rank = "ยศ";
  rank_source_managed_hint = "นำเข้าจากไฟล์บัญชีกำลังพล แก้ไขที่นี่ไม่ได้";
  no_terminal_account_title = "ยังไม่มีบัญชีบนเครื่องสแกน";
  no_terminal_account_body = "บัญชีเดิมถูกนำออกจากเครื่องสแกนแล้ว ประวัติเดิมยังถูกเก็บไว้";
  start_new_enrollment_button = "ลงทะเบียนใหม่";
  position = "ตำแหน่ง";
  branch = "เหล่า / สังกัด";
  category = "ประเภทกำลังพล";
  scope = "กลุ่มเป้าหมาย";
  production_scope = "ต้องสแกนเวลา (Production)";
  excluded_scope = "ปฏิบัติหน้าที่พิเศษ";
  all_scopes = "ทุกกลุ่ม";
  edit_english_name = "แก้ไขชื่อภาษาอังกฤษ";
  english_name_placeholder = "เช่น Krittapon Madsen";
  save_english_name = "บันทึกชื่ออังกฤษ";
  cancel_edit = "ยกเลิก";
  update_success = "อัปเดตชื่อภาษาอังกฤษเรียบร้อยแล้ว";
  update_failed = "ไม่สามารถบันทึกชื่อได้";
  writes_disabled_notice = "ระบบอยู่ในโหมดดูข้อมูล (ไม่สามารถแก้ไขได้)";
  admin_only_notice = "เฉพาะผู้ดูแลระบบ (ADMIN) ที่แก้ไขได้";
  status_label = "สถานะ";
  status_active = "ใช้งานอยู่";
  status_inactive = "ย้ายออกแล้ว";
  deactivate_button = "ย้ายออก / เลิกใช้งาน";
  reactivate_button = "กลับเข้าทำงาน / เปิดใช้งานอีกครั้ง";
  deactivate_confirm_title = "ยืนยันว่าบุคคลนี้ย้ายออกหรือเลิกใช้งานแล้วหรือไม่?";
  deactivate_confirm_body =
      "ประวัติการลงเวลาจะไม่ถูกลบ ระบบจะหยุดการเชื่อมโยงกับเครื่องสแกนสำหรับรายการใหม่";
  deactivate_reason_label = "เหตุผล";
  deactivate_reason_placeholder = "เช่น ย้ายหน่วย, ลาออก, เกษียณ";
  deactivate_reason_required = "กรุณาระบุเหตุผล";
  deactivate_success = "บันทึกการย้ายออกเรียบร้อยแล้ว";
  reactivate_success = "เปิดใช้งานอีกครั้งเรียบร้อยแล้ว";
  terminal_cleanup_pending_notice =
      "บุคคลถูกปิดการใช้งานแล้ว ยังมีข้อมูลอยู่บนเครื่องสแกน กรุณาดำเนินการลบออกจากเครื่อง";
  filter_all = "ทั้งหมด";
  filter_active_only = "ใช้งานอยู่";
  filter_inactive_only = "ย้ายออกแล้ว";
  add_personnel_button = "เพิ่มกำลังพล";
  add_personnel_title = "เพิ่มกำลังพลใหม่";
  edit_personnel_button = "แก้ไขข้อมูล";
  edit_personnel_title = "แก้ไขข้อมูลกำลังพล";
  thai_full_name_label = "ชื่อ-นามสกุล (ภาษาไทย)";
  personnel_id_label = "หมายเลขประจำตัว (ถ้ามี)";
  display_name_required = "กรุณากรอกชื่อ-นามสกุล";
  duplicate_personnel_id_body =
      "พบข้อมูลกำลังพลนี้อยู่ในระบบแล้ว กรุณาตรวจสอบรายการเดิมก่อนเพิ่มใหม่";
  create_success_title = "เพิ่มกำลังพลเรียบร้อยแล้ว";
  go_to_enrollment_button = "ลงทะเบียนเครื่องสแกน";
  english_name_required_for_terminal_hint = "กรุณากรอกชื่อภาษาอังกฤษก่อนลงทะเบียนเครื่องสแกน";
  select_rank_placeholder = "— เลือกยศ —";
  export_csv_button = "ส่งออก CSV";
  import_csv_button = "นำเข้า CSV";
  import_csv_title = "นำเข้าข้อมูลกำลังพลจาก CSV";
  download_template_button = "ดาวน์โหลดไฟล์ตัวอย่างสำหรับเพิ่มกำลังพล";
  confirm_import_button = "ยืนยันการนำเข้า";
  csv_malformed_body = "ไฟล์ไม่ถูกต้อง กรุณาตรวจสอบรูปแบบไฟล์และลองใหม่อีกครั้ง";
  csv_new_label = "เพิ่มใหม่";
  csv_update_label = "แก้ไข";
  csv_unchanged_label = "ข้อมูลถูกต้องอยู่แล้ว";
  csv_error_label = "มีปัญหา";
  import_committed_message = "นำเข้าสำเร็จ: เพิ่มใหม่ {created} คน แก้ไข {updated} คน";
}

abbrev pub mappings_th : MappingTexts
mappings_th = record {
  title = "ยืนยันความถูกต้องตัวบุคคล";
  subtitle = "การจับคู่ตัวตนที่ผ่านการตรวจสอบโดยผู้ดูแลระบบ";
  verified_mappings = "รายการที่ยืนยันความถูกต้องแล้ว";
  valid_from = "มีผลตั้งแต่";
  valid_to = "สิ้นสุดเมื่อ";
  verified_by = "ผู้ยืนยัน";
  verified_at = "เวลาที่ยืนยัน";
  active_mapping = "กำลังใช้งาน";
  historical_mapping = "หมดอายุแล้ว";
  admin_authority_title = "อำนาจการยืนยันตัวบุคคล (เฉพาะผู้ดูแลระบบ)";
  admin_authority_desc = "การจับคู่จะเกิดขึ้นเฉพาะเมื่อมีหลักฐานการทดสอบสแกนนิ้วครบถ้วน";
  create_mapping_button = "ยืนยันการจับคู่ตัวบุคคล";
  temporal_footer_note =
      "ระบบจะจับคู่รายการสแกนกับบุคคลเฉพาะช่วงเวลาที่การยืนยันตัวบุคคลนั้นมีผลอยู่เท่านั้น";
  confirm_title = "ยืนยันการเชื่อมตัวบุคคลนี้หรือไม่?";
  confirm_person_label = "บุคคล";
  confirm_terminal_label = "เครื่องสแกน";
  confirm_scan_label = "เวลาที่ทดสอบสแกน";
  confirm_effective_label = "มีผลตั้งแต่";
  confirm_warning =
      "การดำเนินการนี้จะเชื่อมตัวตนของบุคคลนี้กับบัญชีเครื่องสแกนนี้ กรุณาตรวจสอบชื่อและเวลาที่สแกนให้ถูกต้องก่อนยืนยัน";
  evidence_incomplete_body = "ข้อมูลสำหรับยืนยันยังไม่ครบ กรุณาตรวจสอบขั้นตอนก่อนหน้า";
  mapping_conflict_body = "มีการยืนยันรหัสเครื่องนี้กับบุคคลอื่นแล้ว กรุณาตรวจสอบก่อนดำเนินการ";
  already_mapped_body = "รายการนี้ได้รับการยืนยันแล้ว";
  current_section_title = "ผู้ใช้ที่ยืนยันและกำลังใช้งานอยู่";
  current_section_empty = "ยังไม่มีผู้ใช้ที่กำลังใช้งานเครื่องสแกน";
  history_section_title = "ประวัติการยืนยัน";
  history_section_empty = "ยังไม่มีประวัติ";
  removed_from_terminal_state = "นำออกจากเครื่องแล้ว";
  ended_state = "สิ้นสุดการใช้งานแล้ว";
  started_label = "เริ่มใช้งาน";
  ended_label = "สิ้นสุดการใช้งาน";
  former_terminal_id_label = "รหัสเครื่องเดิม";
  map_id_column = "รหัสรายการ";
  verification_method_column = "วิธียืนยัน";
  eligible_enrollment_label = "รายการที่พร้อมยืนยันตัวบุคคล";
  select_eligible_session_placeholder = "— เลือกรายการ —";
  verification_note_label = "บันทึกการยืนยัน";
  verification_note_placeholder = "ระบุหลักฐานอ้างอิงและการตรวจสอบจริง";
  no_eligible_enrollments = "ยังไม่มีรายการที่พร้อมยืนยันตัวบุคคลในขณะนี้";
  select_and_fill_required = "กรุณาเลือกรายการ และกรอกผู้ยืนยันกับบันทึกให้ครบ";
  human_field_label = "บุคคล";
  terminal_account_field_label = "บัญชีบนเครื่องสแกน";
  controlled_scan_evidence_label = "หลักฐานการทดสอบสแกน";
}
