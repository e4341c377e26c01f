-- ===== src/I18n/Thai/Scanner.antt =====
-- i18n/th.ts: the Thai texts of the management of the terminal.
use adms_server.I18n.Translations.Scanner.{TerminalTexts}

abbrev pub terminal_management_th : TerminalTexts
terminal_management_th = record {
  title = "จัดการเครื่องสแกนลายนิ้วมือ";
  subtitle = "ตรวจสอบผู้ใช้งาน ลายนิ้วมือ และนำผู้ที่ย้ายออกแล้วออกจากเครื่อง";
  name_column = "ชื่อบุคคล";
  terminal_id_column = "รหัสเครื่อง";
  device_column = "เครื่อง";
  human_status_column = "สถานะบุคคล";
  account_status_column = "สถานะบัญชีบนเครื่อง";
  fingerprint_status_column = "สถานะลายนิ้วมือ";
  mapping_status_column = "การเชื่อมโยง";
  account_present = "พร้อมใช้งาน";
  account_absent = "ไม่พบบัญชีในเครื่อง";
  fingerprint_present = "มีลายนิ้วมือ";
  fingerprint_absent = "ไม่มีลายนิ้วมือ";
  fingerprint_unknown = "ต้องตรวจสอบ";
  human_active = "ใช้งานอยู่";
  human_inactive = "ย้ายออกแล้ว";
  human_unlinked = "ยังไม่เชื่อมโยงกับบุคคล";
  mapping_open = "เชื่อมโยงอยู่";
  mapping_closed = "เชื่อมโยงแล้ว (ปิดแล้ว)";
  mapping_none = "ยังไม่เชื่อมโยง";
  device_unreachable = "ติดต่อเครื่องไม่ได้";
  reenroll_button = "ลงลายนิ้วใหม่";
  remove_fingerprint_button = "ลบลายนิ้วมือ";
  remove_account_button = "นำผู้ใช้ออกจากเครื่อง";
  refresh_button = "ตรวจสอบอีกครั้ง";
  remove_fingerprint_confirm_title = "ลบลายนิ้วมือหรือไม่?";
  remove_fingerprint_confirm_body = "บัญชีผู้ใช้จะยังอยู่ในเครื่อง และประวัติการสแกนเดิมจะไม่ถูกลบ";
  remove_account_confirm_title = "นำออกจากเครื่องสแกนหรือไม่?";
  remove_account_confirm_body =
      "บุคคลและประวัติการสแกนเดิมจะยังอยู่ในระบบ แต่จะไม่สามารถใช้บัญชีนี้สแกนที่เครื่องได้อีก";
  remove_account_active_warning =
      "บุคคลนี้ยังใช้งานอยู่ หากลบผู้ใช้ออกจากเครื่อง บุคคลนี้จะไม่สามารถสแกนด้วยบัญชีนี้ได้";
  remove_account_acknowledge_label = "เข้าใจแล้ว ดำเนินการต่อ";
  reenroll_confirm_title = "เริ่มลงลายนิ้วมือใหม่หรือไม่?";
  reenroll_confirm_body = "ให้บุคคลไปที่เครื่องสแกนเพื่อวางนิ้วตามที่เครื่องแจ้ง";
  reenroll_cannot_cancel_notice = "เมื่อเริ่มแล้วไม่สามารถยกเลิกกลางคันได้ กรุณารอจนเสร็จสิ้น";
  reenroll_in_progress = "กำลังรอเครื่อง กรุณาให้บุคคลวางนิ้วที่เครื่องสแกน...";
  reenroll_success = "ลงลายนิ้วมือสำเร็จ";
  reenroll_failed = "ไม่สำเร็จ กรุณาลองใหม่";
  fingerprint_remove_success = "ลบลายนิ้วมือเรียบร้อยแล้ว";
  account_remove_success = "นำผู้ใช้ออกจากเครื่องเรียบร้อยแล้ว";
  already_absent_notice = "รายการนี้ไม่มีอยู่ในเครื่องแล้ว";
  viewer_no_access = "คุณไม่มีสิทธิ์ดำเนินการนี้";
}
