-- ===== src/Mail.antt =====
-- src/mail.rs: the record of a mail. A body is its list of bytes; numbers of files are `usize`.
pub mod Decode
use dmarc_report_viewer.Common.{ℕ, String, Option, List, Bool}
use dmarc_report_viewer.Common.Int.{ℤ}

pub record Mail : Type 0 where
  pub id : String
  pub account : String
  pub folder : String
  pub uid : ℕ
  pub size : ℕ
  pub oversized : Bool
  pub date : ℤ
  pub subject : String
  pub sender : String
  pub to : String
  pub body : Option (List ℕ)
  pub xml_files : ℕ
  pub json_files : ℕ
  pub xml_parsing_errors : ℕ
  pub json_parsing_errors : ℕ
  pub dmarc_duplicates : List String
  pub tls_duplicates : List String
