-- ===== src/Config.antt =====
-- src/config.rs: the options, and the words of the IMAP body request.
pub mod Log
pub mod Secrets
use dmarc_report_viewer.Common.{ℕ, String, Option, Bool}

pub data ImapBodyRequest : Type 0 where
  default rfc822 body : ImapBodyRequest

unfoldable pub to_request_string : ImapBodyRequest → String
to_request_string ImapBodyRequest.default = "RFC822 BODY[]"
to_request_string ImapBodyRequest.rfc822 = "RFC822"
to_request_string ImapBodyRequest.body = "BODY[]"

-- The log level, the schedule and the address of the DNS server have types of other libraries; they are
-- kept as they print, and the schedule as its source.
pub record Configuration : Type 0 where
  pub imap_host : String
  pub imap_user : String
  pub imap_password : String
  pub imap_port : ℕ
  pub imap_starttls : Bool
  pub imap_tls_ca_certs : Option String
  pub imap_disable_tls : Bool
  pub imap_folder : String
  pub imap_folder_dmarc : Option String
  pub imap_folder_tls : Option String
  pub imap_body_request : ImapBodyRequest
  pub imap_timeout : ℕ
  pub imap_chunk_size : ℕ
  pub imap_check_interval : ℕ
  pub imap_check_schedule : Option String
  pub http_server_port : ℕ
  pub http_server_binding : String
  pub http_server_user : String
  pub http_server_password : String
  pub https_auto_cert : Bool
  pub https_auto_cert_mail : Option String
  pub https_auto_cert_cache : Option String
  pub https_auto_cert_domain : Option String
  pub log_level : String
  pub disable_duplicate_filter : Bool
  pub max_mail_size : ℕ
  pub mail_web_hook_url : Option String
  pub mail_web_hook_method : String
  pub mail_web_hook_headers : Option String
  pub mail_web_hook_body : Option String
  pub dns_server : String
  pub dns_timeout : ℕ
