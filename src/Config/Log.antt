-- ===== src/Config/Log.antt =====
-- src/config.rs: what the program writes of its options into the log when it starts. `debug` is how an
-- optional text is printed with its quotes, and `debug_path` an optional path.
use dmarc_report_viewer.Common.{
  String, Option, List, [], ◌∷◌, Bool, true, false, is_none, if◌then◌else◌,
}
use mathlib.Core.Option
use dmarc_report_viewer.Common.Text.{to_string}
use dmarc_report_viewer.Common.Texts.{concat}
use dmarc_report_viewer.Config.{Configuration, ImapBodyRequest}

unfoldable pub display : Bool → String
display true = "true"
display false = "false"

-- The derived `Debug`
unfoldable pub debug_request : ImapBodyRequest → String
debug_request ImapBodyRequest.default = "Default"
debug_request ImapBodyRequest.rfc822 = "Rfc822"
debug_request ImapBodyRequest.body = "Body"

unfoldable pub hidden : Option String → String
hidden setting = if is_none setting then "None" else "Hidden"

abbrev line : String → String → String
line label value = concat (label ∷ ": " ∷ value ∷ [])

abbrev line_unit : String → String → String → String
line_unit label value unit = concat (label ∷ ": " ∷ value ∷ " " ∷ unit ∷ [])

module _ (debug debug_path : Option String → String) where
  unfoldable pub log : Configuration → List String
  unfolding display debug_request hidden
  log config =
      line "Log Level" config.log_level
      ∷ line "IMAP Host" config.imap_host
      ∷ line "IMAP Port" (to_string config.imap_port)
      ∷ line "IMAP STARTTLS" (display config.imap_starttls)
      ∷ line "IMAP TLS CA Certificate File" (debug_path config.imap_tls_ca_certs)
      ∷ line "IMAP TLS Disabled" (display config.imap_disable_tls)
      ∷ line "IMAP User" config.imap_user
      ∷ line "IMAP Folder" config.imap_folder
      ∷ line "IMAP DMARC Folder" (debug config.imap_folder_dmarc)
      ∷ line "IMAP TLS Folder" (debug config.imap_folder_tls)
      ∷ line_unit "IMAP Check Interval" (to_string config.imap_check_interval) "seconds"
      ∷ line "IMAP Schedule" (Option.get_or config.imap_check_schedule "None")
      ∷ line "IMAP Body Request" (debug_request config.imap_body_request)
      ∷ line "IMAP Chunk Size" (to_string config.imap_chunk_size)
      ∷ line "IMAP Timeout" (to_string config.imap_timeout)
      ∷ line "HTTP Binding" config.http_server_binding
      ∷ line "HTTP Port" (to_string config.http_server_port)
      ∷ line "HTTP User" config.http_server_user
      ∷ line "HTTPS Enabled" (display config.https_auto_cert)
      ∷ line "HTTPS Domain" (debug config.https_auto_cert_domain)
      ∷ line "HTTPS Mail" (debug config.https_auto_cert_mail)
      ∷ line "HTTPS Cache Dir" (debug_path config.https_auto_cert_cache)
      ∷ line "Disable Duplicate Filter" (display config.disable_duplicate_filter)
      ∷ line_unit "Maximum Mail Body Size" (to_string config.max_mail_size) "bytes"
      ∷ line "Mail Web Hook URL" (debug config.mail_web_hook_url)
      ∷ line "Mail Web Hook Method" config.mail_web_hook_method
      ∷ line "Mail Web Hook Headers" (hidden config.mail_web_hook_headers)
      ∷ line "Mail Web Hook Body" (hidden config.mail_web_hook_body)
      ∷ []
