-- ===== src/Config/Secrets.antt =====
-- src/config.rs: the log tells no secret.
use dmarc_report_viewer.Common.{◌≡◌, refl, String, Option, is_none}
use dmarc_report_viewer.Config.{Configuration}
use dmarc_report_viewer.Config.Log.{log, hidden}

-- The log is the same whatever the two passwords are, and the same for any headers and any body of the web
-- hook, but for whether there are some.
pub log-hides_secrets :
    (debug debug_path : Option String → String) (config : Configuration)
    (imap_password http_server_password : String) (headers body : Option String)
    → is_none headers ≡ is_none config.mail_web_hook_headers
    → is_none body ≡ is_none config.mail_web_hook_body
    → log debug debug_path config
      ≡ log debug debug_path (record config {
        imap_password = imap_password;
        http_server_password = http_server_password;
        mail_web_hook_headers = headers;
        mail_web_hook_body = body;
      })
unfolding log hidden
log-hides_secrets debug debug_path config imap_password http_server_password headers body h b =
    rw (h, b) refl
