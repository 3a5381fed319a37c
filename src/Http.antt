-- ===== src/Http.antt =====
-- src/http.rs and src/http/: the handlers, as functions of the shared state.
pub mod DmarcReports
pub mod TlsReports
pub mod Mails
pub mod Summary
pub mod Auth
pub mod Sources
pub mod Metrics
pub mod StaticFiles
pub mod Ips
pub mod Routes
pub mod Build
use dmarc_report_viewer.Common.{ℕ, String, Option}
use dmarc_report_viewer.Common.Ip.{IpAddr}

-- A response: a JSON value before it is printed, or a text.
pub data Body {ℓ} (T : Type ℓ) : Type ℓ where
  json : T → Body T
  text : String → Body T

pub record Response {ℓ} (T : Type ℓ) : Type ℓ where
  pub status : ℕ
  pub content_type : String
  pub body : Body T

abbrev pub ok_json {ℓ} : {T : Type ℓ} → T → Response T
ok_json v = record { status = 200; content_type = "application/json"; body = json v }

abbrev pub not_found {ℓ} : {T : Type ℓ} → String → Response T
not_found message = record { status = 404; content_type = "text/plain"; body = text message }

-- What the handlers take from the standard library's Unicode tables, from the `urlencoding` crate
-- and from the reader of IP addresses. The theorems hold whatever these functions are.
pub record HttpEnv : Type 0 where
  pub to_lowercase : String → String
  pub url_decode : String → Option String
  pub parse_ip : String → Option IpAddr
