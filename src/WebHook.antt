-- ===== src/WebHook.antt =====
-- src/web_hook.rs: the call for a new mail, with the details of the mail in its address and its body.
-- The details are a `HashMap`: the list has them in the order of an iteration, which may be any.
pub mod Replace
pub mod Template
pub mod Order
use dmarc_report_viewer.Common.{
  ℕ, String, Option, none, some, List, [], ◌∷◌, Bool, true, false, if◌then◌else◌, length, filter,
  ◌==◌, string_eq,
}
use dmarc_report_viewer.Common.Map
use dmarc_report_viewer.Common.Result.{Result, ok, err, ◌>>=◌, context, require}
use dmarc_report_viewer.Common.Text.{to_string}
use dmarc_report_viewer.Common.Texts.{as_bytes, concat, replace}
use dmarc_report_viewer.Background.{values}
use dmarc_report_viewer.Config.{Configuration}
use dmarc_report_viewer.State.{AppState}

-- What the hook takes from other libraries: the `urlencoding` crate, the readers of methods and of
-- JSON, and the client that sends the request and answers with its status code.
pub record HookEnv : Type 0 where
  pub url_encode : String → String
  pub parse_method : String → Result String
  pub parse_headers : String → Result (List (String × String))
  pub http_request : String → String → List (String × String) → List ℕ → Result ℕ

abbrev pub placeholder : String → String
placeholder key = concat ("[" ∷ key ∷ "]" ∷ [])

-- The loop over the details
unfoldable pub inject_mail_details :
    (String → String) → List (String × String) → String → Bool → String
unfolding concat
inject_mail_details url_encode [] template url_encode_value = template
inject_mail_details url_encode ((key, value) ∷ details) template url_encode_value =
    let shown = if url_encode_value then url_encode value else value in
    inject_mail_details url_encode details (replace (placeholder key) shown template)
      url_encode_value

unfoldable pub get_mail_details :
    {L : Type 0} → AppState L → String → Result (List (String × String))
get_mail_details state mail_id = do
  mail ← require (Map.get mail_id state.mails) "Failed to find details for new mail"
  let dmarc_reports = length (filter (λ r. r.mail_id == mail_id) (values state.dmarc_reports))
  let tls_reports = length (filter (λ r. r.mail_id == mail_id) (values state.tls_reports))
  ok (
      ("id", mail_id)
      ∷ ("uid", to_string mail.uid)
      ∷ ("sender", mail.sender)
      ∷ ("subject", mail.subject)
      ∷ ("folder", mail.folder)
      ∷ ("account", mail.account)
      ∷ ("dmarc_reports", to_string dmarc_reports)
      ∷ ("tls_reports", to_string tls_reports)
      ∷ [])

abbrev headers_of : HookEnv → Option String → Result (List (String × String))
headers_of env none = ok []
headers_of env (some json) = context (env.parse_headers json) "Failed to parse optional header JSON"

abbrev body_of : Option String → (String → String) → List ℕ
body_of none inject = []
body_of (some body_str) inject = as_bytes (inject body_str)

-- `shuffle` is the order in which the details are gone through. The answer is the status code.
unfoldable pub mail_web_hook :
    {L : Type 0}
    → HookEnv
    → (List (String × String) → List (String × String))
    → Configuration
    → String
    → AppState L
    → Result ℕ
unfolding get_mail_details inject_mail_details
mail_web_hook env shuffle config mail_id state = do
  mail_details ← context (get_mail_details state mail_id) "Failed to get mail details"
  template ← require config.mail_web_hook_url "Failed to get web hook URL for new mails"
  let url = inject_mail_details env.url_encode (shuffle mail_details) template true
  method ←
      context (env.parse_method config.mail_web_hook_method)
        (concat ("Failed to parse string " ∷ config.mail_web_hook_method ∷ " as HTTP method" ∷ []))
  headers ← headers_of env config.mail_web_hook_headers
  let body =
      body_of config.mail_web_hook_body
        (λ body_str. inject_mail_details env.url_encode (shuffle mail_details) body_str false)
  context (env.http_request method url headers body) "Failed to send HTTP request"
