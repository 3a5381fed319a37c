-- ===== src/HealthCheck.antt =====
-- src/health_check.rs: the address that the health check asks, and the exit code it ends with.
use dmarc_report_viewer.Common.{
  ℕ, String, Option, none, some, [], ◌∷◌, Bool, if◌then◌else◌, ◌==◌, string_eq, nat_eq,
}
use dmarc_report_viewer.Common.Result.{Result, ok, err}
use dmarc_report_viewer.Common.Text.{to_string}
use dmarc_report_viewer.Common.Texts.{concat}

pub record HealthCheckArgs : Type 0 where
  pub health_check : Bool
  pub http_server_port : ℕ
  pub http_server_binding : String
  pub https_auto_cert : Bool
  pub https_auto_cert_domain : Option String

-- The host of the address that the server is bound to
unfoldable pub bound_host : String → String
bound_host binding =
    if binding == "127.0.0.1"
    then "127.0.0.1"
    else if binding == "0.0.0.0"
    then "127.0.0.1"
    else if binding == "[::1]"
    then "[::1]"
    else if binding == "[::]"
    then "[::1]"
    else binding

abbrev check_url : String → String → ℕ → String
check_url protocol host port =
    concat (protocol ∷ "://" ∷ host ∷ ":" ∷ to_string port ∷ "/health" ∷ [])

abbrev plain_url : HealthCheckArgs → String
plain_url args = check_url "http" (bound_host args.http_server_binding) args.http_server_port

unfoldable pub create_check_url : HealthCheckArgs → String
unfolding bound_host
create_check_url args =
    if args.https_auto_cert
    then elim args.https_auto_cert_domain [
      | some https_host ↦ check_url "https" https_host 443
      | none ↦ plain_url args
    ]
    else plain_url args

-- The exit code, for what the request to an address answers with
unfoldable pub run_health_check : (String → Result ℕ) → HealthCheckArgs → ℕ
unfolding create_check_url
run_health_check http_request args = elim (http_request (create_check_url args)) [
  | ok status ↦ if status == 200 then 0 else 1
  | err e ↦ 1
]

-- There is an exit code only where the check was asked for; otherwise the program goes on.
unfoldable pub run_health_check_if_requested : (String → Result ℕ) → HealthCheckArgs → Option ℕ
unfolding run_health_check
run_health_check_if_requested http_request args =
    if args.health_check then some (run_health_check http_request args) else none
