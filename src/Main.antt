-- ===== src/Main.antt =====
-- src/main.rs: the start and the end of the program. Logging and the command line reader are left out; the
-- background task and the HTTP server run side by side until the server ends, see Main/Shared.
pub mod Shared
pub mod Always
pub mod Runs
pub mod Ends
use dmarc_report_viewer.Common.{ℕ, String, Option, none, some}
use dmarc_report_viewer.Common.Result.{Result, ok, err}
use dmarc_report_viewer.Common.Outcome.{Outcome, done, attempt, expect_ok, ◌>>=◌}
use dmarc_report_viewer.Config.{Configuration}
use dmarc_report_viewer.DnsClientCached.{HostCache}
use dmarc_report_viewer.DnsClientCached
use dmarc_report_viewer.State.{AppState, cache_size}
use dmarc_report_viewer.State
use dmarc_report_viewer.HealthCheck.{HealthCheckArgs, run_health_check_if_requested}
use dmarc_report_viewer.Http.Routes.{Acme, run_http_server}

-- What the calls of other libraries come to: the subscriber of the log, the clock, the request of the
-- health check, the servers, and the signal to the background task and its end.
pub record MainEnv : Type 0 where
  pub set_global_default : Result (Unit {0})
  pub now : Result ℕ
  pub http_request : String → Result ℕ
  pub parse_addr : String → Result String
  pub serve_http : String → Result (Unit {0})
  pub serve_https : String → Acme → Result (Unit {0})
  pub send_stop : Result (Unit {0})
  pub join_task : Result (Unit {0})

-- The program ends with an exit code, or with what `main` comes to.
pub data Exit : Type 0 where
  exited : ℕ → Exit
  returned : Outcome (Unit {0}) → Exit

-- `AppState::new` of the code, which makes the DNS client with its cache too
unfoldable pub new_states : {L : Type 0} → MainEnv → Outcome (HostCache × AppState L)
unfolding DnsClientCached.new State.new
new_states env = do
  dns_client ← expect_ok (DnsClientCached.new cache_size)
  start_time ← expect_ok env.now
  state ← expect_ok (State.new start_time)
  done (dns_client, state)

unfoldable pub run_app : Type 0 → MainEnv → Configuration → Outcome (Unit {0})
unfolding new_states run_http_server
run_app L env config = do
  subscriber ← expect_ok env.set_global_default
  states ← new_states {L = L} env
  server ←
      attempt (run_http_server env.parse_addr env.serve_http env.serve_https config)
        "Failed to start HTTP server"
  stopped ← expect_ok env.send_stop
  expect_ok env.join_task

unfoldable pub main : Type 0 → MainEnv → HealthCheckArgs → Configuration → Exit
unfolding run_app run_health_check_if_requested
main L env args config = elim (run_health_check_if_requested env.http_request args) [
  | some code ↦ exited code
  | none ↦ returned (run_app L env config)
]
