-- ===== src/Main/Ends.antt =====
-- src/main.rs: how the program ends.
use mathlib.Core.Logic.{◌↔◌}
use dmarc_report_viewer.Common.{ℕ, ◌≡◌, refl, ap, true, false, nat_eq, arith}
use dmarc_report_viewer.Common.Result.{ok}
use dmarc_report_viewer.Common.Outcome.{
  done, attempt, expect_ok, >>=-eq-done, done-expect_ok, done-attempt,
}
use dmarc_report_viewer.Config.{Configuration}
use dmarc_report_viewer.CacheMap
use dmarc_report_viewer.DnsClientCached
use dmarc_report_viewer.State
use dmarc_report_viewer.HealthCheck.{
  HealthCheckArgs, create_check_url, run_health_check, run_health_check_if_requested,
}
use dmarc_report_viewer.Http.Routes.{run_http_server}
use dmarc_report_viewer.Main.{MainEnv, exited, returned, new_states, run_app, main}

module _ (L : Type 0) (env : MainEnv) (args : HealthCheckArgs) (config : Configuration) where
  -- The program ends with exit code 0 before it starts exactly if the health check was asked for and its
  -- request is answered with status 200.
  pub exited_iff :
      (main L env args config ≡ exited 0)
      ↔ (args.health_check ≡ true) × (env.http_request (create_check_url args) ≡ ok 200)
  unfolding main run_health_check_if_requested run_health_check
  exited_iff = (λ h. ground arith, λ h. ground arith)

  run_app_iff :
      (run_app L env config ≡ done tt)
      ↔ (env.set_global_default ≡ ok tt)
        × ((now : ℕ) × (env.now ≡ ok now))
        × (run_http_server env.parse_addr env.serve_http env.serve_https config ≡ ok tt)
        × (env.send_stop ≡ ok tt)
        × (env.join_task ≡ ok tt)
  unfolding run_app new_states DnsClientCached.new State.new CacheMap.new
  run_app_iff = (
    λ h.
        let (a, p, h1) = >>=-eq-done (expect_ok env.set_global_default) _ h in
        let (s, q, h2) = >>=-eq-done (new_states env) _ h1 in
        let (now, r, h3) = >>=-eq-done (expect_ok env.now) _ q in
        let (b, u, h4) =
          >>=-eq-done
            (attempt (run_http_server env.parse_addr env.serve_http env.serve_https config) _) _
            h2 in
        let (c, v, w) = >>=-eq-done (expect_ok env.send_stop) _ h4 in
        (
          done-expect_ok env.set_global_default p,
          (now, done-expect_ok env.now r),
          done-attempt _ _ u,
          done-expect_ok env.send_stop v,
          done-expect_ok env.join_task w,
        ),
    λ (a, (now, b), c, d, e). rw (a, b, c, d, e, run_app, new_states) refl,
  )

  -- Where no health check is asked for, `main` returns without an error exactly if the log and the clock
  -- work, the server ends without an error, and the background task takes the signal and is joined.
  pub returned_iff :
      args.health_check ≡ false
      → (main L env args config ≡ returned (done tt))
        ↔ (env.set_global_default ≡ ok tt)
          × ((now : ℕ) × (env.now ≡ ok now))
          × (run_http_server env.parse_addr env.serve_http env.serve_https config ≡ ok tt)
          × (env.send_stop ≡ ok tt)
          × (env.join_task ≡ ok tt)
  unfolding main run_health_check_if_requested
  returned_iff h = rw (h, main) (λ e. run_app_iff.0 cc, λ p. ap returned (run_app_iff.1 p))
