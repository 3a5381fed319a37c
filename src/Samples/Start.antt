-- ===== src/Samples/Start.antt =====
-- The start of the program and its shared state at small inputs.
use dmarc_report_viewer.Common.{
  ℕ, ◌%◌, ◌≡◌, refl, sym, ap, ◌∙◌, String, Option, some, List, [], ◌∷◌, map, true, length, u64_mod,
  string_eq,
}
use dmarc_report_viewer.Common.Int.{pos}
use dmarc_report_viewer.Common.Ip.{ip_eq}
use dmarc_report_viewer.Common.Map
use dmarc_report_viewer.Common.Result.{Result, ok, err}
use dmarc_report_viewer.CacheMap
use dmarc_report_viewer.CacheMap.Bounds.{IsValid}
use dmarc_report_viewer.Config.Log.{log}
use dmarc_report_viewer.Config.Secrets.{log-hides_secrets}
use dmarc_report_viewer.Imap.{ImapEnv}
use dmarc_report_viewer.Mail.{Mail}
use dmarc_report_viewer.State.{AppState, ReportParsingError}
use dmarc_report_viewer.State
use dmarc_report_viewer.Background.{bg_update, collect_mails, extract_all}
use dmarc_report_viewer.Background.Complete.{AllAccounted, AllFromFiles, bg_update-AllAccounted}
use dmarc_report_viewer.Background.Folders.{with_imap, bg_update-with_imap-IsLinked}
use dmarc_report_viewer.Background.Linked.{IsLinked}
use dmarc_report_viewer.Background.Errors.{counted_errors}
use dmarc_report_viewer.Background.Task.{Round, start_bg_task}
use dmarc_report_viewer.Http.{ok_json}
use dmarc_report_viewer.Http.Ips.{to_location_handler}
use dmarc_report_viewer.Http.Mails.{single_handler, errors_handler}
use dmarc_report_viewer.Main.Shared.{Reachable, started}
use dmarc_report_viewer.Main.Always.{Reachable-IsSound}
use dmarc_report_viewer.Main.Runs.{over_imap, task-Reachable}
use dmarc_report_viewer.Samples.{sender_ip, config, bg_env}
use dmarc_report_viewer.Samples.Readers.{imap_env, from_server, from_server_collected}

abbrev initial : AppState ℕ
initial = record {
  start_time = 1;
  first_update = true;
  mails = [];
  dmarc_reports = [];
  tls_reports = [];
  xml_files = 0;
  json_files = 0;
  last_update = 0;
  next_update = 0;
  last_update_duration = "0";
  parsing_errors = [];
  ip_location_cache = record { map = []; max_size = 10000; counter = 0 };
}

initial-Reachable : Reachable config initial
unfolding State.new CacheMap.new
initial-Reachable = started 1 refl

-- One round with a server that has one mail
abbrev rounds : List (ImapEnv × Round)
rounds =
    (
      imap_env,
      record {
        env = bg_env;
        now = ok 1000;
        elapsed = "1.5";
        upcoming = Option.none;
        local = pos 1000;
        stopped = true;
      },
    )
    ∷ []

abbrev later : AppState ℕ
later = (start_bg_task config (map (over_imap config) rounds) initial).0

-- A location that is asked for twice
abbrev with_location : AppState ℕ
with_location = (to_location_handler sender_ip (ok (some 7)) (λ s. s) initial).1

later-Reachable : Reachable config later
later-Reachable = task-Reachable config rounds initial initial-Reachable

Reachable-IsSound_example :
    IsLinked later
    × IsValid later.ip_location_cache
    × ((id : String) (m : Mail)
        → Map.get id later.mails ≡ some m
        → (single_handler later id ≡ ok_json m)
          × ((errors : List ReportParsingError) × (errors_handler later id ≡ ok_json errors)
              × (length errors % u64_mod ≡ counted_errors m % u64_mod)))
Reachable-IsSound_example = Reachable-IsSound config later later-Reachable

log-hides_secrets_example :
    log (λ o. "text") (λ o. "path") config
    ≡ log
        (λ o. "text")
        (λ o. "path")
        (record config {
          imap_password = "other";
          http_server_password = "";
          mail_web_hook_headers = Option.none;
          mail_web_hook_body = Option.none;
        })
log-hides_secrets_example =
    log-hides_secrets (λ o. "text") (λ o. "path") config "other" "" Option.none Option.none refl
      refl

-- The update of that round
abbrev or_initial : Result (AppState ℕ × List String) → AppState ℕ × List String
or_initial (ok r) = r
or_initial (err e) = (initial, [])

abbrev after_update : AppState ℕ × List String
after_update =
    or_initial (bg_update (with_imap imap_env bg_env config) config (ok 1000) "1.5" initial)

succeeds :
    (x : Result (AppState ℕ × List String))
    → ((r : AppState ℕ × List String) × (x ≡ ok r) × IsLinked r.0)
    → x ≡ ok ((or_initial x).0, (or_initial x).1)
succeeds x (r, e, linked) = e ∙ sym (ap (λ y. ok (or_initial y)) e)

update_succeeds :
    bg_update (with_imap imap_env bg_env config) config (ok 1000) "1.5" initial
    ≡ ok (after_update.0, after_update.1)
update_succeeds = succeeds _ (
    bg_update-with_imap-IsLinked imap_env bg_env config from_server 1000 "1.5" initial
      from_server_collected)

bg_update-AllAccounted_example :
    (mails : List (String × Mail)) × (collect_mails (with_imap imap_env bg_env config) config
      ≡ ok mails)
    × AllAccounted
        (with_imap imap_env bg_env config)
        config
        (extract_all (with_imap imap_env bg_env config) config mails).0
        after_update.0.dmarc_reports
        after_update.0.tls_reports
        after_update.0.mails
        after_update.0.parsing_errors
    × AllFromFiles
        (with_imap imap_env bg_env config)
        config
        (extract_all (with_imap imap_env bg_env config) config mails).0
        after_update.0.dmarc_reports
        after_update.0.tls_reports
bg_update-AllAccounted_example =
    bg_update-AllAccounted imap_env bg_env config (ok 1000) "1.5" initial after_update.0
      after_update.1 update_succeeds
