-- ===== src/Samples/Requests.antt =====
-- The handlers at small inputs.
use mathlib.Core.List.{Perm}
use dmarc_report_viewer.Common.{
  ℕ, Bool, length, refl, ◌+◌, ◌%◌, ◌≡◌, ◌↔◌, ◌⊎◌, String, Option, some, List, [], ◌∷◌, map, true,
  false, In, Any, filter, arith, u64_mod,
}
use dmarc_report_viewer.Common.Int.{negsuc, pos}
use dmarc_report_viewer.Common.Ip.{ip_eq}
use dmarc_report_viewer.Common.Map.Keys.{IsDistinct}
use dmarc_report_viewer.Common.Sums.{sum}
use dmarc_report_viewer.Common.Text.{is_blank}
use dmarc_report_viewer.Common.Texts.{concat}
use dmarc_report_viewer.Background.{values}
use dmarc_report_viewer.Http.{ok_json}
use dmarc_report_viewer.Http.Auth.{AuthEnv, run, basic_auth_middleware}
use dmarc_report_viewer.Http.Auth.Access.{HasCredentials, runs_iff}
use dmarc_report_viewer.Http.DmarcReports as DR
use dmarc_report_viewer.Http.DmarcReports.{ReportHeader, ReportFilters}
use dmarc_report_viewer.Http.DmarcReports.Filters as DF
use dmarc_report_viewer.Http.DmarcReports.Filters.{In-list_handler_iff}
use dmarc_report_viewer.Http.DmarcReports.Flags.{DkimIssue, SpfIssue, DmarcIssue, flags_iff}
use dmarc_report_viewer.Http.Mails as M
use dmarc_report_viewer.Http.Mails.{MailFilters}
use dmarc_report_viewer.Http.Mails.Filters.{shown_mails, MailMatches, In-mail_list_handler_iff}
use dmarc_report_viewer.Http.Metrics.Domains.{Numbers, lines, handler-lines}
use dmarc_report_viewer.Http.Sources.{Source, ip_map, handler}
use dmarc_report_viewer.Http.Sources.Counts.{
  count_of, report_messages, report_sessions, count_of-ip_map,
}
use dmarc_report_viewer.Http.Sources.Order.{IsDescending, to_source, handler_lem}
use dmarc_report_viewer.Http.Summary.{
  Chrono, Reports, Summary, threshold_at, new, empty_dmarc, empty_tls,
}
use dmarc_report_viewer.Http.Summary.Dmarc as SD
use dmarc_report_viewer.Http.Summary.Tls as ST
use dmarc_report_viewer.Http.Summary.TimeSpan.{new-before_1970}
use dmarc_report_viewer.Http.Summary.Filters.{DmarcCounts, TlsCounts}
use dmarc_report_viewer.Http.Summary.Totals.{dmarc_totals, tls_totals}
use dmarc_report_viewer.Dmarc as D
use dmarc_report_viewer.Tls as T
use dmarc_report_viewer.Http.Metrics as ME
use dmarc_report_viewer.Http.TlsReports as TR
use dmarc_report_viewer.Http.TlsReports.Filters as TF
use dmarc_report_viewer.Http.TlsReports.Filters.{In-tls_list_handler_iff}
use dmarc_report_viewer.Mail.{Mail}
use dmarc_report_viewer.State.{DmarcReportWithMailId, TlsReportWithMailId}
use dmarc_report_viewer.Samples.{sender_ip, dmarc_report, tls_report, config, state, http_env}
use dmarc_report_viewer.Common.{any, ◌||◌, ◌==◌}
use dmarc_report_viewer.Http.Sources.{Issue, ReportType, issue_eq, report_type_eq}
use dmarc_report_viewer.Http.Sources.Details.{has_issue, has_kind}
use dmarc_report_viewer.Http.Sources.Kinds.{record_has, failure_of, is_of_type}
use dmarc_report_viewer.Http.Sources.Issues.{
  in_records, record_names, in_policies, failure_names, ip_map-names,
}

abbrev lower : String → String
lower s = s

-- Points in time are whole seconds here.
abbrev chrono : Chrono
chrono = record { hours_before = λ now hours. some (pos 150); timestamp = λ t. t }

abbrev long_ago : Chrono
long_ago = record { hours_before = λ now hours. some (negsuc 0); timestamp = λ t. t }

abbrev reports : Reports
reports = record { dmarc = state.dmarc_reports; tls = state.tls_reports }

abbrev or_none : Option Summary → Summary
or_none (some s) = s
or_none Option.none = record {
  mails = 0;
  last_update = 0;
  next_update = 0;
  dmarc = empty_dmarc 0 0;
  tls = empty_tls 0 0;
}

abbrev summary : Summary
summary = or_none (
    new http_env chrono (pos 200) (pos 200) 1 (record { xml = 1; json = 1 }) reports 1 2
      (some (pos 24)) (some "example.org"))

summary-new :
    new http_env chrono
      (pos 200)
      (pos 200)
      1
      (record { xml = 1; json = 1 })
      reports
      1
      2
      (some (pos 24))
      (some "example.org")
    ≡ some summary
unfolding new threshold_at
summary-new = refl

dmarc_totals_example :
    (included : D.Report → Bool) × ((r : D.Report)
      → (included r ≡ true)
        ↔ DmarcCounts http_env chrono (pos 200) (some (pos 24)) (some "example.org") r)
    × (summary.dmarc.files ≡ 1)
    × (summary.dmarc.reports ≡ length reports.dmarc)
    × SD.Counts lower summary.dmarc (filter included (map (λ e. e.1.report) reports.dmarc))
dmarc_totals_example =
    dmarc_totals http_env chrono (pos 200) (pos 200) 1 (record { xml = 1; json = 1 }) reports 1 2
      (some (pos 24)) (some "example.org") summary-new

tls_totals_example :
    (included : T.Report → Bool) × ((r : T.Report)
      → (included r ≡ true)
        ↔ TlsCounts http_env chrono (pos 200) (some (pos 24)) (some "example.org") r)
    × (summary.tls.files ≡ 1)
    × (summary.tls.reports ≡ length reports.tls)
    × ST.Counts lower summary.tls (filter included (map (λ e. e.1.report) reports.tls))
tls_totals_example =
    tls_totals http_env chrono (pos 200) (pos 200) 1 (record { xml = 1; json = 1 }) reports 1 2
      (some (pos 24)) (some "example.org") summary-new

new-before_1970_example :
    (s : Summary) × (new http_env long_ago
        (pos 200)
        (pos 200)
        1
        (record { xml = 1; json = 1 })
        reports
        1
        2
        (some (pos 24))
        Option.none
      ≡ some s)
    × (s.dmarc ≡ empty_dmarc 1 (length reports.dmarc))
new-before_1970_example =
    new-before_1970 http_env long_ago (pos 200) (pos 200) 1 (record { xml = 1; json = 1 }) reports 1
      2 (pos 24) Option.none refl refl refl (omega arith) (omega arith, tt)

flags_iff_example :
    (((DR.flags dmarc_report).0 ≡ true) ↔ Any DkimIssue dmarc_report.records)
    × (((DR.flags dmarc_report).1 ≡ true) ↔ Any SpfIssue dmarc_report.records)
    × (((DR.flags dmarc_report).2 ≡ true) ↔ Any DmarcIssue dmarc_report.records)
flags_iff_example = flags_iff dmarc_report

count_of-ip_map_example :
    count_of sender_ip (ip_map state) % u64_mod
    ≡ (sum (report_messages sender_ip) (map (λ w. w.report) (values state.dmarc_reports))
        + sum (report_sessions sender_ip) (map (λ w. w.report) (values state.tls_reports)))
      % u64_mod
count_of-ip_map_example = count_of-ip_map state sender_ip

ip_map-names_example :
    (has_issue sender_ip Issue.certificate_expired (ip_map state) ≡ (
      any
        (in_records (record_names sender_ip (record_has Issue.certificate_expired)))
        (map (λ w. w.report) (values state.dmarc_reports))
      || any
          (in_policies (
            failure_names sender_ip
              (λ f. is_of_type (failure_of Issue.certificate_expired) f.result_type)))
          (map (λ w. w.report) (values state.tls_reports))))
    × (has_kind sender_ip ReportType.tls (ip_map state) ≡ (
        any
          (in_records (record_names sender_ip (λ r. ReportType.dmarc == ReportType.tls)))
          (map (λ w. w.report) (values state.dmarc_reports))
        || any
            (in_policies (failure_names sender_ip (λ f. ReportType.tls == ReportType.tls)))
            (map (λ w. w.report) (values state.tls_reports))))
ip_map-names_example = ip_map-names state sender_ip Issue.certificate_expired ReportType.tls

handler_lem_example :
    (sources : List Source) × (handler state ≡ ok_json sources)
    × IsDescending sources
    × Perm sources (map to_source (ip_map state))
    × IsDistinct (ip_map state)
handler_lem_example = handler_lem state

abbrev auth_env : AuthEnv
auth_env = record { base64 = λ s. some (1 ∷ []); from_utf8 = λ bytes. some "user:secret" }

runs_iff_example :
    (basic_auth_middleware auth_env config (some (some "Basic dXNlcjpzZWNyZXQ=")) ≡ run) ↔ (
      (is_blank "secret" ≡ true)
      ⊎ HasCredentials auth_env config (some (some "Basic dXNlcjpzZWNyZXQ=")))
runs_iff_example = runs_iff auth_env config (some (some "Basic dXNlcjpzZWNyZXQ="))

abbrev report_filters : ReportFilters
report_filters = record {
  id = some "a";
  flagged = some true;
  flagged_dkim = Option.none;
  flagged_spf = Option.none;
  flagged_dmarc = Option.none;
  domain = some "example.org";
  org = Option.none;
  ip = Option.none;
  begin = some 50;
  end = Option.none;
  records_gt = some 1;
}

In-list_handler_iff_example :
    In (DR.from_report "h" dmarc_report) (DR.list_handler http_env state report_filters) ↔ (
      (e : String × DmarcReportWithMailId) × In e state.dmarc_reports
      × DF.ReportMatches http_env
          (DR.url_decode http_env report_filters)
          (DF.ip_filter_of http_env report_filters)
          e.1
      × (DR.from_report "h" dmarc_report ≡ DR.from_report e.0 e.1.report)
      × DF.HeaderMatches (DR.url_decode http_env report_filters) (DR.from_report "h" dmarc_report))
In-list_handler_iff_example =
    In-list_handler_iff http_env state report_filters (DR.from_report "h" dmarc_report)

abbrev tls_filters : TR.ReportFilters
tls_filters = record {
  id = some "a";
  flagged = some true;
  flagged_sts = some true;
  flagged_tlsa = Option.none;
  domain = some "example.org";
  org = Option.none;
  ip = Option.none;
}

In-tls_list_handler_iff_example :
    In (TR.from_report "t" tls_report) (TR.list_handler http_env state tls_filters) ↔ (
      (e : String × TlsReportWithMailId) × In e state.tls_reports
      × TF.ReportMatches http_env
          (TR.url_decode http_env tls_filters)
          (TF.ip_filter_of http_env tls_filters)
          e.1
      × (TR.from_report "t" tls_report ≡ TR.from_report e.0 e.1.report)
      × TF.HeaderMatches (TR.url_decode http_env tls_filters) (TR.from_report "t" tls_report))
In-tls_list_handler_iff_example =
    In-tls_list_handler_iff http_env state tls_filters (TR.from_report "t" tls_report)

abbrev mail_filters : MailFilters
mail_filters = record {
  sender = some "a@example.com";
  attachment = Option.none;
  oversized = some false;
  errors = Option.none;
  duplicates = some false;
  begin = some (pos 0);
  end = Option.none;
}

In-mail_list_handler_iff_example :
    (M.list_handler http_env state mail_filters ≡ ok_json (shown_mails http_env state mail_filters))
    × ((m : Mail)
        → In m (shown_mails http_env state mail_filters) ↔ (
            ((e : String × Mail) × In e state.mails × (m ≡ e.1))
            × MailMatches http_env.to_lowercase (M.url_decode http_env mail_filters) m))
In-mail_list_handler_iff_example = In-mail_list_handler_iff http_env state mail_filters

handler-lines_example :
    (dmarc : List (String × ℕ)) × (tls : List (String × ℕ)) × (ME.handler 5 state
      ≡ concat (lines 5 state dmarc tls))
    × Numbers state dmarc tls
handler-lines_example = handler-lines 5 state
