-- ===== src/Http/TlsReports.antt =====
-- src/http/tls_reports.rs: headers of the SMTP TLS reports, the filtered list, single reports.
pub mod Flags
pub mod Filters
use mathlib.Core.Option
use dmarc_report_viewer.Common.{
  ℕ, String, Option, none, some, List, [], ◌∷◌, map, Bool, true, false, ◌||◌, ◌==◌, if◌then◌else◌,
  length, any, filter, is_none_or, ltb, bool_eq, string_eq,
}
use dmarc_report_viewer.Common.Int.{ℤ}
use dmarc_report_viewer.Common.Map
use dmarc_report_viewer.Common.Sorted.{sort, dedup}
use dmarc_report_viewer.Common.Ip.{IpAddr, ip_eq}
use dmarc_report_viewer.Tls
use dmarc_report_viewer.Tls.{PolicyType, PolicyResult, FailureDetails, policy_type_eq}
use dmarc_report_viewer.State.{AppState, TlsReportWithMailId}
use dmarc_report_viewer.Http.{Response, ok_json, not_found, HttpEnv}

pub record ReportHeader : Type 0 where
  pub hash : String
  pub id : String
  pub org : String
  pub domains : List String
  pub date_begin : ℤ
  pub date_end : ℤ
  pub records : ℕ
  pub flagged_sts : Bool
  pub flagged_tlsa : Bool
  pub flagged : Bool

-- The loop of `flags` over the policies, with its two variables.
unfoldable pub flags_loop : Bool → Bool → List PolicyResult → Bool × Bool
flags_loop sts_flagged tlsa_flagged [] = (sts_flagged, tlsa_flagged)
flags_loop sts_flagged tlsa_flagged (p ∷ rest) =
    let failed = ltb 0 p.summary.total_failure_session_count in
    let is_sts = p.policy.policy_type == PolicyType.sts in
    let is_tlsa = p.policy.policy_type == PolicyType.tlsa in
    flags_loop (if failed then (if is_sts then true else sts_flagged) else sts_flagged)
      (if failed
        then (if is_sts then tlsa_flagged else (if is_tlsa then true else tlsa_flagged))
        else tlsa_flagged)
      rest

unfoldable pub flags : Tls.Report → Bool × Bool
unfolding flags_loop
flags report = flags_loop false false report.policies

unfoldable pub from_report : String → Tls.Report → ReportHeader
unfolding sort dedup
from_report hash report =
    let (flagged_sts, flagged_tlsa) = flags report in
    record {
      hash = hash;
      id = report.report_id;
      org = report.organization_name;
      domains = dedup (sort (map (λ p. p.policy.policy_domain) report.policies));
      date_begin = report.date_range.start_datetime;
      date_end = report.date_range.end_datetime;
      records = length report.policies;
      flagged_sts = flagged_sts;
      flagged_tlsa = flagged_tlsa;
      flagged = flagged_sts || flagged_tlsa;
    }

pub record ReportFilters : Type 0 where
  pub id : Option String
  pub flagged : Option Bool
  pub flagged_sts : Option Bool
  pub flagged_tlsa : Option Bool
  pub domain : Option String
  pub org : Option String
  pub ip : Option String

-- Whether a failure of the policy names the address.
abbrev pub ip_eq_some : IpAddr → Option IpAddr → Bool
ip_eq_some ip none = false
ip_eq_some ip (some a) = a == ip

abbrev pub failed_from : IpAddr → Option (List FailureDetails) → Bool
failed_from ip none = false
failed_from ip (some failures) = any (λ f. ip_eq_some ip f.sending_mta_ip) failures

-- The filters on the header.
unfoldable pub select_headers : ReportFilters → List ReportHeader → List ReportHeader
select_headers f headers =
    let by_flagged = filter (λ h. is_none_or f.flagged (bool_eq h.flagged)) headers in
    let by_sts = filter (λ h. is_none_or f.flagged_sts (bool_eq h.flagged_sts)) by_flagged in
    filter (λ h. is_none_or f.flagged_tlsa (bool_eq h.flagged_tlsa)) by_sts

module _ (env : HttpEnv) where
  -- A value that cannot be decoded switches its filter off.
  unfoldable pub url_decode : ReportFilters → ReportFilters
  url_decode f = record f {
    domain = Option.map env.to_lowercase (Option.bind f.domain env.url_decode);
    org = Option.bind f.org env.url_decode;
    ip = Option.bind f.ip env.url_decode;
  }

  -- The filters on the stored report, in the order of the source.
  unfoldable pub select_reports :
      ReportFilters
      → Option IpAddr
      → List (String × TlsReportWithMailId)
      → List (String × TlsReportWithMailId)
  select_reports f ip_filter reports =
      let by_id = filter (λ e. is_none_or f.id (λ id. e.1.mail_id == id)) reports in
      let by_org =
        filter (λ e. is_none_or f.org (λ org. e.1.report.organization_name == org)) by_id in
      let by_domain =
        filter
          (λ e.
            is_none_or f.domain
              (λ fd. any (λ p. env.to_lowercase p.policy.policy_domain == fd) e.1.report.policies))
          by_org in
      filter
        (λ e.
          is_none_or ip_filter
            (λ ip. any (λ p. failed_from ip p.failure_details) e.1.report.policies))
        by_domain

  unfoldable pub list_handler : {L : Type 0} → AppState L → ReportFilters → List ReportHeader
  unfolding url_decode select_reports select_headers
  list_handler state filters =
      let f = url_decode filters in
      let ip_filter = Option.bind f.ip env.parse_ip in
      select_headers f
        (map (λ e. from_report e.0 e.1.report) (select_reports f ip_filter state.tls_reports))

unfoldable pub single_handler : {L : Type 0} → AppState L → String → Response TlsReportWithMailId
single_handler state id = elim (Map.get id state.tls_reports) [
  | some rwi ↦ ok_json rwi
  | none ↦ not_found "Cannot find report"
]

unfoldable pub json_handler : {L : Type 0} → AppState L → String → Response Tls.Report
json_handler state id = elim (Map.get id state.tls_reports) [
  | some rwi ↦ ok_json rwi.report
  | none ↦ not_found "Cannot find report"
]
