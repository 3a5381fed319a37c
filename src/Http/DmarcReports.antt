-- ===== src/Http/DmarcReports.antt =====
-- src/http/dmarc_reports.rs: headers of the DMARC reports, the filtered list, single reports.
pub mod Flags
pub mod Filters
use Prim.Native.String.{◌++◌}
use mathlib.Core.Option
use dmarc_report_viewer.Common.{
  ℕ, String, Option, none, some, List, [], ◌∷◌, map, Bool, true, false, not, ◌&&◌, ◌||◌, ◌==◌,
  if◌then◌else◌, length, any, filter, is_none_or, ltb, leb, bool_eq, string_eq,
}
use dmarc_report_viewer.Common.Map
use dmarc_report_viewer.Common.Ip.{IpAddr, ip_eq}
use dmarc_report_viewer.Dmarc
use dmarc_report_viewer.Dmarc.{
  DmarcResultType, DkimResultType, SpfResultType, DkimAuthResultType, SpfAuthResultType,
  dmarc_result_eq, dkim_result_eq, spf_result_eq, RecordType,
}
use dmarc_report_viewer.State.{AppState, DmarcReportWithMailId}
use dmarc_report_viewer.Http.{Response, text, ok_json, not_found, HttpEnv}

pub record ReportHeader : Type 0 where
  pub hash : String
  pub id : String
  pub org : String
  pub domain : String
  pub date_begin : ℕ
  pub date_end : ℕ
  pub records : ℕ
  pub flagged_dkim : Bool
  pub flagged_spf : Bool
  pub flagged_dmarc : Bool
  pub flagged : Bool

-- `if let Some(x) = … && *x != DmarcResultType::Pass`
abbrev pub policy_fails : Option DmarcResultType → Bool
policy_fails none = false
policy_fails (some r) = not (r == DmarcResultType.pass)

abbrev pub dkim_auth_fails : Option (List DkimAuthResultType) → Bool
dkim_auth_fails none = false
dkim_auth_fails (some dkim) = any (λ x. not (x.result == DkimResultType.pass)) dkim

abbrev pub spf_auth_fails : List SpfAuthResultType → Bool
spf_auth_fails spf = any (λ x. not (x.result == SpfResultType.pass)) spf

-- `matches!(…, Some(DmarcResultType::Pass))`
abbrev pub policy_passes : Option DmarcResultType → Bool
policy_passes none = false
policy_passes (some r) = r == DmarcResultType.pass

-- The loop of `flags` over the records, with its three variables.
unfoldable pub flags_loop : Bool → Bool → Bool → List RecordType → Bool × Bool × Bool
flags_loop dkim_flagged spf_flagged dmarc_flagged [] = (dkim_flagged, spf_flagged, dmarc_flagged)
flags_loop dkim_flagged spf_flagged dmarc_flagged (r ∷ rest) =
    let evaluated = r.row.policy_evaluated in
    let dkim' = if policy_fails evaluated.dkim then true else dkim_flagged in
    let spf' = if policy_fails evaluated.spf then true else spf_flagged in
    let dkim'' = if dkim_auth_fails r.auth_results.dkim then true else dkim' in
    let spf'' = if spf_auth_fails r.auth_results.spf then true else spf' in
    let dkim_eval_pass = policy_passes evaluated.dkim in
    let spf_eval_pass = policy_passes evaluated.spf in
    let dmarc' = if not dkim_eval_pass && not spf_eval_pass then true else dmarc_flagged in
    flags_loop dkim'' spf'' dmarc' rest

unfoldable pub flags : Dmarc.Report → Bool × Bool × Bool
unfolding flags_loop
flags report = flags_loop false false false report.records

unfoldable pub from_report : String → Dmarc.Report → ReportHeader
from_report hash report =
    let (flagged_dkim, flagged_spf, flagged_dmarc) = flags report in
    record {
      hash = hash;
      id = report.report_metadata.report_id;
      org = report.report_metadata.org_name;
      domain = report.policy_published.domain;
      date_begin = report.report_metadata.date_range.begin;
      date_end = report.report_metadata.date_range.end;
      records = length report.records;
      flagged = flagged_dkim || flagged_spf || flagged_dmarc;
      flagged_dkim = flagged_dkim;
      flagged_spf = flagged_spf;
      flagged_dmarc = flagged_dmarc;
    }

pub record ReportFilters : Type 0 where
  pub id : Option String
  pub flagged : Option Bool
  pub flagged_dkim : Option Bool
  pub flagged_spf : Option Bool
  pub flagged_dmarc : Option Bool
  pub domain : Option String
  pub org : Option String
  pub ip : Option String
  pub begin : Option ℕ
  pub end : Option ℕ
  pub records_gt : Option ℕ

-- The filters on the header.
unfoldable pub select_headers : ReportFilters → List ReportHeader → List ReportHeader
select_headers f headers =
    let by_flagged = filter (λ h. is_none_or f.flagged (bool_eq h.flagged)) headers in
    let by_dkim = filter (λ h. is_none_or f.flagged_dkim (bool_eq h.flagged_dkim)) by_flagged in
    let by_spf = filter (λ h. is_none_or f.flagged_spf (bool_eq h.flagged_spf)) by_dkim in
    let by_dmarc = filter (λ h. is_none_or f.flagged_dmarc (bool_eq h.flagged_dmarc)) by_spf in
    let by_date =
      filter
        (λ h.
          is_none_or f.begin (λ begin. leb begin h.date_end)
          && is_none_or f.end (λ end. leb h.date_begin end))
        by_dmarc in
    filter (λ h. is_none_or f.records_gt (λ threshold. ltb threshold h.records)) by_date

module _ (env : HttpEnv) where
  -- A value that cannot be decoded switches its filter off.
  unfoldable pub url_decode : ReportFilters → ReportFilters
  url_decode f = record f {
    domain = Option.map env.to_lowercase (Option.bind f.domain env.url_decode);
    org = Option.bind f.org env.url_decode;
    ip = Option.bind f.ip env.url_decode;
  }

  -- The filters on the stored report, in the order of the source.
  unfoldable pub select_reports :
      ReportFilters
      → Option IpAddr
      → List (String × DmarcReportWithMailId)
      → List (String × DmarcReportWithMailId)
  select_reports f ip_filter reports =
      let by_id = filter (λ e. is_none_or f.id (λ id. e.1.mail_id == id)) reports in
      let by_org =
        filter (λ e. is_none_or f.org (λ org. e.1.report.report_metadata.org_name == org)) by_id in
      let by_domain =
        filter
          (λ e.
            is_none_or f.domain (λ fd. env.to_lowercase e.1.report.policy_published.domain == fd))
          by_org in
      filter (λ e. is_none_or ip_filter (λ ip. any (λ r. r.row.source_ip == ip) e.1.report.records))
        by_domain

  unfoldable pub list_handler : {L : Type 0} → AppState L → ReportFilters → List ReportHeader
  unfolding url_decode select_reports select_headers
  list_handler state filters =
      let f = url_decode filters in
      let ip_filter = Option.bind f.ip env.parse_ip in
      select_headers f
        (map (λ e. from_report e.0 e.1.report) (select_reports f ip_filter state.dmarc_reports))

unfoldable pub single_handler : {L : Type 0} → AppState L → String → Response DmarcReportWithMailId
single_handler state id = elim (Map.get id state.dmarc_reports) [
  | some rwi ↦ ok_json rwi
  | none ↦ not_found "Cannot find report"
]

unfoldable pub json_handler : {L : Type 0} → AppState L → String → Response Dmarc.Report
json_handler state id = elim (Map.get id state.dmarc_reports) [
  | some rwi ↦ ok_json rwi.report
  | none ↦ not_found "Cannot find report"
]

-- The XML writer is a library's; its answer is put behind the declaration line.
unfoldable pub xml_handler :
    {L : Type 0} → (Dmarc.Report → String) → AppState L → String → Response (Dmarc.Report)
xml_handler to_xml state id = elim (Map.get id state.dmarc_reports) [
  | some rwi ↦ record {
    status = 200;
    content_type = "text/xml";
    body = text ("<?xml version=\"1.0\" encoding=\"UTF-8\" ?>\n" ++ to_xml rwi.report);
  }
  | none ↦ not_found "Cannot find report"
]
