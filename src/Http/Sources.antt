-- ===== src/Http/Sources.antt =====
-- src/http/sources.rs: the IP addresses of all reports with their messages and issues.
pub mod Counts
pub mod Order
pub mod Kinds
pub mod Details
pub mod Issues
use mathlib.Core.List.{foldl}
use dmarc_report_viewer.Common.{
  ℕ, String, Option, none, some, List, [], ◌∷◌, map, Bool, true, false, not, ◌==◌, if◌then◌else◌,
  any, ltb, Eq, eq_of_discrete, add_u64, or_empty,
}
use dmarc_report_viewer.Common.Ip.{IpAddr, ip_eq}
use dmarc_report_viewer.Common.Map
use dmarc_report_viewer.Dmarc as D
use dmarc_report_viewer.Dmarc.{
  DmarcResultType, DkimResultType, SpfResultType, dmarc_result_eq, dkim_result_eq, spf_result_eq,
  RecordType,
}
use dmarc_report_viewer.Tls as T
use dmarc_report_viewer.Tls.{FailureResultType, FailureDetails, PolicyResult}
use dmarc_report_viewer.State.{AppState}
use dmarc_report_viewer.Background.{values}
use dmarc_report_viewer.Http.{Response, ok_json}
use dmarc_report_viewer.Http.DmarcReports.{policy_fails, dkim_auth_fails, spf_auth_fails}

pub data Issue : Type 0 where
  spf_policy dkim_policy spf_auth dkim_auth starttls_not_supported certificate_host_mismatch
        certificate_expired certificate_not_trusted validation_failure tlsa_invalid dnssec_invalid
        dane_required sts_policy_fetch_error sts_policy_invalid sts_webpki_invalid :
      Issue

pub data ReportType : Type 0 where
  dmarc tls : ReportType

unfoldable pub Issue-discrete : Discrete Issue
Issue-discrete = hlevel

unfoldable pub ReportType-discrete : Discrete ReportType
ReportType-discrete = hlevel

instance abbrev pub issue_eq : Eq Issue
issue_eq = eq_of_discrete Issue-discrete

instance abbrev pub report_type_eq : Eq ReportType
report_type_eq = eq_of_discrete ReportType-discrete

-- `HashSet` is a list without repetition, whose order does not matter.
abbrev pub set_insert : {A : Type 0} ⦃e : Eq A⦄ → A → List A → List A
set_insert x xs = if any (λ y. y == x) xs then xs else x ∷ xs

pub record SourceDetails : Type 0 where
  pub count : ℕ
  pub domain : String
  pub issues : List Issue
  pub types : List ReportType

pub record Source : Type 0 where
  pub ip : IpAddr
  pub details : SourceDetails

abbrev pub insert_if : Bool → Issue → List Issue → List Issue
insert_if b issue issues = if b then set_insert issue issues else issues

unfoldable pub detect_dmarc_issues : RecordType → List Issue → List Issue
detect_dmarc_issues r issues = insert_if (spf_auth_fails r.auth_results.spf) Issue.spf_auth (
    insert_if (dkim_auth_fails r.auth_results.dkim) Issue.dkim_auth (
      insert_if (policy_fails r.row.policy_evaluated.spf) Issue.spf_policy
        (insert_if (policy_fails r.row.policy_evaluated.dkim) Issue.dkim_policy issues)))

unfoldable pub tls_issue : FailureResultType → Issue
tls_issue FailureResultType.starttls_not_supported = Issue.starttls_not_supported
tls_issue FailureResultType.certificate_host_mismatch = Issue.certificate_host_mismatch
tls_issue FailureResultType.certificate_expired = Issue.certificate_expired
tls_issue FailureResultType.certificate_not_trusted = Issue.certificate_not_trusted
tls_issue FailureResultType.validation_failure = Issue.validation_failure
tls_issue FailureResultType.tlsa_invalid = Issue.tlsa_invalid
tls_issue FailureResultType.dnssec_invalid = Issue.dnssec_invalid
tls_issue FailureResultType.dane_required = Issue.dane_required
tls_issue FailureResultType.sts_policy_fetch_error = Issue.sts_policy_fetch_error
tls_issue FailureResultType.sts_policy_invalid = Issue.sts_policy_invalid
tls_issue FailureResultType.sts_webpki_invalid = Issue.sts_webpki_invalid

abbrev pub IpMap : Type 0
IpMap = List (IpAddr × SourceDetails)

abbrev pub new_details : String → Option SourceDetails → SourceDetails
new_details domain none = record { count = 0; domain = domain; issues = []; types = [] }
new_details domain (some details) = details

-- `entry(ip).or_insert(…)`, then the changes to the entry
unfoldable pub touch : IpAddr → String → ℕ → (List Issue → List Issue) → ReportType → IpMap → IpMap
touch ip domain n add_issues kind m =
    let details = new_details domain (Map.get ip m) in
    Map.insert ip
      (record details {
        count = add_u64 details.count n;
        issues = add_issues details.issues;
        types = set_insert kind details.types;
      })
      m

unfoldable pub dmarc_record : String → IpMap → RecordType → IpMap
unfolding touch detect_dmarc_issues
dmarc_record domain m r =
    touch r.row.source_ip domain r.row.count (detect_dmarc_issues r) ReportType.dmarc m

unfoldable pub dmarc_report : IpMap → D.Report → IpMap
unfolding dmarc_record
dmarc_report m report = foldl (dmarc_record report.policy_published.domain) m report.records

unfoldable pub tls_failure : String → IpMap → FailureDetails → IpMap
unfolding touch tls_issue
tls_failure domain m failure = elim failure.sending_mta_ip [
  | none ↦ m
  | some ip ↦
      touch ip domain failure.failed_session_count (set_insert (tls_issue failure.result_type))
        ReportType.tls m
]

-- A policy without failure details is skipped.
unfoldable pub tls_policy : IpMap → PolicyResult → IpMap
unfolding tls_failure
tls_policy m policy =
    foldl (tls_failure policy.policy.policy_domain) m (or_empty policy.failure_details)

unfoldable pub tls_report : IpMap → T.Report → IpMap
unfolding tls_policy
tls_report m report = foldl tls_policy m report.policies

unfoldable pub ip_map : {L : Type 0} → AppState L → IpMap
unfolding dmarc_report tls_report
ip_map state =
    foldl tls_report (foldl dmarc_report [] (map (λ w. w.report) (values state.dmarc_reports)))
      (map (λ w. w.report) (values state.tls_reports))

-- `sort_by_key` with the reversed count: a stable sort by falling counts
unfoldable pub place : Source → List Source → List Source
place s [] = s ∷ []
place s (t ∷ rest) =
    let later = place s rest in
    if ltb s.details.count t.details.count then t ∷ later else s ∷ t ∷ rest

unfoldable pub sort_by_count : List Source → List Source
unfolding place
sort_by_count [] = []
sort_by_count (s ∷ rest) = place s (sort_by_count rest)

unfoldable pub handler : {L : Type 0} → AppState L → Response (List Source)
unfolding ip_map sort_by_count
handler state =
    ok_json (sort_by_count (map (λ e. record { ip = e.0; details = e.1 }) (ip_map state)))
