-- ===== src/Http/Sources/Issues.antt =====
-- src/http/sources.rs: the issues of each IP address, and the kinds of reports that name it.
use dmarc_report_viewer.Common.{
  String, ◌≡◌, ap, ◌∙◌, Option, none, some, [], map, Bool, false, ◌==◌, ◌||◌, ◌&&◌, any, or_empty,
  arith,
}
use dmarc_report_viewer.Common.Ip.{IpAddr, ip_eq}
use dmarc_report_viewer.Common.Map
use dmarc_report_viewer.Common.Map.{get-insert}
use dmarc_report_viewer.Background.{values}
use dmarc_report_viewer.Dmarc as D
use dmarc_report_viewer.Dmarc.{RecordType}
use dmarc_report_viewer.Tls as T
use dmarc_report_viewer.Tls.{FailureDetails, PolicyResult}
use dmarc_report_viewer.State.{AppState}
use dmarc_report_viewer.Http.Sources.{
  Issue, ReportType, IpMap, touch, set_insert, tls_issue, detect_dmarc_issues, issue_eq,
  report_type_eq, dmarc_record, dmarc_report, tls_failure, tls_policy, tls_report, ip_map,
}
use dmarc_report_viewer.Common.Sums.{foldl-any}
use dmarc_report_viewer.Http.Sources.Details.{
  has, has_issue, has_kind, has-set_insert, detect_dmarc_issues-has, has_issue-touch,
  has_kind-touch,
}
use dmarc_report_viewer.Http.Sources.Kinds.{record_has, failure_of, is_of_type, tls_issue_lem}

-- Whether a record is of an address and holds something, a failure names it and does, and a report has such
-- a record or such a failure
abbrev pub record_names : IpAddr → (RecordType → Bool) → RecordType → Bool
record_names ip holds r = r.row.source_ip == ip && holds r

abbrev pub in_records : (RecordType → Bool) → D.Report → Bool
in_records p report = any p report.records

abbrev pub is_sender : IpAddr → Option IpAddr → Bool
is_sender ip none = false
is_sender ip (some sender) = sender == ip

abbrev pub failure_names : IpAddr → (FailureDetails → Bool) → FailureDetails → Bool
failure_names ip holds f = is_sender ip f.sending_mta_ip && holds f

abbrev pub in_policies : (FailureDetails → Bool) → T.Report → Bool
in_policies p report =
    any (λ (x : PolicyResult). any p (or_empty x.failure_details)) report.policies

module _ (ip : IpAddr) (found : IpMap → Bool) (in_record : RecordType → Bool)
    (in_failure : FailureDetails → Bool)
    (record_step : (domain : String) (m : IpMap) (r : RecordType)
      → found (dmarc_record domain m r) ≡ (found m || in_record r))
    (failure_step : (domain : String) (m : IpMap) (f : FailureDetails)
      → found (tls_failure domain m f) ≡ (found m || in_failure f)) where
  -- What each record and each failure may bring in, the whole map has exactly if one of them does.
  found-ip_map :
      {L : Type 0} (state : AppState L)
      → found (ip_map state) ≡ (
          (found []
            || any (in_records in_record) (map (λ w. w.report) (values state.dmarc_reports)))
          || any (in_policies in_failure) (map (λ w. w.report) (values state.tls_reports)))
  unfolding ip_map dmarc_report tls_report tls_policy
  found-ip_map state =
      foldl-any tls_report found (in_policies in_failure)
        (λ m r.
          foldl-any tls_policy found
            (λ (x : PolicyResult). any in_failure (or_empty x.failure_details))
            (λ m p.
              foldl-any (tls_failure p.policy.policy_domain) found in_failure
                (failure_step p.policy.policy_domain) (or_empty p.failure_details) m)
            r.policies m)
        (map (λ w. w.report) (values state.tls_reports)) _
      ∙ ap (λ b. b || any (in_policies in_failure) (map (λ w. w.report) (values state.tls_reports)))
          (foldl-any dmarc_report found (in_records in_record)
            (λ m r.
              foldl-any (dmarc_record r.policy_published.domain) found in_record
                (record_step r.policy_published.domain) r.records m)
            (map (λ w. w.report) (values state.dmarc_reports)) [])

is_sender-touch :
    (ip : IpAddr) (found : IpMap → Bool) (after : IpAddr → IpMap) (m : IpMap) (holds : Bool)
    (sender : Option IpAddr)
    → ((s : IpAddr) → found (after s) ≡ (found m || (s == ip && holds)))
    → found (elim sender [ none ↦ m | some s ↦ after s ])
      ≡ (found m || (is_sender ip sender && holds))
is_sender-touch ip found after m holds none step = ground arith
is_sender-touch ip found after m holds (some s) step = step s

failure_names-touch :
    (ip : IpAddr) (found : IpMap → Bool) (holds : FailureDetails → Bool)
    → ((sender : IpAddr) (domain : String) (m : IpMap) (f : FailureDetails)
        → found (
            touch sender domain f.failed_session_count
              (set_insert (tls_issue f.result_type))
              ReportType.tls
              m)
          ≡ (found m || (sender == ip && holds f)))
    → (domain : String) (m : IpMap) (f : FailureDetails)
    → found (tls_failure domain m f) ≡ (found m || failure_names ip holds f)
unfolding tls_failure
failure_names-touch ip found holds step domain m f =
    is_sender-touch ip found _ m (holds f) f.sending_mta_ip (λ s. step s domain m f)

-- An address is listed with an issue exactly if a DMARC record from it has that issue (a policy
-- evaluation that is there and failed, or one of the results of a check other than a pass, each for DKIM
-- and for SPF), or a failure of a TLS report that names it as the sender is of the type of that name;
-- and with a kind of report exactly if a record or a failure of a report of that kind names it.
pub ip_map-names :
    {L : Type 0} (state : AppState L) (ip : IpAddr) (issue : Issue) (kind : ReportType)
    → (has_issue ip issue (ip_map state) ≡ (
        any
          (in_records (record_names ip (record_has issue)))
          (map (λ w. w.report) (values state.dmarc_reports))
        || any
            (in_policies (failure_names ip (λ f. is_of_type (failure_of issue) f.result_type)))
            (map (λ w. w.report) (values state.tls_reports))))
      × (has_kind ip kind (ip_map state) ≡ (
          any
            (in_records (record_names ip (λ r. ReportType.dmarc == kind)))
            (map (λ w. w.report) (values state.dmarc_reports))
          || any
              (in_policies (failure_names ip (λ f. ReportType.tls == kind)))
              (map (λ w. w.report) (values state.tls_reports))))
unfolding dmarc_record Map.get
ip_map-names state ip issue kind = (
  found-ip_map ip (has_issue ip issue) (record_names ip (record_has issue)) _
      (λ domain m r.
        has_issue-touch r.row.source_ip ip domain r.row.count (detect_dmarc_issues r)
          ReportType.dmarc issue (record_has issue r) m (detect_dmarc_issues-has issue r))
      (failure_names-touch ip (has_issue ip issue)
        (λ f. is_of_type (failure_of issue) f.result_type)
        (λ sender domain m f.
          has_issue-touch sender ip domain f.failed_session_count
            (set_insert (tls_issue f.result_type)) ReportType.tls issue
            (is_of_type (failure_of issue) f.result_type) m
            (λ issues.
              has-set_insert issue (tls_issue f.result_type) issues
              ∙ ap (λ b. has issue issues || b) (tls_issue_lem f.result_type issue))))
      state,
  found-ip_map ip (has_kind ip kind) (record_names ip (λ r. ReportType.dmarc == kind)) _
      (λ domain m r.
        has_kind-touch r.row.source_ip ip domain r.row.count (detect_dmarc_issues r)
          ReportType.dmarc kind m)
      (failure_names-touch ip (has_kind ip kind) (λ f. ReportType.tls == kind)
        (λ sender domain m f.
          has_kind-touch sender ip domain f.failed_session_count
            (set_insert (tls_issue f.result_type)) ReportType.tls kind m))
      state,
)
