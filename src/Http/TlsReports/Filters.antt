-- ===== src/Http/TlsReports/Filters.antt =====
-- src/http/tls_reports.rs: which reports the list shows.
use mathlib.Core.Option
use dmarc_report_viewer.Common.{
  String, ◌≡◌, refl, ap, ◌↔◌, Option, none, some, List, Bool, true, any, Any, any_decides, In,
  In-filter_decides, In-filter_then, In-map_iff, is_none_or_decides, bool_eq_iff, string_eq,
}
use dmarc_report_viewer.Common.Ip.{IpAddr, ip_eq}
use dmarc_report_viewer.Tls.{PolicyResult, FailureDetails}
use dmarc_report_viewer.State.{AppState, TlsReportWithMailId}
use dmarc_report_viewer.Http.{HttpEnv}
use dmarc_report_viewer.Http.TlsReports.{
  ReportHeader, ReportFilters, from_report, url_decode, select_reports, select_headers,
  list_handler, failed_from, ip_eq_some,
}

-- A failure of the policy names the address.
abbrev pub FailedFrom : IpAddr → PolicyResult → Type 0
FailedFrom ip p =
    (l : List FailureDetails) × (p.failure_details ≡ some l)
    × Any (λ f. f.sending_mta_ip ≡ some ip) l

ip_eq_some_iff : (ip : IpAddr) (o : Option IpAddr) → (ip_eq_some ip o ≡ true) ↔ (o ≡ some ip)
ip_eq_some_iff ip none = (λ h. cc, λ h. cc)
ip_eq_some_iff ip (some a) =
    (λ h. ap some ((ip_eq.equals_iff a ip).0 h), λ h. (ip_eq.equals_iff a ip).1 (some_inj h))
  where
    some_inj : some a ≡ some ip → a ≡ ip
    some_inj e = cc

failed_from_iff :
    (ip : IpAddr) (o : Option (List FailureDetails))
    → (failed_from ip o ≡ true)
      ↔ ((l : List FailureDetails) × (o ≡ some l) × Any (λ f. f.sending_mta_ip ≡ some ip) l)
failed_from_iff ip none = (λ h. cc, λ h. cc (h.1))
failed_from_iff ip (some l) =
    (λ h. (l, refl, (named l).0 h), λ h. (named l).1 (rw (some_inj h.1) h.2))
  where
    named :
        (k : List FailureDetails)
        → (any (λ f. ip_eq_some ip f.sending_mta_ip) k ≡ true)
          ↔ Any (λ f. f.sending_mta_ip ≡ some ip) k
    named = any_decides _ _ (λ f. ip_eq_some_iff ip f.sending_mta_ip)

    some_inj : {k : List FailureDetails} → some l ≡ some k → l ≡ k
    some_inj e = cc

-- What the filters ask of a stored report.
pub record ReportMatches (env : HttpEnv) (f : ReportFilters) (ip_filter : Option IpAddr)
    (rwi : TlsReportWithMailId) : Type 0 where
  pub by_id : (id : String) → f.id ≡ some id → rwi.mail_id ≡ id
  pub by_org : (org : String) → f.org ≡ some org → rwi.report.organization_name ≡ org
  pub by_domain :
      (d : String)
      → f.domain ≡ some d
      → Any (λ p. env.to_lowercase p.policy.policy_domain ≡ d) rwi.report.policies
  pub by_ip : (ip : IpAddr) → ip_filter ≡ some ip → Any (FailedFrom ip) rwi.report.policies

-- What they ask of a header.
pub record HeaderMatches (f : ReportFilters) (h : ReportHeader) : Type 0 where
  pub by_flagged : (b : Bool) → f.flagged ≡ some b → h.flagged ≡ b
  pub by_sts : (b : Bool) → f.flagged_sts ≡ some b → h.flagged_sts ≡ b
  pub by_tlsa : (b : Bool) → f.flagged_tlsa ≡ some b → h.flagged_tlsa ≡ b

module _ (env : HttpEnv) (f : ReportFilters) (ip_filter : Option IpAddr) where
  In-select_reports_iff :
      (e : String × TlsReportWithMailId) (xs : List (String × TlsReportWithMailId))
      → In e (select_reports env f ip_filter xs) ↔ (In e xs × ReportMatches env f ip_filter e.1)
  unfolding select_reports
  In-select_reports_iff e xs =
      let by_id =
        In-filter_decides _ _
          (λ e. is_none_or_decides _ f.id _ (λ id. string_eq.equals_iff e.1.mail_id id)) e xs in
      let by_org =
        In-filter_then _ _
          (λ e.
            is_none_or_decides _ f.org _ (λ o. string_eq.equals_iff e.1.report.organization_name o))
          e _ xs by_id in
      let by_domain =
        In-filter_then _ _
          (λ e. is_none_or_decides _ f.domain _ (λ d.
            any_decides _ _ (λ p. string_eq.equals_iff (env.to_lowercase p.policy.policy_domain) d)
              e.1.report.policies))
          e _ xs by_org in
      let by_ip =
        In-filter_then _ _
          (λ e. is_none_or_decides _ ip_filter _ (λ ip.
            any_decides (FailedFrom ip) _ (λ p. failed_from_iff ip p.failure_details)
              e.1.report.policies))
          e _ xs by_domain in
      (
        λ h.
            let (i, m) = by_ip.0 h in
            (i, record { by_id = m.0.0.0; by_org = m.0.0.1; by_domain = m.0.1; by_ip = m.1 }),
        λ (i, m). by_ip.1 (i, (((m.by_id, m.by_org), m.by_domain), m.by_ip)),
      )

In-select_headers_iff :
    (f : ReportFilters) (h : ReportHeader) (xs : List ReportHeader)
    → In h (select_headers f xs) ↔ (In h xs × HeaderMatches f h)
unfolding select_headers
In-select_headers_iff f h xs =
    let by_flagged =
      In-filter_decides _ _ (λ h. is_none_or_decides _ f.flagged _ (bool_eq_iff h.flagged)) h xs in
    let by_sts =
      In-filter_then _ _ (λ h. is_none_or_decides _ f.flagged_sts _ (bool_eq_iff h.flagged_sts)) h _
        xs by_flagged in
    let by_tlsa =
      In-filter_then _ _ (λ h. is_none_or_decides _ f.flagged_tlsa _ (bool_eq_iff h.flagged_tlsa)) h
        _ xs by_sts in
    (
      λ i.
          let (j, m) = by_tlsa.0 i in
          (j, record { by_flagged = m.0.0; by_sts = m.0.1; by_tlsa = m.1 }),
      λ (j, m). by_tlsa.1 (j, ((m.by_flagged, m.by_sts), m.by_tlsa)),
    )

-- The IP address that is looked for; one that cannot be read switches its filter off.
abbrev pub ip_filter_of : HttpEnv → ReportFilters → Option IpAddr
ip_filter_of env filters = Option.bind (url_decode env filters).ip env.parse_ip

-- The list shows a header exactly when it is the header of a stored report that meets all the
-- decoded filters on reports, and itself meets the filters on headers.
pub In-tls_list_handler_iff :
    (env : HttpEnv) {L : Type 0} (state : AppState L) (filters : ReportFilters) (h : ReportHeader)
    → In h (list_handler env state filters) ↔ (
        (e : String × TlsReportWithMailId) × In e state.tls_reports
        × ReportMatches env (url_decode env filters) (ip_filter_of env filters) e.1
        × (h ≡ from_report e.0 e.1.report)
        × HeaderMatches (url_decode env filters) h)
unfolding list_handler
In-tls_list_handler_iff env state filters h =
    let f = url_decode env filters in
    let headers = In-select_headers_iff f h _ in
    let mapped = In-map_iff _ h _ in
    (
      λ i.
          let (j, m) = headers.0 i in
          let (e, k, q) = mapped.0 j in
          let (stored, r) = (In-select_reports_iff env f _ e state.tls_reports).0 k in
          (e, stored, r, q, m),
      λ (e, stored, r, q, m).
          headers.1
            (mapped.1 (e, (In-select_reports_iff env f _ e state.tls_reports).1 (stored, r), q), m),
    )
