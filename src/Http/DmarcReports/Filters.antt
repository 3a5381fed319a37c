-- ===== src/Http/DmarcReports/Filters.antt =====
-- src/http/dmarc_reports.rs: which reports the list shows.
use mathlib.Core.Option
use dmarc_report_viewer.Common.{
  ℕ, String, ◌≤◌, ◌<◌, ◌≡◌, ◌↔◌, Option, some, List, Bool, Any, any_decides, In, In-filter_decides,
  In-filter_then, In-map_iff, is_none_or_decides, bool_eq_iff, leb_iff, and_iff, ltb_iff, string_eq,
}
use dmarc_report_viewer.Common.Ip.{IpAddr, ip_eq}
use dmarc_report_viewer.State.{AppState, DmarcReportWithMailId}
use dmarc_report_viewer.Http.{HttpEnv}
use dmarc_report_viewer.Http.DmarcReports.{
  ReportHeader, ReportFilters, from_report, url_decode, select_reports, select_headers,
  list_handler,
}

-- What the filters ask of a stored report.
pub record ReportMatches (env : HttpEnv) (f : ReportFilters) (ip_filter : Option IpAddr)
    (rwi : DmarcReportWithMailId) : Type 0 where
  pub by_id : (id : String) → f.id ≡ some id → rwi.mail_id ≡ id
  pub by_org : (org : String) → f.org ≡ some org → rwi.report.report_metadata.org_name ≡ org
  pub by_domain :
      (d : String) → f.domain ≡ some d → env.to_lowercase rwi.report.policy_published.domain ≡ d
  pub by_ip :
      (ip : IpAddr) → ip_filter ≡ some ip → Any (λ r. r.row.source_ip ≡ ip) rwi.report.records

-- What they ask of a header.
pub record HeaderMatches (f : ReportFilters) (h : ReportHeader) : Type 0 where
  pub by_flagged : (b : Bool) → f.flagged ≡ some b → h.flagged ≡ b
  pub by_dkim : (b : Bool) → f.flagged_dkim ≡ some b → h.flagged_dkim ≡ b
  pub by_spf : (b : Bool) → f.flagged_spf ≡ some b → h.flagged_spf ≡ b
  pub by_dmarc : (b : Bool) → f.flagged_dmarc ≡ some b → h.flagged_dmarc ≡ b
  pub by_begin : (t : ℕ) → f.begin ≡ some t → t ≤ h.date_end
  pub by_end : (t : ℕ) → f.end ≡ some t → h.date_begin ≤ t
  pub by_records : (n : ℕ) → f.records_gt ≡ some n → n < h.records

module _ (env : HttpEnv) (f : ReportFilters) (ip_filter : Option IpAddr) where
  In-select_reports_iff :
      (e : String × DmarcReportWithMailId) (xs : List (String × DmarcReportWithMailId))
      → In e (select_reports env f ip_filter xs) ↔ (In e xs × ReportMatches env f ip_filter e.1)
  unfolding select_reports
  In-select_reports_iff e xs =
      let by_id =
        In-filter_decides _ _
          (λ e. is_none_or_decides _ f.id _ (λ id. string_eq.equals_iff e.1.mail_id id)) e xs in
      let by_org =
        In-filter_then _ _
          (λ e.
            is_none_or_decides _ f.org _
              (λ o. string_eq.equals_iff e.1.report.report_metadata.org_name o))
          e _ xs by_id in
      let by_domain =
        In-filter_then _ _
          (λ e.
            is_none_or_decides _ f.domain _
              (λ d. string_eq.equals_iff (env.to_lowercase e.1.report.policy_published.domain) d))
          e _ xs by_org in
      let by_ip =
        In-filter_then _ _
          (λ e.
            is_none_or_decides _ ip_filter _
              (λ ip. any_decides _ _ (λ r. ip_eq.equals_iff r.row.source_ip ip) e.1.report.records))
          e _ xs by_domain in
      (
        λ h.
            let (i, m) = by_ip.0 h in
            (i, record { by_id = m.0.0.0; by_org = m.0.0.1; by_domain = m.0.1; by_ip = m.1 }),
        λ (i, m). by_ip.1 (i, (((m.by_id, m.by_org), m.by_domain), m.by_ip)),
      )

module _ (f : ReportFilters) where
  In-select_headers_iff :
      (h : ReportHeader) (xs : List ReportHeader)
      → In h (select_headers f xs) ↔ (In h xs × HeaderMatches f h)
  unfolding select_headers
  In-select_headers_iff h xs =
      let by_flagged =
        In-filter_decides _ _ (λ h. is_none_or_decides _ f.flagged _ (bool_eq_iff h.flagged)) h
          xs in
      let by_dkim =
        In-filter_then _ _ (λ h. is_none_or_decides _ f.flagged_dkim _ (bool_eq_iff h.flagged_dkim))
          h _ xs by_flagged in
      let by_spf =
        In-filter_then _ _ (λ h. is_none_or_decides _ f.flagged_spf _ (bool_eq_iff h.flagged_spf)) h
          _ xs by_dkim in
      let by_dmarc =
        In-filter_then _ _
          (λ h. is_none_or_decides _ f.flagged_dmarc _ (bool_eq_iff h.flagged_dmarc)) h _ xs
          by_spf in
      let by_date =
        In-filter_then _ _
          (λ h.
            and_iff _ _ (is_none_or_decides _ f.begin _ (λ t. leb_iff t h.date_end))
              (is_none_or_decides _ f.end _ (λ t. leb_iff h.date_begin t)))
          h _ xs by_dmarc in
      let by_records =
        In-filter_then _ _ (λ h. is_none_or_decides _ f.records_gt _ (λ n. ltb_iff n h.records)) h _
          xs by_date in
      (
        λ i.
            let (j, m) = by_records.0 i in
            (
              j,
              record {
                by_flagged = m.0.0.0.0.0;
                by_dkim = m.0.0.0.0.1;
                by_spf = m.0.0.0.1;
                by_dmarc = m.0.0.1;
                by_begin = m.0.1.0;
                by_end = m.0.1.1;
                by_records = m.1;
              },
            ),
        λ (j, m). by_records.1 (
          j,
          (
            ((((m.by_flagged, m.by_dkim), m.by_spf), m.by_dmarc), (m.by_begin, m.by_end)),
            m.by_records,
          ),
        ),
      )

-- The IP address that is looked for; one that cannot be read switches its filter off.
abbrev pub ip_filter_of : HttpEnv → ReportFilters → Option IpAddr
ip_filter_of env filters = Option.bind (url_decode env filters).ip env.parse_ip

-- The list shows a header exactly when it is the header of a stored report that meets all the
-- decoded filters on reports, and itself meets the filters on headers.
pub In-list_handler_iff :
    (env : HttpEnv) {L : Type 0} (state : AppState L) (filters : ReportFilters) (h : ReportHeader)
    → In h (list_handler env state filters) ↔ (
        (e : String × DmarcReportWithMailId) × In e state.dmarc_reports
        × ReportMatches env (url_decode env filters) (ip_filter_of env filters) e.1
        × (h ≡ from_report e.0 e.1.report)
        × HeaderMatches (url_decode env filters) h)
unfolding list_handler
In-list_handler_iff env state filters h =
    let f = url_decode env filters in
    let headers = In-select_headers_iff f h _ in
    let mapped = In-map_iff _ h _ in
    (
      λ i.
          let (j, m) = headers.0 i in
          let (e, k, q) = mapped.0 j in
          let (stored, r) = (In-select_reports_iff env f _ e state.dmarc_reports).0 k in
          (e, stored, r, q, m),
      λ (e, stored, r, q, m).
          headers.1 (
            mapped.1 (e, (In-select_reports_iff env f _ e state.dmarc_reports).1 (stored, r), q),
            m,
          ),
    )
