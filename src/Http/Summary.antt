-- ===== src/Http/Summary.antt =====
-- src/http/summary.rs: the counters of the dashboard.
pub mod Policies
pub mod Dmarc
pub mod Tls
pub mod TimeSpan
pub mod Filters
pub mod Totals
pub mod Sizes
use mathlib.Core.Option
use mathlib.Core.List.{foldl}
use dmarc_report_viewer.Common.{
  ℕ, zero, suc, ◌+◌, ◌-◌, ◌%◌, ◌^◌, String, Option, none, some, List, [], ◌∷◌, map, Bool, true,
  false, not, ◌&&◌, ◌==◌, if◌then◌else◌, all, is_none_or, ltb, length, string_eq, u64_mod,
}
use dmarc_report_viewer.Common.Int.{ℤ, pos, negsuc, ltb_ℤ}
use dmarc_report_viewer.Common.Tally.{add, add_each}
use dmarc_report_viewer.Dmarc as D
use dmarc_report_viewer.Dmarc.{
  DmarcResultType, DkimResultType, SpfResultType, dmarc_result_eq, dkim_result_eq, spf_result_eq,
  RecordType,
}
use dmarc_report_viewer.Tls as T
use dmarc_report_viewer.Tls.{
  PolicyType, TlsResultType, FailureResultType, PolicyResult, FailureDetails, policy_type_eq,
  tls_result_eq, failure_result_eq,
}
use dmarc_report_viewer.State.{AppState, DmarcReportWithMailId, TlsReportWithMailId}
use dmarc_report_viewer.Http.{HttpEnv}

pub record SummaryFilters : Type 0 where
  pub time_span : Option ℕ
  pub domain : Option String

pub record DmarcSummary : Type 0 where
  pub files : ℕ
  pub reports : ℕ
  pub orgs : List (String × ℕ)
  pub domains : List (String × ℕ)
  pub spf_policy_results : List (DmarcResultType × ℕ)
  pub dkim_policy_results : List (DmarcResultType × ℕ)
  pub spf_auth_results : List (SpfResultType × ℕ)
  pub dkim_auth_results : List (DkimResultType × ℕ)

pub record TlsSummary : Type 0 where
  pub files : ℕ
  pub reports : ℕ
  pub orgs : List (String × ℕ)
  pub domains : List (String × ℕ)
  pub policy_types : List (PolicyType × ℕ)
  pub sts_policy_results : List (TlsResultType × ℕ)
  pub tlsa_policy_results : List (TlsResultType × ℕ)
  pub sts_failure_types : List (FailureResultType × ℕ)
  pub tlsa_failure_types : List (FailureResultType × ℕ)

pub record Summary : Type 0 where
  pub mails : ℕ
  pub last_update : ℕ
  pub next_update : ℕ
  pub dmarc : DmarcSummary
  pub tls : TlsSummary

-- The counters of one optional result
abbrev pub add_result :
    Option DmarcResultType → ℕ → List (DmarcResultType × ℕ) → List (DmarcResultType × ℕ)
add_result none n m = m
add_result (some r) n m = add r n m

abbrev pub add_dkim :
    Option (List D.DkimAuthResultType) → ℕ → List (DkimResultType × ℕ) → List (DkimResultType × ℕ)
add_dkim none n m = m
add_dkim (some vec) n m = add_each (λ r. r.result) n vec m

-- The body of the loop over the records of a report
unfoldable pub dmarc_record : DmarcSummary → RecordType → DmarcSummary
dmarc_record s r =
    let n = r.row.count in
    record s {
      spf_auth_results = add_each (λ x. x.result) n r.auth_results.spf s.spf_auth_results;
      dkim_auth_results = add_dkim r.auth_results.dkim n s.dkim_auth_results;
      spf_policy_results = add_result r.row.policy_evaluated.spf n s.spf_policy_results;
      dkim_policy_results = add_result r.row.policy_evaluated.dkim n s.dkim_policy_results;
    }

abbrev pub add_failures :
    Option (List FailureDetails) → List (FailureResultType × ℕ) → List (FailureResultType × ℕ)
add_failures none m = m
add_failures (some details) m =
    foldl (λ counters f. add f.result_type f.failed_session_count counters) m details

abbrev pub add_sessions : PolicyResult → List (TlsResultType × ℕ) → List (TlsResultType × ℕ)
add_sessions p m =
    add TlsResultType.failure p.summary.total_failure_session_count
      (add TlsResultType.successful p.summary.total_successful_session_count m)

-- The part of the body that depends on the type of the policy
unfoldable pub tls_sessions : PolicyType → PolicyResult → TlsSummary → TlsSummary
tls_sessions PolicyType.sts p s = record s {
  sts_policy_results = add_sessions p s.sts_policy_results;
  sts_failure_types = add_failures p.failure_details s.sts_failure_types;
}
tls_sessions PolicyType.tlsa p s = record s {
  tlsa_policy_results = add_sessions p s.tlsa_policy_results;
  tlsa_failure_types = add_failures p.failure_details s.tlsa_failure_types;
}
tls_sessions PolicyType.no_policy_found p s = s

module _ (to_lowercase : String → String) where
  -- A report that no `continue` skips: it ends at the threshold or later, in the chosen domain.
  unfoldable pub dmarc_included : Option ℕ → Option String → D.Report → Bool
  dmarc_included threshold domain_filter report =
      is_none_or threshold (λ t. not (ltb report.report_metadata.date_range.end t))
      && is_none_or domain_filter (λ df. to_lowercase report.policy_published.domain == df)

  unfoldable pub dmarc_report : DmarcSummary → D.Report → DmarcSummary
  unfolding dmarc_record
  dmarc_report s report =
      let counted = record s {
        domains = add (to_lowercase report.policy_published.domain) 1 s.domains;
        orgs = add report.report_metadata.org_name 1 s.orgs;
      } in
      foldl dmarc_record counted report.records

  unfoldable pub dmarc_loop : Option ℕ → Option String → DmarcSummary → List D.Report → DmarcSummary
  unfolding dmarc_included dmarc_report
  dmarc_loop threshold df s [] = s
  dmarc_loop threshold df s (r ∷ rest) =
      dmarc_loop threshold df (if dmarc_included threshold df r then dmarc_report s r else s) rest

  unfoldable pub tls_included : Option ℤ → Option String → T.Report → Bool
  tls_included threshold domain_filter report =
      is_none_or threshold (λ t. not (ltb_ℤ report.date_range.end_datetime t))
      && is_none_or domain_filter
          (λ df. not (all (λ p. not (to_lowercase p.policy.policy_domain == df)) report.policies))

  unfoldable pub tls_policy : TlsSummary → PolicyResult → TlsSummary
  unfolding tls_sessions
  tls_policy s p =
      let counted = record s {
        domains = add (to_lowercase p.policy.policy_domain) 1 s.domains;
        policy_types = add p.policy.policy_type 1 s.policy_types;
      } in
      tls_sessions p.policy.policy_type p counted

  unfoldable pub tls_report : TlsSummary → T.Report → TlsSummary
  unfolding tls_policy
  tls_report s report =
      foldl tls_policy (record s { orgs = add report.organization_name 1 s.orgs }) report.policies

  unfoldable pub tls_loop : Option ℤ → Option String → TlsSummary → List T.Report → TlsSummary
  unfolding tls_included tls_report
  tls_loop threshold df s [] = s
  tls_loop threshold df s (r ∷ rest) =
      tls_loop threshold df (if tls_included threshold df r then tls_report s r else s) rest

-- `as u64` on a signed number: two's complement
unfoldable pub as_u64 : ℤ → ℕ
as_u64 (pos n) = n % u64_mod
as_u64 (negsuc n) = u64_mod - 1 - n % u64_mod

-- `as i64` on a `u64`
unfoldable pub as_i64 : ℕ → ℤ
as_i64 n = if ltb n (2 ^ 63) then pos n else negsuc (u64_mod - 1 - n)

-- What the summary takes from the `chrono` crate. A point in time is its nanoseconds since the
-- epoch. `hours_before` is `now - Duration::hours(h)`, with no answer where `chrono` panics because
-- the duration or the date is out of its range; `timestamp` is the time in whole seconds.
pub record Chrono : Type 0 where
  pub hours_before : ℤ → ℤ → Option ℤ
  pub timestamp : ℤ → ℤ

pub record Files : Type 0 where
  pub xml : ℕ
  pub json : ℕ

pub record Reports : Type 0 where
  pub dmarc : List (String × DmarcReportWithMailId)
  pub tls : List (String × TlsReportWithMailId)

abbrev pub empty_dmarc : ℕ → ℕ → DmarcSummary
empty_dmarc files reports = record {
  files = files;
  reports = reports;
  orgs = [];
  domains = [];
  spf_policy_results = [];
  dkim_policy_results = [];
  spf_auth_results = [];
  dkim_auth_results = [];
}

abbrev pub empty_tls : ℕ → ℕ → TlsSummary
empty_tls files reports = record {
  files = files;
  reports = reports;
  orgs = [];
  domains = [];
  policy_types = [];
  sts_policy_results = [];
  tlsa_policy_results = [];
  sts_failure_types = [];
  tlsa_failure_types = [];
}

module _ (env : HttpEnv) (chrono : Chrono) where
  -- The threshold of an optional time span; the outer option is a panic.
  unfoldable pub threshold_at : ℤ → Option ℤ → Option (Option ℤ)
  threshold_at now none = some none
  threshold_at now (some hours) = Option.map some (chrono.hours_before now hours)

  -- `Summary::new`. The clock is read twice, for the two thresholds.
  unfoldable pub new :
      ℤ → ℤ → ℕ → Files → Reports → ℕ → ℕ → Option ℤ → Option String → Option Summary
  unfolding threshold_at dmarc_loop tls_loop as_u64
  new now now' mails files reports last_update next_update time_span domain_filter =
      elim (threshold_at now time_span) [
        | none ↦ none
        | some since ↦ elim (threshold_at now' time_span) [
          | none ↦ none
          | some since' ↦
              let threshold = Option.map (λ t. as_u64 (chrono.timestamp t)) since in
              let df = Option.map env.to_lowercase domain_filter in
              some (record {
                mails = mails;
                last_update = last_update;
                next_update = next_update;
                dmarc =
                    dmarc_loop env.to_lowercase threshold df
                      (empty_dmarc files.xml (length reports.dmarc))
                      (map (λ e. e.1.report) reports.dmarc);
                tls =
                    tls_loop env.to_lowercase since' df (empty_tls files.json (length reports.tls))
                      (map (λ e. e.1.report) reports.tls);
              })
        ]
      ]

  unfoldable pub url_decode : SummaryFilters → SummaryFilters
  url_decode f = record f { domain = Option.bind f.domain env.url_decode }

  -- `if let Some(hours) = … && hours > 0`
  abbrev pub time_span_of : Option ℕ → Option ℤ
  time_span_of none = none
  time_span_of (some hours) = if ltb 0 hours then some (as_i64 hours) else none

  unfoldable pub handler : {L : Type 0} → ℤ → ℤ → AppState L → SummaryFilters → Option Summary
  unfolding new url_decode
  handler now now' state filters =
      let f = url_decode filters in
      new now now' (length state.mails) (record { xml = state.xml_files; json = state.json_files })
        (record { dmarc = state.dmarc_reports; tls = state.tls_reports }) state.last_update
        state.next_update (time_span_of f.time_span) f.domain
