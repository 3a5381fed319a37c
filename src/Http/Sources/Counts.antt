-- ===== src/Http/Sources/Counts.antt =====
-- src/http/sources.rs: the messages of each IP address.
use dmarc_report_viewer.Common.{
  ℕ, ◌+◌, ◌%◌, String, ◌≡◌, refl, ap, ◌∙◌, Option, none, some, List, [], map, Bool, true, false,
  ◌==◌, if◌then◌else◌, or_empty, u64_mod, add_u64, add_u64_lem, arith, Option-cases, inl, inr,
}
use dmarc_report_viewer.Common.Ip.{IpAddr, ip_eq}
use dmarc_report_viewer.Common.Map
use dmarc_report_viewer.Common.Map.{get-insert}
use dmarc_report_viewer.Common.Sums.{sum, foldl-sum}
use dmarc_report_viewer.Background.{values}
use dmarc_report_viewer.Dmarc as D
use dmarc_report_viewer.Dmarc.{RecordType}
use dmarc_report_viewer.Tls as T
use dmarc_report_viewer.Tls.{FailureDetails, PolicyResult}
use dmarc_report_viewer.State.{AppState}
use dmarc_report_viewer.Http.Sources.{
  Issue, ReportType, IpMap, SourceDetails, new_details, touch, set_insert, tls_issue,
  detect_dmarc_issues, issue_eq, dmarc_record, dmarc_report, tls_failure, tls_policy, tls_report,
  ip_map,
}

abbrev pub count_in : Option SourceDetails → ℕ
count_in none = 0
count_in (some details) = details.count

-- The count of an address, 0 if it is not there
abbrev pub count_of : IpAddr → IpMap → ℕ
count_of ip m = count_in (Map.get ip m)

-- What one record, one failure, and the reports add to an address
abbrev pub record_messages : IpAddr → RecordType → ℕ
record_messages ip r = if r.row.source_ip == ip then r.row.count else 0

abbrev pub report_messages : IpAddr → D.Report → ℕ
report_messages ip report = sum (record_messages ip) report.records

abbrev pub failure_sessions : IpAddr → FailureDetails → ℕ
failure_sessions ip f = elim f.sending_mta_ip [
  | none ↦ 0
  | some sender ↦ if sender == ip then f.failed_session_count else 0
]

abbrev pub policy_sessions : IpAddr → PolicyResult → ℕ
policy_sessions ip p = sum (failure_sessions ip) (or_empty p.failure_details)

abbrev pub report_sessions : IpAddr → T.Report → ℕ
report_sessions ip report = sum (policy_sessions ip) report.policies

count_in-if :
    (b : Bool) (d : SourceDetails) (o : Option SourceDetails)
    → count_in (if b then some d else o) ≡ (if b then d.count else count_in o)
count_in-if true d o = refl
count_in-if false d o = refl

count-new_details :
    (domain : String) (o : Option SourceDetails) → (new_details domain o).count ≡ count_in o
count-new_details domain none = refl
count-new_details domain (some d) = refl

added :
    (b : Bool) (c old n other : ℕ)
    → c ≡ (if b then add_u64 old n else other)
    → (b ≡ true → old ≡ other)
    → c % u64_mod ≡ (other + (if b then n else 0)) % u64_mod
added true c old n other h same = omega (arith, h, same refl, add_u64_lem old n)
added false c old n other h same = omega (arith, h)

count_of-touch :
    (ip j : IpAddr) (domain : String) (n : ℕ) (f : List Issue → List Issue) (kind : ReportType)
    (m : IpMap)
    → count_of j (touch ip domain n f kind m) % u64_mod
      ≡ (count_of j m + (if ip == j then n else 0)) % u64_mod
unfolding touch
count_of-touch ip j domain n f kind m =
    let old = new_details domain (Map.get ip m) in
    added (ip == j) _ old.count n (count_of j m)
      (ap count_in (get-insert ip j _ m) ∙ count_in-if (ip == j) _ (Map.get j m))
      (λ e.
        count-new_details domain (Map.get ip m)
        ∙ ap (λ x. count_of x m) ((ip_eq.equals_iff ip j).0 e))

count_of-tls_failure :
    (ip : IpAddr) (domain : String) (m : IpMap) (f : FailureDetails)
    → count_of ip (tls_failure domain m f) % u64_mod
      ≡ (count_of ip m + failure_sessions ip f) % u64_mod
unfolding tls_failure
count_of-tls_failure ip domain m f = elim (Option-cases f.sending_mta_ip) [
  | inl e ↦ rw (e, tls_failure) (omega arith)
  | inr (sender, e) ↦
      rw (e, tls_failure)
        (count_of-touch sender ip domain f.failed_session_count
          (set_insert (tls_issue f.result_type)) ReportType.tls m)
]

-- The count of an IP address is the number of messages of all DMARC records from it and of failed
-- sessions of all TLS failure details that name it as the sender, modulo the word size.
pub count_of-ip_map :
    {L : Type 0} (state : AppState L) (ip : IpAddr)
    → count_of ip (ip_map state) % u64_mod
      ≡ (sum (report_messages ip) (map (λ w. w.report) (values state.dmarc_reports))
          + sum (report_sessions ip) (map (λ w. w.report) (values state.tls_reports)))
        % u64_mod
unfolding ip_map dmarc_report dmarc_record tls_report tls_policy Map.get
count_of-ip_map state ip =
    let dmarc =
      foldl-sum dmarc_report (count_of ip) (report_messages ip)
        (λ m r.
          foldl-sum (dmarc_record r.policy_published.domain) (count_of ip) (record_messages ip)
            (λ m r.
              count_of-touch r.row.source_ip ip _ r.row.count (detect_dmarc_issues r)
                ReportType.dmarc m)
            r.records m)
        (map (λ w. w.report) (values state.dmarc_reports)) [] in
    let tls =
      foldl-sum tls_report (count_of ip) (report_sessions ip)
        (λ m r.
          foldl-sum tls_policy (count_of ip) (policy_sessions ip)
            (λ m p.
              foldl-sum (tls_failure p.policy.policy_domain) (count_of ip) (failure_sessions ip)
                (count_of-tls_failure ip p.policy.policy_domain) (or_empty p.failure_details) m)
            r.policies m)
        (map (λ w. w.report) (values state.tls_reports)) _ in
    combine _ _ _ _ dmarc tls
  where
    combine :
        (a b c d : ℕ)
        → a % u64_mod ≡ (0 + b) % u64_mod
        → c % u64_mod ≡ (a + d) % u64_mod
        → c % u64_mod ≡ (b + d) % u64_mod
    combine a b c d h k = omega (arith, h, k)
