-- ===== src/Http/TlsReports/Flags.antt =====
-- src/http/tls_reports.rs: what the flags and the domains of a report's header mean.
use dmarc_report_viewer.Common.{
  String, ◌<◌, ◌≡◌, ◌↔◌, ◌∙◌, List, [], ◌∷◌, map, Bool, true, false, ◌&&◌, ◌||◌, ◌==◌, any, Any,
  any_decides, and_iff, In, In-map_iff, if◌then◌else◌, ltb, ltb_iff, arith,
}
use dmarc_report_viewer.Common.Sorted.{StrictlyAscending, dedup-sort}
use dmarc_report_viewer.Tls
use dmarc_report_viewer.Tls.{PolicyType, PolicyResult, policy_type_eq, PolicyType-discrete}
use dmarc_report_viewer.Http.TlsReports.{flags_loop, flags, from_report}

-- A policy of type `t` had failed sessions.
abbrev pub FailedPolicy : PolicyType → PolicyResult → Type 0
FailedPolicy t p = (0 < p.summary.total_failure_session_count) × (p.policy.policy_type ≡ t)

abbrev failed_policy : PolicyType → PolicyResult → Bool
failed_policy t p = ltb 0 p.summary.total_failure_session_count && p.policy.policy_type == t

failed_policy_iff :
    (t : PolicyType) (p : PolicyResult) → (failed_policy t p ≡ true) ↔ FailedPolicy t p
failed_policy_iff t p =
    and_iff _ _ (ltb_iff 0 p.summary.total_failure_session_count)
      (policy_type_eq.equals_iff p.policy.policy_type t)

sts_step :
    (failed sts flag rest : Bool)
    → ((if failed then (if sts then true else flag) else flag) || rest)
      ≡ (flag || ((failed && sts) || rest))
sts_step failed sts flag rest = ground arith

tlsa_step :
    (failed flag rest : Bool) (t : PolicyType)
    → ((if failed
          then (if t == PolicyType.sts then flag else (if t == PolicyType.tlsa then true else flag))
          else flag)
        || rest)
      ≡ (flag || ((failed && t == PolicyType.tlsa) || rest))
unfolding PolicyType-discrete
tlsa_step failed flag rest PolicyType.sts = ground arith
tlsa_step failed flag rest PolicyType.tlsa = ground arith
tlsa_step failed flag rest PolicyType.no_policy_found = ground arith

or_false : (b : Bool) → b ≡ (b || false)
or_false b = ground arith

flags_loop-any :
    (ps : List PolicyResult) (sts tlsa : Bool)
    → flags_loop sts tlsa ps ≡ (
      sts || any (failed_policy PolicyType.sts) ps,
      tlsa || any (failed_policy PolicyType.tlsa) ps,
    )
unfolding flags_loop any
flags_loop-any [] sts tlsa = λ i. (or_false sts i, or_false tlsa i)
flags_loop-any (p ∷ ps) sts tlsa = flags_loop-any ps _ _ ∙ λ i. (
  sts_step (ltb 0 p.summary.total_failure_session_count) (p.policy.policy_type == PolicyType.sts)
      sts (any (failed_policy PolicyType.sts) ps) i,
  tlsa_step (ltb 0 p.summary.total_failure_session_count) tlsa
      (any (failed_policy PolicyType.tlsa) ps) p.policy.policy_type i,
)

-- A report is flagged for STS exactly when one of its STS policies had failed sessions, and for
-- TLSA exactly when one of its TLSA policies had; policies that were not found are ignored.
pub tls_flags_iff :
    (report : Tls.Report)
    → (((flags report).0 ≡ true) ↔ Any (FailedPolicy PolicyType.sts) report.policies)
      × (((flags report).1 ≡ true) ↔ Any (FailedPolicy PolicyType.tlsa) report.policies)
unfolding flags
tls_flags_iff report = rw flags_loop-any (
  any_decides _ _ (failed_policy_iff PolicyType.sts) report.policies,
  any_decides _ _ (failed_policy_iff PolicyType.tlsa) report.policies,
)

-- The header lists the domains of the policies, each once and in ascending order.
pub domains-from_report :
    (hash : String) (report : Tls.Report)
    → StrictlyAscending (from_report hash report).domains
      × ((d : String)
          → In d (from_report hash report).domains
            ↔ ((p : PolicyResult) × In p report.policies × (d ≡ p.policy.policy_domain)))
unfolding from_report
domains-from_report hash report =
    let (ascending, same) =
      dedup-sort (map (λ (p : PolicyResult). p.policy.policy_domain) report.policies) in
    (
      ascending,
      λ d.
          let image = In-map_iff (λ (p : PolicyResult). p.policy.policy_domain) d report.policies in
          (λ h. image.0 ((same d).0 h), λ h. (same d).1 (image.1 h)),
    )
