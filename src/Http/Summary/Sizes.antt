-- ===== src/Http/Summary/Sizes.antt =====
-- src/http/summary.rs: the numbers of files and reports stay as they are while the loops count.
use dmarc_report_viewer.Common.{ℕ, String, ◌≡◌, Option, List, [], ◌∷◌, Bool-cases, inl, inr}
use dmarc_report_viewer.Common.Int.{ℤ}
use dmarc_report_viewer.Common.Sums.{foldl-keeps}
use dmarc_report_viewer.Dmarc as D
use dmarc_report_viewer.Tls as T
use dmarc_report_viewer.Tls.{PolicyType, PolicyResult}
use dmarc_report_viewer.Http.Summary.{
  DmarcSummary, TlsSummary, dmarc_record, dmarc_included, dmarc_report, dmarc_loop, tls_sessions,
  tls_included, tls_policy, tls_report, tls_loop,
}

abbrev pub HasDmarcSizes : ℕ → ℕ → DmarcSummary → Type 0
HasDmarcSizes files n s = (s.files ≡ files) × (s.reports ≡ n)

abbrev pub HasTlsSizes : ℕ → ℕ → TlsSummary → Type 0
HasTlsSizes files n s = (s.files ≡ files) × (s.reports ≡ n)

tls_sessions-HasTlsSizes :
    (files n : ℕ) (t : PolicyType) (p : PolicyResult) (s : TlsSummary)
    → HasTlsSizes files n s
    → HasTlsSizes files n (tls_sessions t p s)
unfolding tls_sessions
tls_sessions-HasTlsSizes files n PolicyType.sts p s h = h
tls_sessions-HasTlsSizes files n PolicyType.tlsa p s h = h
tls_sessions-HasTlsSizes files n PolicyType.no_policy_found p s h = h

module _ (to_lowercase : String → String) (files n : ℕ) where
  pub dmarc_loop-HasDmarcSizes :
      (threshold : Option ℕ) (df : Option String) (rs : List D.Report) (s : DmarcSummary)
      → HasDmarcSizes files n s
      → HasDmarcSizes files n (dmarc_loop to_lowercase threshold df s rs)
  unfolding dmarc_loop dmarc_report dmarc_record
  dmarc_loop-HasDmarcSizes threshold df [] s h = h
  dmarc_loop-HasDmarcSizes threshold df (r ∷ rs) s h =
      elim (Bool-cases (dmarc_included to_lowercase threshold df r)) [
        | inl e ↦
            rw (e, dmarc_loop)
              (dmarc_loop-HasDmarcSizes threshold df rs (dmarc_report to_lowercase s r)
                (foldl-keeps (HasDmarcSizes files n) dmarc_record (λ s r k. k) r.records _ h))
        | inr e ↦ rw (e, dmarc_loop) (dmarc_loop-HasDmarcSizes threshold df rs s h)
      ]

  pub tls_loop-HasTlsSizes :
      (threshold : Option ℤ) (df : Option String) (rs : List T.Report) (s : TlsSummary)
      → HasTlsSizes files n s
      → HasTlsSizes files n (tls_loop to_lowercase threshold df s rs)
  unfolding tls_loop tls_report tls_policy
  tls_loop-HasTlsSizes threshold df [] s h = h
  tls_loop-HasTlsSizes threshold df (r ∷ rs) s h =
      elim (Bool-cases (tls_included to_lowercase threshold df r)) [
        | inl e ↦
            rw (e, tls_loop)
              (tls_loop-HasTlsSizes threshold df rs (tls_report to_lowercase s r) (
                foldl-keeps (HasTlsSizes files n) (tls_policy to_lowercase)
                  (λ s p k. tls_sessions-HasTlsSizes files n p.policy.policy_type p _ k) r.policies
                  _ h))
        | inr e ↦ rw (e, tls_loop) (tls_loop-HasTlsSizes threshold df rs s h)
      ]
