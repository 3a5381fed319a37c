-- ===== src/Http/Summary/Tls.antt =====
-- src/http/summary.rs: each TLS counter is the sum of what it counts.
use mathlib.Core.List.{foldl}
use dmarc_report_viewer.Common.{
  ℕ, ◌%◌, String, ◌≡◌, refl, sym, ap, ◌∙◌, Option, List, [], ◌∷◌, Bool-cases, inl, inr, filter,
  flat_map, string_eq, Eq, u64_mod,
}
use dmarc_report_viewer.Common.Int.{ℤ}
use dmarc_report_viewer.Common.Tally.{
  add, tally, total, weight, total-tally-nil, fold-tally, tally-one,
}
use dmarc_report_viewer.Tls as T
use dmarc_report_viewer.Tls.{
  PolicyType, TlsResultType, FailureResultType, PolicyResult, FailureDetails, policy_type_eq,
  tls_result_eq, failure_result_eq,
}
use dmarc_report_viewer.Http.Summary.{
  TlsSummary, tls_included, tls_policy, tls_report, tls_loop, empty_tls,
}
use dmarc_report_viewer.Http.Summary.Policies.{
  session_events, failure_events, if_sts, if_tlsa, sts_policy-sessions, tlsa_policy-sessions,
  sts_failures-sessions, tlsa_failures-sessions, others-sessions,
}

module _ (to_lowercase : String → String) where
  -- The loop skips the reports that are not included, and takes the others in turn.
  tls_loop-foldl :
      (threshold : Option ℤ) (df : Option String) (rs : List T.Report) (s : TlsSummary)
      → tls_loop to_lowercase threshold df s rs
        ≡ foldl (tls_report to_lowercase) s (filter (tls_included to_lowercase threshold df) rs)
  unfolding tls_loop filter
  tls_loop-foldl threshold df [] s = refl
  tls_loop-foldl threshold df (r ∷ rs) s =
      elim (Bool-cases (tls_included to_lowercase threshold df r)) [
        | inl h ↦ rw (h, tls_loop) (tls_loop-foldl threshold df rs (tls_report to_lowercase s r))
        | inr h ↦ rw (h, tls_loop) (tls_loop-foldl threshold df rs s)
      ]

  -- What one report counts in each map
  abbrev pub org_events : T.Report → List (String × ℕ)
  org_events r = (r.organization_name, 1) ∷ []

  abbrev pub domain_events : PolicyResult → List (String × ℕ)
  domain_events p = (to_lowercase p.policy.policy_domain, 1) ∷ []

  abbrev pub type_events : PolicyResult → List (PolicyType × ℕ)
  type_events p = (p.policy.policy_type, 1) ∷ []

  abbrev pub of_policies {ℓ} :
      {K : Type ℓ} → (PolicyResult → List (K × ℕ)) → T.Report → List (K × ℕ)
  of_policies events r = flat_map events r.policies

  counters-of {ℓ} :
      {K : Type ℓ} ⦃e : Eq K⦄ (counters : TlsSummary → List (K × ℕ))
      (events : T.Report → List (K × ℕ))
      → ((s : TlsSummary) (r : T.Report)
          → counters (tls_report to_lowercase s r) ≡ tally (events r) (counters s))
      → (threshold : Option ℤ) (df : Option String) (files n : ℕ) (reports : List T.Report)
      → counters (empty_tls files n) ≡ []
      → (k : K)
      → total k (counters (tls_loop to_lowercase threshold df (empty_tls files n) reports))
          % u64_mod
        ≡ weight k (flat_map events (filter (tls_included to_lowercase threshold df) reports))
          % u64_mod
  counters-of counters events h threshold df files n reports start k =
      let included = filter (tls_included to_lowercase threshold df) reports in
      let folded =
        fold-tally (tls_report to_lowercase) counters events h included (empty_tls files n) in
      rw (tls_loop-foldl, folded, start) (total-tally-nil k (flat_map events included))

  -- A map that only the policies count in
  of_policies-tally {ℓ} :
      {K : Type ℓ} ⦃e : Eq K⦄ (counters : TlsSummary → List (K × ℕ))
      (events : PolicyResult → List (K × ℕ))
      → ((s : TlsSummary) (orgs : List (String × ℕ))
          → counters (record s { orgs = orgs }) ≡ counters s)
      → ((s : TlsSummary) (p : PolicyResult)
          → counters (tls_policy to_lowercase s p) ≡ tally (events p) (counters s))
      → (s : TlsSummary) (r : T.Report)
      → counters (tls_report to_lowercase s r) ≡ tally (of_policies events r) (counters s)
  unfolding tls_report
  of_policies-tally counters events keeps h s r =
      fold-tally (tls_policy to_lowercase) counters events h r.policies _
      ∙ ap (tally (of_policies events r)) (keeps s (add r.organization_name 1 s.orgs))

  orgs-policies :
      (s : TlsSummary) (ps : List PolicyResult)
      → (foldl (tls_policy to_lowercase) s ps).orgs ≡ s.orgs
  unfolding tls_policy
  orgs-policies s [] = refl
  orgs-policies s (p ∷ ps) =
      orgs-policies (tls_policy to_lowercase s p) ps ∙ (others-sessions p.policy.policy_type p _).0

  -- The counters of a summary are the sums over some reports, modulo the word size: one for each
  -- organisation, and for each policy one for its domain and its type, and the sessions by result and
  -- the failures by type in the maps of the policy's type.
  pub record Counts (s : TlsSummary) (included : List T.Report) : Type 0 where
    pub orgs :
        (k : String) → total k s.orgs % u64_mod ≡ weight k (flat_map org_events included) % u64_mod
    pub domains :
        (k : String)
        → total k s.domains % u64_mod
          ≡ weight k (flat_map (of_policies domain_events) included) % u64_mod
    pub policy_types :
        (k : PolicyType)
        → total k s.policy_types % u64_mod
          ≡ weight k (flat_map (of_policies type_events) included) % u64_mod
    pub sts_policy :
        (k : TlsResultType)
        → total k s.sts_policy_results % u64_mod
          ≡ weight k (
              flat_map (of_policies (λ p. if_sts p.policy.policy_type (session_events p))) included)
            % u64_mod
    pub tlsa_policy :
        (k : TlsResultType)
        → total k s.tlsa_policy_results % u64_mod
          ≡ weight k (
              flat_map
                (of_policies (λ p. if_tlsa p.policy.policy_type (session_events p)))
                included)
            % u64_mod
    pub sts_failures :
        (k : FailureResultType)
        → total k s.sts_failure_types % u64_mod
          ≡ weight k (
              flat_map (of_policies (λ p. if_sts p.policy.policy_type (failure_events p))) included)
            % u64_mod
    pub tlsa_failures :
        (k : FailureResultType)
        → total k s.tlsa_failure_types % u64_mod
          ≡ weight k (
              flat_map
                (of_policies (λ p. if_tlsa p.policy.policy_type (failure_events p)))
                included)
            % u64_mod

  -- Every TLS counter of the summary is the sum over exactly the reports that the time span and the
  -- domain filter include, modulo the word size: one per report for the organisation, one per policy
  -- for its domain and its type, and the sessions by result and the failures by type of the policies of
  -- type MTA-STS and of those of type TLSA, each in their own maps.
  pub tls_counters :
      (threshold : Option ℤ) (df : Option String) (files n : ℕ) (reports : List T.Report)
      → Counts
          (tls_loop to_lowercase threshold df (empty_tls files n) reports)
          (filter (tls_included to_lowercase threshold df) reports)
  unfolding tls_report tls_policy
  tls_counters threshold df files n reports = record {
    orgs =
        counters-of (λ s. s.orgs) org_events
          (λ s r. orgs-policies _ r.policies ∙ sym (tally-one r.organization_name 1 s.orgs))
          threshold df files n reports refl;
    domains =
        counters-of (λ s. s.domains) (of_policies domain_events)
          (of_policies-tally (λ s. s.domains) domain_events (λ s orgs. refl)
            (λ s p.
              (others-sessions p.policy.policy_type p _).1
              ∙ sym (tally-one (to_lowercase p.policy.policy_domain) 1 s.domains)))
          threshold df files n reports refl;
    policy_types =
        counters-of (λ s. s.policy_types) (of_policies type_events)
          (of_policies-tally (λ s. s.policy_types) type_events (λ s orgs. refl)
            (λ s p.
              (others-sessions p.policy.policy_type p _).2
              ∙ sym (tally-one p.policy.policy_type 1 s.policy_types)))
          threshold df files n reports refl;
    sts_policy =
        counters-of (λ s. s.sts_policy_results) _
          (of_policies-tally (λ s. s.sts_policy_results) _ (λ s orgs. refl)
            (λ s p. sts_policy-sessions p.policy.policy_type p _))
          threshold df files n reports refl;
    tlsa_policy =
        counters-of (λ s. s.tlsa_policy_results) _
          (of_policies-tally (λ s. s.tlsa_policy_results) _ (λ s orgs. refl)
            (λ s p. tlsa_policy-sessions p.policy.policy_type p _))
          threshold df files n reports refl;
    sts_failures =
        counters-of (λ s. s.sts_failure_types) _
          (of_policies-tally (λ s. s.sts_failure_types) _ (λ s orgs. refl)
            (λ s p. sts_failures-sessions p.policy.policy_type p _))
          threshold df files n reports refl;
    tlsa_failures =
        counters-of (λ s. s.tlsa_failure_types) _
          (of_policies-tally (λ s. s.tlsa_failure_types) _ (λ s orgs. refl)
            (λ s p. tlsa_failures-sessions p.policy.policy_type p _))
          threshold df files n reports refl;
  }
