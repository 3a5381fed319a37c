-- ===== src/Http/Summary/Dmarc.antt =====
-- src/http/summary.rs: each DMARC counter is the sum of what it counts.
use mathlib.Core.List.{foldl}
use dmarc_report_viewer.Common.{
  ℕ, ◌%◌, String, ◌≡◌, refl, sym, ◌∙◌, Option, none, some, List, [], ◌∷◌, map, Bool-cases, inl, inr,
  filter, flat_map, or_empty, string_eq, Eq, u64_mod,
}
use dmarc_report_viewer.Common.Tally.{
  tally, total, weight, total-tally-nil, fold-tally, add_each-eq-tally, tally-one, tally-nil,
}
use dmarc_report_viewer.Dmarc as D
use dmarc_report_viewer.Dmarc.{
  DmarcResultType, DkimResultType, SpfResultType, dmarc_result_eq, dkim_result_eq, spf_result_eq,
  RecordType,
}
use dmarc_report_viewer.Http.Summary.{
  DmarcSummary, add_result, add_dkim, dmarc_record, dmarc_included, dmarc_report, dmarc_loop,
  empty_dmarc,
}

-- What one record counts: each authentication result, and each evaluation, with the messages.
abbrev pub spf_auth_events : RecordType → List (SpfResultType × ℕ)
spf_auth_events r = map (λ x. (x.result, r.row.count)) r.auth_results.spf

abbrev pub dkim_auth_events : RecordType → List (DkimResultType × ℕ)
dkim_auth_events r = map (λ x. (x.result, r.row.count)) (or_empty r.auth_results.dkim)

abbrev result_events : Option DmarcResultType → ℕ → List (DmarcResultType × ℕ)
result_events none n = []
result_events (some x) n = (x, n) ∷ []

abbrev pub spf_policy_events : RecordType → List (DmarcResultType × ℕ)
spf_policy_events r = result_events r.row.policy_evaluated.spf r.row.count

abbrev pub dkim_policy_events : RecordType → List (DmarcResultType × ℕ)
dkim_policy_events r = result_events r.row.policy_evaluated.dkim r.row.count

add_dkim-tally :
    (o : Option (List D.DkimAuthResultType)) (n : ℕ) (m : List (DkimResultType × ℕ))
    → add_dkim o n m ≡ tally (map (λ x. (x.result, n)) (or_empty o)) m
add_dkim-tally none n m = sym (tally-nil m)
add_dkim-tally (some xs) n m = add_each-eq-tally _ n xs m

add_result-tally :
    (o : Option DmarcResultType) (n : ℕ) (m : List (DmarcResultType × ℕ))
    → add_result o n m ≡ tally (result_events o n) m
add_result-tally none n m = sym (tally-nil m)
add_result-tally (some x) n m = sym (tally-one x n m)

-- The four maps of a record's loop
spf_auth-report :
    (s : DmarcSummary) (rs : List RecordType)
    → (foldl dmarc_record s rs).spf_auth_results
      ≡ tally (flat_map spf_auth_events rs) s.spf_auth_results
unfolding dmarc_record
spf_auth-report s rs =
    fold-tally dmarc_record (λ s. s.spf_auth_results) spf_auth_events
      (λ s r. add_each-eq-tally _ r.row.count r.auth_results.spf s.spf_auth_results) rs s

dkim_auth-report :
    (s : DmarcSummary) (rs : List RecordType)
    → (foldl dmarc_record s rs).dkim_auth_results
      ≡ tally (flat_map dkim_auth_events rs) s.dkim_auth_results
unfolding dmarc_record
dkim_auth-report s rs =
    fold-tally dmarc_record (λ s. s.dkim_auth_results) dkim_auth_events
      (λ s r. add_dkim-tally r.auth_results.dkim r.row.count s.dkim_auth_results) rs s

spf_policy-report :
    (s : DmarcSummary) (rs : List RecordType)
    → (foldl dmarc_record s rs).spf_policy_results
      ≡ tally (flat_map spf_policy_events rs) s.spf_policy_results
unfolding dmarc_record
spf_policy-report s rs =
    fold-tally dmarc_record (λ s. s.spf_policy_results) spf_policy_events
      (λ s r. add_result-tally r.row.policy_evaluated.spf r.row.count s.spf_policy_results) rs s

dkim_policy-report :
    (s : DmarcSummary) (rs : List RecordType)
    → (foldl dmarc_record s rs).dkim_policy_results
      ≡ tally (flat_map dkim_policy_events rs) s.dkim_policy_results
unfolding dmarc_record
dkim_policy-report s rs =
    fold-tally dmarc_record (λ s. s.dkim_policy_results) dkim_policy_events
      (λ s r. add_result-tally r.row.policy_evaluated.dkim r.row.count s.dkim_policy_results) rs s

orgs-report : (s : DmarcSummary) (rs : List RecordType) → (foldl dmarc_record s rs).orgs ≡ s.orgs
unfolding dmarc_record
orgs-report s [] = refl
orgs-report s (r ∷ rs) = orgs-report (dmarc_record s r) rs

domains-report :
    (s : DmarcSummary) (rs : List RecordType) → (foldl dmarc_record s rs).domains ≡ s.domains
unfolding dmarc_record
domains-report s [] = refl
domains-report s (r ∷ rs) = domains-report (dmarc_record s r) rs

module _ (to_lowercase : String → String) where
  -- The loop skips the reports that are not included, and takes the others in turn.
  dmarc_loop-foldl :
      (threshold : Option ℕ) (df : Option String) (rs : List D.Report) (s : DmarcSummary)
      → dmarc_loop to_lowercase threshold df s rs
        ≡ foldl (dmarc_report to_lowercase) s (filter (dmarc_included to_lowercase threshold df) rs)
  unfolding dmarc_loop filter
  dmarc_loop-foldl threshold df [] s = refl
  dmarc_loop-foldl threshold df (r ∷ rs) s =
      elim (Bool-cases (dmarc_included to_lowercase threshold df r)) [
        | inl h ↦
            rw (h, dmarc_loop) (dmarc_loop-foldl threshold df rs (dmarc_report to_lowercase s r))
        | inr h ↦ rw (h, dmarc_loop) (dmarc_loop-foldl threshold df rs s)
      ]

  -- What one report counts in each map
  abbrev pub org_events : D.Report → List (String × ℕ)
  org_events r = (r.report_metadata.org_name, 1) ∷ []

  abbrev pub domain_events : D.Report → List (String × ℕ)
  domain_events r = (to_lowercase r.policy_published.domain, 1) ∷ []

  abbrev pub of_records {ℓ} : {K : Type ℓ} → (RecordType → List (K × ℕ)) → D.Report → List (K × ℕ)
  of_records events r = flat_map events r.records

  -- A map that starts empty, and to which every included report adds its events, holds for each
  -- key the sum of the included events.
  counters-of {ℓ} :
      {K : Type ℓ} ⦃e : Eq K⦄ (counters : DmarcSummary → List (K × ℕ))
      (events : D.Report → List (K × ℕ))
      → ((s : DmarcSummary) (r : D.Report)
          → counters (dmarc_report to_lowercase s r) ≡ tally (events r) (counters s))
      → (threshold : Option ℕ) (df : Option String) (files n : ℕ) (reports : List D.Report)
      → counters (empty_dmarc files n) ≡ []
      → (k : K)
      → total k (counters (dmarc_loop to_lowercase threshold df (empty_dmarc files n) reports))
          % u64_mod
        ≡ weight k (flat_map events (filter (dmarc_included to_lowercase threshold df) reports))
          % u64_mod
  counters-of counters events h threshold df files n reports start k =
      let included = filter (dmarc_included to_lowercase threshold df) reports in
      let folded =
        fold-tally (dmarc_report to_lowercase) counters events h included (empty_dmarc files n) in
      rw (dmarc_loop-foldl, folded, start) (total-tally-nil k (flat_map events included))

  -- The counters of a summary are the sums over some reports, modulo the word size: one for each
  -- organisation and domain, and the messages of each record for its results and evaluations.
  pub record Counts (s : DmarcSummary) (included : List D.Report) : Type 0 where
    pub orgs :
        (k : String) → total k s.orgs % u64_mod ≡ weight k (flat_map org_events included) % u64_mod
    pub domains :
        (k : String)
        → total k s.domains % u64_mod ≡ weight k (flat_map domain_events included) % u64_mod
    pub spf_auth :
        (k : SpfResultType)
        → total k s.spf_auth_results % u64_mod
          ≡ weight k (flat_map (of_records spf_auth_events) included) % u64_mod
    pub dkim_auth :
        (k : DkimResultType)
        → total k s.dkim_auth_results % u64_mod
          ≡ weight k (flat_map (of_records dkim_auth_events) included) % u64_mod
    pub spf_policy :
        (k : DmarcResultType)
        → total k s.spf_policy_results % u64_mod
          ≡ weight k (flat_map (of_records spf_policy_events) included) % u64_mod
    pub dkim_policy :
        (k : DmarcResultType)
        → total k s.dkim_policy_results % u64_mod
          ≡ weight k (flat_map (of_records dkim_policy_events) included) % u64_mod

  -- Every DMARC counter of the summary is the sum over exactly the reports that the time span and
  -- the domain filter include, modulo the word size: one per report for organisation and domain,
  -- the messages of each record for its SPF and DKIM results and evaluations.
  pub dmarc_counters :
      (threshold : Option ℕ) (df : Option String) (files n : ℕ) (reports : List D.Report)
      → Counts
          (dmarc_loop to_lowercase threshold df (empty_dmarc files n) reports)
          (filter (dmarc_included to_lowercase threshold df) reports)
  unfolding dmarc_report
  dmarc_counters threshold df files n reports = record {
    orgs =
        counters-of (λ s. s.orgs) org_events
          (λ s r. orgs-report _ r.records ∙ sym (tally-one r.report_metadata.org_name 1 s.orgs))
          threshold df files n reports refl;
    domains =
        counters-of (λ s. s.domains) domain_events
          (λ s r.
            domains-report _ r.records
            ∙ sym (tally-one (to_lowercase r.policy_published.domain) 1 s.domains))
          threshold df files n reports refl;
    spf_auth =
        counters-of (λ s. s.spf_auth_results) (of_records spf_auth_events)
          (λ s r. spf_auth-report _ r.records) threshold df files n reports refl;
    dkim_auth =
        counters-of (λ s. s.dkim_auth_results) (of_records dkim_auth_events)
          (λ s r. dkim_auth-report _ r.records) threshold df files n reports refl;
    spf_policy =
        counters-of (λ s. s.spf_policy_results) (of_records spf_policy_events)
          (λ s r. spf_policy-report _ r.records) threshold df files n reports refl;
    dkim_policy =
        counters-of (λ s. s.dkim_policy_results) (of_records dkim_policy_events)
          (λ s r. dkim_policy-report _ r.records) threshold df files n reports refl;
  }
