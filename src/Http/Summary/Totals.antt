-- ===== src/Http/Summary/Totals.antt =====
-- src/http/summary.rs: the counters of a whole summary, with its time span and its domain.
use mathlib.Core.Path.{subst}
use mathlib.Core.Option
use dmarc_report_viewer.Common.{
  ℕ, ◌≡◌, refl, sym, ap, ◌∙◌, ◌↔◌, String, Option, none, some, map, Bool, true, string_eq, filter,
  length, Option-cases, inl, inr,
}
use dmarc_report_viewer.Common.Int.{ℤ}
use dmarc_report_viewer.Dmarc as D
use dmarc_report_viewer.Tls as T
use dmarc_report_viewer.Tls.{PolicyResult}
use dmarc_report_viewer.Http.{HttpEnv}
use dmarc_report_viewer.Http.Summary.{
  Chrono, Files, Reports, DmarcSummary, TlsSummary, Summary, dmarc_included, tls_included,
  dmarc_loop, tls_loop, empty_dmarc, empty_tls, as_u64, threshold_at, new,
}
use dmarc_report_viewer.Http.Summary.Dmarc as SD
use dmarc_report_viewer.Http.Summary.Dmarc.{dmarc_counters}
use dmarc_report_viewer.Http.Summary.Filters.{
  DmarcCounts, TlsCounts, dmarc_included_iff, tls_included_iff,
}
use dmarc_report_viewer.Http.Summary.Sizes.{dmarc_loop-HasDmarcSizes, tls_loop-HasTlsSizes}
use dmarc_report_viewer.Http.Summary.Tls as ST
use dmarc_report_viewer.Http.Summary.Tls.{tls_counters}

abbrev dmarc_or : Summary → Option Summary → DmarcSummary
dmarc_or s none = s.dmarc
dmarc_or s (some t) = t.dmarc

abbrev tls_or : Summary → Option Summary → TlsSummary
tls_or s none = s.tls
tls_or s (some t) = t.tls

module _ (env : HttpEnv) (chrono : Chrono) where
  -- The parts of a summary, where the time spans can be counted back
  abbrev IsMade :
      ℤ → ℤ → Files → Reports → Option ℤ → Option String → Summary → Option ℤ → Option ℤ → Type 0
  IsMade now now' files reports time_span domain s since since' =
      (threshold_at env chrono now time_span ≡ some since)
      × (threshold_at env chrono now' time_span ≡ some since')
      × (s.dmarc
          ≡ dmarc_loop env.to_lowercase (Option.map (λ t. as_u64 (chrono.timestamp t)) since)
              (Option.map env.to_lowercase domain) (empty_dmarc files.xml (length reports.dmarc))
              (map (λ e. e.1.report) reports.dmarc))
      × (s.tls
          ≡ tls_loop env.to_lowercase since' (Option.map env.to_lowercase domain)
              (empty_tls files.json (length reports.tls)) (map (λ e. e.1.report) reports.tls))

  made :
      (now now' : ℤ) (mails : ℕ) (files : Files) (reports : Reports) (last next : ℕ)
      (time_span : Option ℤ) (domain : Option String) (s : Summary)
      → new env chrono now now' mails files reports last next time_span domain ≡ some s
      → (since : Option ℤ) × (since' : Option ℤ) × IsMade now now' files reports time_span domain s
          since since'
  unfolding new
  made now now' mails files reports last next time_span domain s h =
      elim (Option-cases (threshold_at env chrono now time_span)) [
        | inl e ↦ let no : none ≡ some s = rw (e, new) at h in absurd cc
        | inr (since, e) ↦ elim (Option-cases (threshold_at env chrono now' time_span)) [
          | inl f ↦ let no : none ≡ some s = rw (e, f, new) at h in absurd cc
          | inr (since', f) ↦
              let p = rw (e, f, new) at h in
              (since, since', (e, f, sym (ap (dmarc_or s) p), sym (ap (tls_or s) p)))
        ]
      ]

  -- Where `Summary::new` returns a summary, its DMARC counters are the sums, modulo the word size, over
  -- exactly the reports that end at the start of the time span or later and whose domain is the chosen
  -- one: one per report for organisation and domain, the messages of each record for its SPF and DKIM
  -- results and evaluations. The start of the time span is the clock less the hours of the span, in
  -- seconds, and wraps to a number of 64 bits where it is negative; without a span every report counts,
  -- and without a chosen domain every domain. The numbers of files and reports are not filtered.
  pub dmarc_totals :
      (now now' : ℤ) (mails : ℕ) (files : Files) (reports : Reports) (last next : ℕ)
      (time_span : Option ℤ) (domain : Option String) {s : Summary}
      → new env chrono now now' mails files reports last next time_span domain ≡ some s
      → (included : D.Report → Bool) × ((r : D.Report)
          → (included r ≡ true) ↔ DmarcCounts env chrono now time_span domain r)
        × (s.dmarc.files ≡ files.xml)
        × (s.dmarc.reports ≡ length reports.dmarc)
        × SD.Counts env.to_lowercase s.dmarc (filter included (map (λ e. e.1.report) reports.dmarc))
  dmarc_totals now now' mails files reports last next time_span domain {s} h =
      let (since, since', (e, f, p, q)) =
        made now now' mails files reports last next time_span domain s h in
      let threshold = Option.map (λ t. as_u64 (chrono.timestamp t)) since in
      let df = Option.map env.to_lowercase domain in
      let rs = map (λ e. e.1.report) reports.dmarc in
      let sizes =
        dmarc_loop-HasDmarcSizes env.to_lowercase files.xml (length reports.dmarc) threshold df rs
          (empty_dmarc files.xml (length reports.dmarc)) (refl, refl) in
      (
        dmarc_included env.to_lowercase threshold df,
        λ r. dmarc_included_iff env chrono now time_span since domain r e,
        ap (λ d. d.files) p ∙ sizes.0,
        ap (λ d. d.reports) p ∙ sizes.1,
        subst
            (λ d.
              SD.Counts env.to_lowercase d
                (filter (dmarc_included env.to_lowercase threshold df) rs))
            (sym p)
            (dmarc_counters env.to_lowercase threshold df files.xml (length reports.dmarc) rs),
      )

  -- Where `Summary::new` returns a summary, its TLS counters are the sums, modulo the word size, over
  -- exactly the reports that end at the start of the time span or later and that have a policy for the
  -- chosen domain: one per report for the organisation, one per policy for its domain and its type, and
  -- the sessions by result and the failures by type of the policies of type MTA-STS and of those of
  -- type TLSA, each in their own maps. A report that counts does so with all its policies, those for
  -- other domains than the chosen one included. Without a time span or a chosen domain nothing is left
  -- out for it. The numbers of files and reports are not filtered.
  pub tls_totals :
      (now now' : ℤ) (mails : ℕ) (files : Files) (reports : Reports) (last next : ℕ)
      (time_span : Option ℤ) (domain : Option String) {s : Summary}
      → new env chrono now now' mails files reports last next time_span domain ≡ some s
      → (included : T.Report → Bool) × ((r : T.Report)
          → (included r ≡ true) ↔ TlsCounts env chrono now' time_span domain r)
        × (s.tls.files ≡ files.json)
        × (s.tls.reports ≡ length reports.tls)
        × ST.Counts env.to_lowercase s.tls (filter included (map (λ e. e.1.report) reports.tls))
  tls_totals now now' mails files reports last next time_span domain {s} h =
      let (since, since', (e, f, p, q)) =
        made now now' mails files reports last next time_span domain s h in
      let df = Option.map env.to_lowercase domain in
      let rs = map (λ e. e.1.report) reports.tls in
      let sizes =
        tls_loop-HasTlsSizes env.to_lowercase files.json (length reports.tls) since' df rs
          (empty_tls files.json (length reports.tls)) (refl, refl) in
      (
        tls_included env.to_lowercase since' df,
        λ r. tls_included_iff env chrono now' time_span since' domain r f,
        ap (λ d. d.files) q ∙ sizes.0,
        ap (λ d. d.reports) q ∙ sizes.1,
        subst
            (λ d.
              ST.Counts env.to_lowercase d (filter (tls_included env.to_lowercase since' df) rs))
            (sym q) (tls_counters env.to_lowercase since' df files.json (length reports.tls) rs),
      )
