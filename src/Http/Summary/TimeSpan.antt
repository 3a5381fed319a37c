-- ===== src/Http/Summary/TimeSpan.antt =====
-- src/http/summary.rs: the time span before the Unix epoch.
use mathlib.Core.Option
use dmarc_report_viewer.Common.{
  ℕ, ◌<◌, ◌^◌, ◌≡◌, refl, String, Option, some, false, List, [], ◌∷◌, map, length, arith,
}
use dmarc_report_viewer.Common.Int.{ℤ, negsuc}
use dmarc_report_viewer.Http.{HttpEnv}
use dmarc_report_viewer.Dmarc as D
use dmarc_report_viewer.Http.Summary.{
  Chrono, Files, Reports, DmarcSummary, Summary, dmarc_included, dmarc_loop, tls_loop, empty_dmarc,
  empty_tls, as_u64, threshold_at, new,
}

-- Every report of the list ends before the year 292 billion, as a signed number of seconds has it.
abbrev pub EndsInRange : List D.Report → Type 0
EndsInRange [] = Unit
EndsInRange (r ∷ rs) = (r.report_metadata.date_range.end < 2 ^ 63) × EndsInRange rs

module _ (to_lowercase : String → String) where
  excluded_before_1970 :
      (n : ℕ) (df : Option String) (r : D.Report)
      → n < 2 ^ 63
      → r.report_metadata.date_range.end < 2 ^ 63
      → dmarc_included to_lowercase (some (as_u64 (negsuc n))) df r ≡ false
  unfolding dmarc_included as_u64
  excluded_before_1970 n df r h k = ground arith

  -- The loop leaves the summary as it is.
  dmarc_loop_before_1970 :
      (n : ℕ) (df : Option String) (s : DmarcSummary) (reports : List D.Report)
      → n < 2 ^ 63
      → EndsInRange reports
      → dmarc_loop to_lowercase (some (as_u64 (negsuc n))) df s reports ≡ s
  unfolding dmarc_loop
  dmarc_loop_before_1970 n df s [] h k = refl
  dmarc_loop_before_1970 n df s (r ∷ rs) h k =
      rw (excluded_before_1970 n df r h k.0) (dmarc_loop_before_1970 n df s rs h k.1)

-- A time span that reaches back before 1970 wraps to a threshold in the far future, although the
-- whole past was asked for: where the date counted back from the clock exists at both readings of it
-- and its seconds at the first are negative, down to -2^63, and where every DMARC report ends below
-- 2^63, the summary is made and no DMARC report counts in any of its DMARC counters.
pub new-before_1970 :
    (env : HttpEnv) (chrono : Chrono) (now now' : ℤ) (mails : ℕ) (files : Files) (reports : Reports)
    (last next : ℕ) (hours : ℤ) (domain : Option String) {t t' : ℤ} {n : ℕ}
    → chrono.hours_before now hours ≡ some t
    → chrono.hours_before now' hours ≡ some t'
    → chrono.timestamp t ≡ negsuc n
    → n < 2 ^ 63
    → EndsInRange (map (λ e. e.1.report) reports.dmarc)
    → (s : Summary) × (new env chrono now now' mails files reports last next (some hours) domain
        ≡ some s)
      × (s.dmarc ≡ empty_dmarc files.xml (length reports.dmarc))
unfolding new threshold_at
new-before_1970 env chrono now now' mails files reports last next hours domain {t} {t'} {n} h h' e k
      r =
    let df = Option.map env.to_lowercase domain in
    let rs = map (λ e. e.1.report) reports.dmarc in
    let empty = empty_dmarc files.xml (length reports.dmarc) in
    let made : Summary = record {
      mails = mails;
      last_update = last;
      next_update = next;
      dmarc = dmarc_loop env.to_lowercase (some (as_u64 (chrono.timestamp t))) df empty rs;
      tls =
          tls_loop env.to_lowercase (some t') df (empty_tls files.json (length reports.tls))
            (map (λ e. e.1.report) reports.tls);
    } in
    let returned : new env chrono now now' mails files reports last next (some hours) domain
        ≡ some made =
      rw (h, h', new) refl in
    (made, returned, rw e (dmarc_loop_before_1970 env.to_lowercase n df empty rs k r))
