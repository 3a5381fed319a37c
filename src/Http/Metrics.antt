-- ===== src/Http/Metrics.antt =====
-- src/http/metrics.rs: the numbers of mails, files and reports as text, with the reports per domain.
pub mod Domains
use mathlib.Core.List.{foldl}
use dmarc_report_viewer.Common.{
  ℕ, ◌+◌, ◌-◌, ◌%◌, String, Option, none, some, List, [], ◌∷◌, map, length, add_u64, u64_mod,
  string_eq,
}
use dmarc_report_viewer.Common.Map
use dmarc_report_viewer.Common.BTree
use dmarc_report_viewer.Common.Text.{to_string}
use dmarc_report_viewer.Common.Texts.{concat}
use dmarc_report_viewer.State.{AppState}
use dmarc_report_viewer.Background.{values}

abbrev pub or_zero : Option ℕ → ℕ
or_zero none = 0
or_zero (some n) = n

-- `*result.entry(domain).or_insert(0) += 1`
unfoldable pub count_domain : List (String × ℕ) → String → List (String × ℕ)
count_domain result domain =
    BTree.insert domain (add_u64 (or_zero (Map.get domain result)) 1) result

unfoldable pub get_dmarc_per_domain : {L : Type 0} → AppState L → List (String × ℕ)
unfolding count_domain
get_dmarc_per_domain state =
    foldl (λ result w. count_domain result w.report.policy_published.domain) []
      (values state.dmarc_reports)

unfoldable pub get_tls_per_domain : {L : Type 0} → AppState L → List (String × ℕ)
unfolding count_domain
get_tls_per_domain state =
    foldl
      (λ result w.
        foldl (λ result p. count_domain result p.policy.policy_domain) result w.report.policies)
      [] (values state.tls_reports)

unfoldable pub format_labeled_metric : List (String × ℕ) → String → String → String
format_labeled_metric entries metric_name label_name = concat (
    map
      (λ e.
        concat (metric_name ∷ "{" ∷ label_name ∷ "=\"" ∷ e.0 ∷ "\"} " ∷ to_string e.1 ∷ "\n" ∷ []))
      entries)

-- `now` is the time in seconds since the epoch; the difference wraps.
unfoldable pub handler : {L : Type 0} → ℕ → AppState L → String
unfolding get_dmarc_per_domain get_tls_per_domain format_labeled_metric
handler now state = concat (
    "mails "
    ∷ to_string (length state.mails)
    ∷ "\nxml_files "
    ∷ to_string state.xml_files
    ∷ "\njson_files "
    ∷ to_string state.json_files
    ∷ "\ndmarc_reports "
    ∷ to_string (length state.dmarc_reports)
    ∷ "\n"
    ∷ format_labeled_metric (get_dmarc_per_domain state) "dmarc_reports" "domain"
    ∷ "tls_reports "
    ∷ to_string (length state.tls_reports)
    ∷ "\n"
    ∷ format_labeled_metric (get_tls_per_domain state) "tls_reports" "domain"
    ∷ "last_update "
    ∷ to_string state.last_update
    ∷ "\nlast_update_duration "
    ∷ state.last_update_duration
    ∷ "\nstart_time "
    ∷ to_string state.start_time
    ∷ "\nuptime "
    ∷ to_string ((now + u64_mod - state.start_time) % u64_mod)
    ∷ "\n"
    ∷ [])
