-- ===== src/Http/Metrics/Domains.antt =====
-- src/http/metrics.rs: the reports of each domain.
use dmarc_report_viewer.Common.{
  ℕ, ◌+◌, ◌%◌, String, ◌≡◌, refl, sym, ap, ◌∙◌, Option, some, List, [], ◌∷◌, map, length, ◌-◌, Bool,
  true, false, ◌==◌, if◌then◌else◌, add_u64, add_u64_lem, u64_mod, string_eq, arith,
}
use Prim.Native.String as S
use text.Mathlib.TextLemmas.{nil-append, append_assoc}
use dmarc_report_viewer.Common.Text.{to_string}
use dmarc_report_viewer.Common.Texts.{concat}
use dmarc_report_viewer.Common.Map
use dmarc_report_viewer.Common.BTree
use dmarc_report_viewer.Common.BTree.{IsSorted, insert-IsSorted}
use dmarc_report_viewer.Common.Sums.{sum, foldl-sum, foldl-keeps}
use dmarc_report_viewer.State.{AppState, DmarcReportWithMailId, TlsReportWithMailId}
use dmarc_report_viewer.Tls.{PolicyResult}
use dmarc_report_viewer.Background.{values}
use dmarc_report_viewer.Http.Metrics.{
  or_zero, count_domain, get_dmarc_per_domain, get_tls_per_domain, format_labeled_metric, handler,
}

abbrev pub number_of : String → List (String × ℕ) → ℕ
number_of domain result = or_zero (Map.get domain result)

-- What a text counts for a domain
abbrev pub hits : String → String → ℕ
hits domain text = if text == domain then 1 else 0

or_zero-if :
    (b : Bool) (n : ℕ) (o : Option ℕ)
    → or_zero (if b then some n else o) ≡ (if b then n else or_zero o)
or_zero-if true n o = refl
or_zero-if false n o = refl

one_more :
    (b : Bool) (c old other : ℕ)
    → c ≡ (if b then add_u64 old 1 else other)
    → (b ≡ true → old ≡ other)
    → c % u64_mod ≡ (other + (if b then 1 else 0)) % u64_mod
one_more true c old other h same = omega (arith, h, same refl, add_u64_lem old 1)
one_more false c old other h same = omega (arith, h)

number_of-count_domain :
    (domain : String) (result : List (String × ℕ)) (text : String)
    → number_of domain (count_domain result text) % u64_mod
      ≡ (number_of domain result + hits domain text) % u64_mod
unfolding count_domain
number_of-count_domain domain result text =
    one_more (text == domain) _ (number_of text result) (number_of domain result)
      (ap or_zero (BTree.get-insert text domain _ result)
        ∙ or_zero-if (text == domain) _ (Map.get domain result))
      (λ e. ap (λ x. number_of x result) ((string_eq.equals_iff text domain).0 e))

-- Some numbers per domain are those of the DMARC reports and of the policies of the TLS reports, by rising
-- domains.
pub record Numbers {L : Type 0} (state : AppState L) (dmarc tls : List (String × ℕ)) : Type 0 where
  pub dmarc_numbers :
      (domain : String)
      → number_of domain dmarc % u64_mod
        ≡ sum
            (λ (w : DmarcReportWithMailId). hits domain w.report.policy_published.domain)
            (values state.dmarc_reports)
          % u64_mod
  pub tls_numbers :
      (domain : String)
      → number_of domain tls % u64_mod
        ≡ sum
            (λ (w : TlsReportWithMailId).
              sum (λ (p : PolicyResult). hits domain p.policy.policy_domain) w.report.policies)
            (values state.tls_reports)
          % u64_mod
  pub dmarc_order : IsSorted dmarc
  pub tls_order : IsSorted tls

numbers_lem :
    {L : Type 0} (state : AppState L)
    → Numbers state (get_dmarc_per_domain state) (get_tls_per_domain state)
unfolding get_dmarc_per_domain get_tls_per_domain Map.get count_domain
numbers_lem state = record {
  dmarc_numbers = λ domain.
      foldl-sum _ (number_of domain) _
        (λ result w. number_of-count_domain domain result w.report.policy_published.domain)
        (values state.dmarc_reports) []
      ∙ zero_plus _;
  tls_numbers = λ domain.
      foldl-sum _ (number_of domain) _
        (λ result w.
          foldl-sum _ (number_of domain) _
            (λ result p. number_of-count_domain domain result p.policy.policy_domain)
            w.report.policies result)
        (values state.tls_reports) []
      ∙ zero_plus _;
  dmarc_order =
      foldl-keeps IsSorted _ (λ result w h. insert-IsSorted _ _ result h)
        (values state.dmarc_reports) [] tt;
  tls_order =
      foldl-keeps IsSorted _
        (λ result w h.
          foldl-keeps IsSorted _ (λ result p h. insert-IsSorted _ _ result h) w.report.policies
            result h)
        (values state.tls_reports) [] tt;
}
  where
    zero_plus : (n : ℕ) → (0 + n) % u64_mod ≡ n % u64_mod
    zero_plus n = omega arith

-- A line with a name and a value, and a line of a domain
abbrev pub line : String → String → String
line name value = concat (name ∷ value ∷ "\n" ∷ [])

abbrev pub domain_line : String → String × ℕ → String
domain_line name (domain, n) =
    concat (name ∷ "{domain=\"" ∷ domain ∷ "\"} " ∷ to_string n ∷ "\n" ∷ [])

-- The lines of the metrics
abbrev pub lines :
    {L : Type 0} → ℕ → AppState L → List (String × ℕ) → List (String × ℕ) → List String
lines now state dmarc tls =
    line "mails " (to_string (length state.mails))
    ∷ line "xml_files " (to_string state.xml_files)
    ∷ line "json_files " (to_string state.json_files)
    ∷ line "dmarc_reports " (to_string (length state.dmarc_reports))
    ∷ concat (map (domain_line "dmarc_reports") dmarc)
    ∷ line "tls_reports " (to_string (length state.tls_reports))
    ∷ concat (map (domain_line "tls_reports") tls)
    ∷ line "last_update " (to_string state.last_update)
    ∷ line "last_update_duration " state.last_update_duration
    ∷ line "start_time " (to_string state.start_time)
    ∷ line "uptime " (to_string ((now + u64_mod - state.start_time) % u64_mod))
    ∷ []

bracket : (x : String) → S.◌++◌ "{" (S.◌++◌ "domain" (S.◌++◌ "=\"" x)) ≡ S.◌++◌ "{domain=\"" x
bracket x = sym (append_assoc "{" "domain=\"" x ∙ ap (S.◌++◌ "{") (append_assoc "domain" "=\"" x))

labelled :
    (name : String) (entries : List (String × ℕ))
    → format_labeled_metric entries name "domain" ≡ concat (map (domain_line name) entries)
unfolding format_labeled_metric concat
labelled name [] = refl
labelled name ((domain, n) ∷ entries) =
    ap
      (λ s. S.◌++◌ (S.◌++◌ name s) (
        concat (
          map
            (λ e. concat (name ∷ "{" ∷ "domain" ∷ "=\"" ∷ e.0 ∷ "\"} " ∷ to_string e.1 ∷ "\n" ∷ []))
            entries)))
      (bracket (concat (domain ∷ "\"} " ∷ to_string n ∷ "\n" ∷ [])))
    ∙ ap (S.◌++◌ (domain_line name (domain, n))) (labelled name entries)

-- A line break before a name
break-xml_files : (x : String) → S.◌++◌ "\n" (S.◌++◌ "xml_files " x) ≡ S.◌++◌ "\nxml_files " x
break-xml_files x = sym (append_assoc "\n" "xml_files " x)

break-json_files : (x : String) → S.◌++◌ "\n" (S.◌++◌ "json_files " x) ≡ S.◌++◌ "\njson_files " x
break-json_files x = sym (append_assoc "\n" "json_files " x)

break-dmarc_reports :
    (x : String) → S.◌++◌ "\n" (S.◌++◌ "dmarc_reports " x) ≡ S.◌++◌ "\ndmarc_reports " x
break-dmarc_reports x = sym (append_assoc "\n" "dmarc_reports " x)

break-last_update_duration :
    (x : String)
    → S.◌++◌ "\n" (S.◌++◌ "last_update_duration " x) ≡ S.◌++◌ "\nlast_update_duration " x
break-last_update_duration x = sym (append_assoc "\n" "last_update_duration " x)

break-start_time : (x : String) → S.◌++◌ "\n" (S.◌++◌ "start_time " x) ≡ S.◌++◌ "\nstart_time " x
break-start_time x = sym (append_assoc "\n" "start_time " x)

break-uptime : (x : String) → S.◌++◌ "\n" (S.◌++◌ "uptime " x) ≡ S.◌++◌ "\nuptime " x
break-uptime x = sym (append_assoc "\n" "uptime " x)

-- The metrics are lines of a name and a value: the numbers of mails, files and reports, after the DMARC reports a
-- line for each domain with the number of reports that are published for it, after the TLS reports a
-- line for each domain with the number of policies (not of reports) that have it, modulo the word
-- size, each domain once and in rising order, and the times at the end.
pub handler-lines :
    {L : Type 0} (now : ℕ) (state : AppState L)
    → (dmarc : List (String × ℕ)) × (tls : List (String × ℕ)) × (handler now state
        ≡ concat (lines now state dmarc tls))
      × Numbers state dmarc tls
unfolding handler concat
handler-lines now state = (
  get_dmarc_per_domain state,
  get_tls_per_domain state,
  simp (
    append_assoc, nil-append, labelled, break-xml_files, break-json_files, break-dmarc_reports,
    break-last_update_duration, break-start_time, break-uptime,
  ),
  numbers_lem state,
)
