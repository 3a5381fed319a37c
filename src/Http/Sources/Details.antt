-- ===== src/Http/Sources/Details.antt =====
-- src/http/sources.rs: what one record or one failure does to the details of an address.
use dmarc_report_viewer.Common.{
  ℕ, String, ◌≡◌, refl, ap, ◌∙◌, Option, none, some, List, Bool, true, false, ◌==◌, ◌||◌, ◌&&◌, any,
  Eq, arith, Bool-cases, inl, inr,
}
use dmarc_report_viewer.Common.Ip.{IpAddr, ip_eq}
use dmarc_report_viewer.Common.Map
use dmarc_report_viewer.Common.Map.{get-insert}
use dmarc_report_viewer.Dmarc.{RecordType, dmarc_result_eq, dkim_result_eq, spf_result_eq}
use dmarc_report_viewer.Tls.{failure_result_eq}
use dmarc_report_viewer.Http.Sources.Kinds.{
  is_failed, record_has, policy_fails-eq, dkim_auth_fails-eq, spf_auth_fails-eq,
}
use dmarc_report_viewer.Http.Sources.{
  Issue, Issue-discrete, ReportType, IpMap, SourceDetails, new_details, touch, set_insert,
  insert_if, detect_dmarc_issues, issue_eq, report_type_eq,
}

module _ {A : Type 0} ⦃e : Eq A⦄ where
  abbrev pub has : A → List A → Bool
  has x xs = any (λ y. y == x) xs

  -- An element that is put in is there, and no other element comes or goes.
  pub has-set_insert : (x y : A) (xs : List A) → has x (set_insert y xs) ≡ (has x xs || (y == x))
  unfolding any
  has-set_insert x y xs = elim (Bool-cases (y == x)) [
    | inl same ↦ ground (arith, same, ap (λ z. has z xs) ((e.equals_iff y x).0 same))
    | inr differ ↦ ground (arith, differ)
  ]

has-insert_if :
    (b : Bool) (issue i : Issue) (issues : List Issue)
    → has issue (insert_if b i issues) ≡ (has issue issues || (b && (i == issue)))
has-insert_if true issue i issues = has-set_insert issue i issues
has-insert_if false issue i issues = ground arith

-- The tests in the order of the code
abbrev tests : Issue → RecordType → Bool → Bool
tests issue r old =
    (((old || (is_failed r.row.policy_evaluated.dkim && (Issue.dkim_policy == issue)))
        || (is_failed r.row.policy_evaluated.spf && (Issue.spf_policy == issue)))
      || (record_has Issue.dkim_auth r && (Issue.dkim_auth == issue)))
    || (record_has Issue.spf_auth r && (Issue.spf_auth == issue))

tests-eq :
    (issue : Issue) (r : RecordType) (old : Bool) → tests issue r old ≡ (old || record_has issue r)
unfolding Issue-discrete any
tests-eq Issue.dkim_policy r old = ground arith
tests-eq Issue.spf_policy r old = ground arith
tests-eq Issue.dkim_auth r old = ground arith
tests-eq Issue.spf_auth r old = ground arith
tests-eq Issue.starttls_not_supported r old = ground arith
tests-eq Issue.certificate_host_mismatch r old = ground arith
tests-eq Issue.certificate_expired r old = ground arith
tests-eq Issue.certificate_not_trusted r old = ground arith
tests-eq Issue.validation_failure r old = ground arith
tests-eq Issue.tlsa_invalid r old = ground arith
tests-eq Issue.dnssec_invalid r old = ground arith
tests-eq Issue.dane_required r old = ground arith
tests-eq Issue.sts_policy_fetch_error r old = ground arith
tests-eq Issue.sts_policy_invalid r old = ground arith
tests-eq Issue.sts_webpki_invalid r old = ground arith

pub detect_dmarc_issues-has :
    (issue : Issue) (r : RecordType) (issues : List Issue)
    → has issue (detect_dmarc_issues r issues) ≡ (has issue issues || record_has issue r)
unfolding detect_dmarc_issues
detect_dmarc_issues-has issue r issues =
    rw
      (
        has-insert_if,
        has-insert_if,
        has-insert_if,
        has-insert_if,
        detect_dmarc_issues,
        policy_fails-eq,
        policy_fails-eq,
        dkim_auth_fails-eq,
        spf_auth_fails-eq r,
      )
      (tests-eq issue r (has issue issues))

abbrev pub issue_in : Issue → Option SourceDetails → Bool
issue_in issue none = false
issue_in issue (some details) = has issue details.issues

abbrev pub kind_in : ReportType → Option SourceDetails → Bool
kind_in kind none = false
kind_in kind (some details) = has kind details.types

-- Whether an address is there with an issue, and with a kind of report
abbrev pub has_issue : IpAddr → Issue → IpMap → Bool
has_issue ip issue m = issue_in issue (Map.get ip m)

abbrev pub has_kind : IpAddr → ReportType → IpMap → Bool
has_kind ip kind m = kind_in kind (Map.get ip m)

issue_in-new_details :
    (issue : Issue) (domain : String) (o : Option SourceDetails)
    → has issue (new_details domain o).issues ≡ issue_in issue o
unfolding any
issue_in-new_details issue domain none = refl
issue_in-new_details issue domain (some d) = refl

kind_in-new_details :
    (kind : ReportType) (domain : String) (o : Option SourceDetails)
    → has kind (new_details domain o).types ≡ kind_in kind o
unfolding any
kind_in-new_details kind domain none = refl
kind_in-new_details kind domain (some d) = refl

pub has_issue-touch :
    (ip j : IpAddr) (domain : String) (n : ℕ) (f : List Issue → List Issue) (kind : ReportType)
    (issue : Issue) (found : Bool) (m : IpMap)
    → ((issues : List Issue) → has issue (f issues) ≡ (has issue issues || found))
    → has_issue j issue (touch ip domain n f kind m) ≡ (has_issue j issue m || (ip == j && found))
unfolding touch
has_issue-touch ip j domain n f kind issue found m h = elim (Bool-cases (ip == j)) [
  | inl same ↦
      let p = (ip_eq.equals_iff ip j).0 same in
      rw (get-insert ip j _ m, same)
        (h (new_details domain (Map.get ip m)).issues
          ∙ ap (λ b. b || found)
              (issue_in-new_details issue domain (Map.get ip m) ∙ ap (λ k. has_issue k issue m) p))
  | inr differ ↦ rw (get-insert ip j _ m, differ) (ground arith)
]

pub has_kind-touch :
    (ip j : IpAddr) (domain : String) (n : ℕ) (f : List Issue → List Issue) (kind k : ReportType)
    (m : IpMap)
    → has_kind j k (touch ip domain n f kind m) ≡ (has_kind j k m || (ip == j && (kind == k)))
unfolding touch
has_kind-touch ip j domain n f kind k m = elim (Bool-cases (ip == j)) [
  | inl same ↦
      let p = (ip_eq.equals_iff ip j).0 same in
      rw (get-insert ip j _ m, same)
        (has-set_insert k kind (new_details domain (Map.get ip m)).types
          ∙ ap (λ b. b || (kind == k))
              (kind_in-new_details k domain (Map.get ip m) ∙ ap (λ i. has_kind i k m) p))
  | inr differ ↦ rw (get-insert ip j _ m, differ) (ground arith)
]
