-- ===== src/Http/Sources/Kinds.antt =====
-- src/http/sources.rs: when a record has an issue, and which failure an issue stands for.
use dmarc_report_viewer.Common.{
  ◌≡◌, ◌↔◌, refl, sym, ap, ◌∙◌, Option, none, some, List, [], ◌∷◌, Bool, true, false, not, or_empty,
  ◌==◌, any,
}
use mathlib.Core.Path.{subst}
use dmarc_report_viewer.Common.Ip.{ip_eq}
use dmarc_report_viewer.Dmarc.{
  RecordType, DmarcResultType, DkimResultType, SpfResultType, DkimAuthResultType, SpfAuthResultType,
  dmarc_result_eq, dkim_result_eq, spf_result_eq, DmarcResultType-discrete, DkimResultType-discrete,
  SpfResultType-discrete,
}
use dmarc_report_viewer.Tls.{FailureResultType, failure_result_eq}
use dmarc_report_viewer.Http.DmarcReports.{policy_fails, dkim_auth_fails, spf_auth_fails}
use dmarc_report_viewer.Http.Sources.{Issue, tls_issue, issue_eq, report_type_eq}

-- An evaluation that failed, and the result of a check that passed
abbrev pub is_failed : Option DmarcResultType → Bool
is_failed none = false
is_failed (some DmarcResultType.pass) = false
is_failed (some DmarcResultType.fail) = true

abbrev pub dkim_passed : DkimResultType → Bool
dkim_passed DkimResultType.pass = true
dkim_passed r = false

abbrev pub spf_passed : SpfResultType → Bool
spf_passed SpfResultType.pass = true
spf_passed r = false

-- Whether a record has an issue
abbrev pub record_has : Issue → RecordType → Bool
record_has Issue.dkim_policy r = is_failed r.row.policy_evaluated.dkim
record_has Issue.spf_policy r = is_failed r.row.policy_evaluated.spf
record_has Issue.dkim_auth r = any (λ x. not (dkim_passed x.result)) (or_empty r.auth_results.dkim)
record_has Issue.spf_auth r = any (λ x. not (spf_passed x.result)) r.auth_results.spf
record_has issue r = false

pub policy_fails-eq : (o : Option DmarcResultType) → policy_fails o ≡ is_failed o
unfolding DmarcResultType-discrete
policy_fails-eq none = refl
policy_fails-eq (some DmarcResultType.pass) = refl
policy_fails-eq (some DmarcResultType.fail) = refl

dkim_passed-eq : (r : DkimResultType) → (r == DkimResultType.pass) ≡ dkim_passed r
unfolding DkimResultType-discrete
dkim_passed-eq DkimResultType.none = refl
dkim_passed-eq DkimResultType.pass = refl
dkim_passed-eq DkimResultType.fail = refl
dkim_passed-eq DkimResultType.policy = refl
dkim_passed-eq DkimResultType.neutral = refl
dkim_passed-eq DkimResultType.temporary_error = refl
dkim_passed-eq DkimResultType.permanent_error = refl

spf_passed-eq : (r : SpfResultType) → (r == SpfResultType.pass) ≡ spf_passed r
unfolding SpfResultType-discrete
spf_passed-eq SpfResultType.none = refl
spf_passed-eq SpfResultType.neutral = refl
spf_passed-eq SpfResultType.pass = refl
spf_passed-eq SpfResultType.fail = refl
spf_passed-eq SpfResultType.soft_fail = refl
spf_passed-eq SpfResultType.temporary_error = refl
spf_passed-eq SpfResultType.permanent_error = refl

any-same {ℓ} :
    {A : Type ℓ} (p q : A → Bool) → ((a : A) → p a ≡ q a) → (xs : List A) → any p xs ≡ any q xs
unfolding any
any-same p q h [] = refl
any-same p q h (x ∷ xs) = rw (h x, any-same p q h xs) refl

pub spf_auth_fails-eq :
    (r : RecordType) → spf_auth_fails r.auth_results.spf ≡ record_has Issue.spf_auth r
spf_auth_fails-eq r =
    any-same _ _ (λ (x : SpfAuthResultType). ap not (spf_passed-eq x.result)) r.auth_results.spf

pub dkim_auth_fails-eq :
    (o : Option (List DkimAuthResultType))
    → dkim_auth_fails o ≡ any (λ x. not (dkim_passed x.result)) (or_empty o)
unfolding any
dkim_auth_fails-eq none = refl
dkim_auth_fails-eq (some xs) =
    any-same _ _ (λ (x : DkimAuthResultType). ap not (dkim_passed-eq x.result)) xs

-- The type of failure that an issue stands for
abbrev pub failure_of : Issue → Option FailureResultType
failure_of Issue.starttls_not_supported = some FailureResultType.starttls_not_supported
failure_of Issue.certificate_host_mismatch = some FailureResultType.certificate_host_mismatch
failure_of Issue.certificate_expired = some FailureResultType.certificate_expired
failure_of Issue.certificate_not_trusted = some FailureResultType.certificate_not_trusted
failure_of Issue.validation_failure = some FailureResultType.validation_failure
failure_of Issue.tlsa_invalid = some FailureResultType.tlsa_invalid
failure_of Issue.dnssec_invalid = some FailureResultType.dnssec_invalid
failure_of Issue.dane_required = some FailureResultType.dane_required
failure_of Issue.sts_policy_fetch_error = some FailureResultType.sts_policy_fetch_error
failure_of Issue.sts_policy_invalid = some FailureResultType.sts_policy_invalid
failure_of Issue.sts_webpki_invalid = some FailureResultType.sts_webpki_invalid
failure_of issue = none

abbrev pub is_of_type : Option FailureResultType → FailureResultType → Bool
is_of_type none t = false
is_of_type (some u) t = u == t

failure_of-tls_issue : (t : FailureResultType) → failure_of (tls_issue t) ≡ some t
unfolding tls_issue
failure_of-tls_issue FailureResultType.starttls_not_supported = refl
failure_of-tls_issue FailureResultType.certificate_host_mismatch = refl
failure_of-tls_issue FailureResultType.certificate_expired = refl
failure_of-tls_issue FailureResultType.certificate_not_trusted = refl
failure_of-tls_issue FailureResultType.validation_failure = refl
failure_of-tls_issue FailureResultType.tlsa_invalid = refl
failure_of-tls_issue FailureResultType.dnssec_invalid = refl
failure_of-tls_issue FailureResultType.dane_required = refl
failure_of-tls_issue FailureResultType.sts_policy_fetch_error = refl
failure_of-tls_issue FailureResultType.sts_policy_invalid = refl
failure_of-tls_issue FailureResultType.sts_webpki_invalid = refl

-- An issue that stands for a type of failure is what the code lists for that type.
IsListed : Issue → Option FailureResultType → Type 0
IsListed issue none = Unit
IsListed issue (some t) = tls_issue t ≡ issue

failure_of-IsListed : (issue : Issue) → IsListed issue (failure_of issue)
unfolding IsListed tls_issue
failure_of-IsListed Issue.spf_policy = tt
failure_of-IsListed Issue.dkim_policy = tt
failure_of-IsListed Issue.spf_auth = tt
failure_of-IsListed Issue.dkim_auth = tt
failure_of-IsListed Issue.starttls_not_supported = refl
failure_of-IsListed Issue.certificate_host_mismatch = refl
failure_of-IsListed Issue.certificate_expired = refl
failure_of-IsListed Issue.certificate_not_trusted = refl
failure_of-IsListed Issue.validation_failure = refl
failure_of-IsListed Issue.tlsa_invalid = refl
failure_of-IsListed Issue.dnssec_invalid = refl
failure_of-IsListed Issue.dane_required = refl
failure_of-IsListed Issue.sts_policy_fetch_error = refl
failure_of-IsListed Issue.sts_policy_invalid = refl
failure_of-IsListed Issue.sts_webpki_invalid = refl

is_of_type_iff :
    (o : Option FailureResultType) (t : FailureResultType) → (is_of_type o t ≡ true) ↔ (o ≡ some t)
is_of_type_iff none t = (λ h. absurd cc, λ h. absurd cc)
is_of_type_iff (some u) t = (
  λ h. ap some ((failure_result_eq.equals_iff u t).0 h),
  λ h. (failure_result_eq.equals_iff u t).1 cc,
)

same_test : (a b : Bool) → ((a ≡ true) ↔ (b ≡ true)) → a ≡ b
same_test a true h = h.1 refl
same_test true false h = sym (h.0 refl)
same_test false false h = refl

pub tls_issue_lem :
    (t : FailureResultType) (issue : Issue)
    → (tls_issue t == issue) ≡ is_of_type (failure_of issue) t
unfolding IsListed
tls_issue_lem t issue = same_test _ _ (
  λ h. (is_of_type_iff (failure_of issue) t).1 (
      ap failure_of (sym ((issue_eq.equals_iff (tls_issue t) issue).0 h)) ∙ failure_of-tls_issue t),
  λ h. (issue_eq.equals_iff (tls_issue t) issue).1 (
      subst (IsListed issue) ((is_of_type_iff (failure_of issue) t).0 h)
        (failure_of-IsListed issue)),
)
