-- ===== src/Tls/Names.antt =====
-- src/tls.rs: the names of the policy and failure types in JSON (`rename_all = "kebab-case"`).
use dmarc_report_viewer.Common.{
  String, ◌≡◌, refl, Option, none, some, ◌==◌, if◌then◌else◌, List, [], ◌∷◌, string_eq,
}
use dmarc_report_viewer.Tls.{PolicyType, FailureResultType}

unfoldable pub serialize_policy_type : PolicyType → String
serialize_policy_type PolicyType.sts = "sts"
serialize_policy_type PolicyType.tlsa = "tlsa"
serialize_policy_type PolicyType.no_policy_found = "no-policy-found"

unfoldable pub serialize_failure_type : FailureResultType → String
serialize_failure_type FailureResultType.starttls_not_supported = "starttls-not-supported"
serialize_failure_type FailureResultType.certificate_host_mismatch = "certificate-host-mismatch"
serialize_failure_type FailureResultType.certificate_expired = "certificate-expired"
serialize_failure_type FailureResultType.certificate_not_trusted = "certificate-not-trusted"
serialize_failure_type FailureResultType.validation_failure = "validation-failure"
serialize_failure_type FailureResultType.tlsa_invalid = "tlsa-invalid"
serialize_failure_type FailureResultType.dnssec_invalid = "dnssec-invalid"
serialize_failure_type FailureResultType.dane_required = "dane-required"
serialize_failure_type FailureResultType.sts_policy_fetch_error = "sts-policy-fetch-error"
serialize_failure_type FailureResultType.sts_policy_invalid = "sts-policy-invalid"
serialize_failure_type FailureResultType.sts_webpki_invalid = "sts-webpki-invalid"

abbrev pub policy_types : List PolicyType
policy_types = PolicyType.sts ∷ PolicyType.tlsa ∷ PolicyType.no_policy_found ∷ []

abbrev pub failure_types : List FailureResultType
failure_types =
    FailureResultType.starttls_not_supported ∷ FailureResultType.certificate_host_mismatch
    ∷ FailureResultType.certificate_expired ∷ FailureResultType.certificate_not_trusted
    ∷ FailureResultType.validation_failure ∷ FailureResultType.tlsa_invalid
    ∷ FailureResultType.dnssec_invalid ∷ FailureResultType.dane_required
    ∷ FailureResultType.sts_policy_fetch_error ∷ FailureResultType.sts_policy_invalid
    ∷ FailureResultType.sts_webpki_invalid ∷ []

-- The variant with a name.
with_name {ℓ} : {A : Type ℓ} → (A → String) → String → List A → Option A
with_name name s [] = none
with_name name s (x ∷ xs) = if name x == s then some x else with_name name s xs

unfoldable pub deserialize_policy_type : String → Option PolicyType
unfolding with_name serialize_policy_type
deserialize_policy_type s = with_name serialize_policy_type s policy_types

unfoldable pub deserialize_failure_type : String → Option FailureResultType
unfolding with_name serialize_failure_type
deserialize_failure_type s = with_name serialize_failure_type s failure_types

-- Every type of policy is read back from the name that it is written by.
pub deserialize-serialize_policy_type :
    (t : PolicyType) → deserialize_policy_type (serialize_policy_type t) ≡ some t
unfolding deserialize_policy_type
deserialize-serialize_policy_type PolicyType.sts = refl
deserialize-serialize_policy_type _ = refl

-- Every type of failure is read back from the name that it is written by.
pub deserialize-serialize_failure_type :
    (t : FailureResultType) → deserialize_failure_type (serialize_failure_type t) ≡ some t
unfolding deserialize_failure_type
deserialize-serialize_failure_type FailureResultType.starttls_not_supported = refl
deserialize-serialize_failure_type _ = refl
