-- ===== src/Tls.antt =====
-- src/tls.rs: the data of an SMTP TLS report. The JSON reader itself is a library's. A point in
-- time (`DateTime<Utc>`) is its number of nanoseconds since the Unix epoch.
pub mod Names
use dmarc_report_viewer.Common.{ℕ, String, Option, List, Eq, eq_of_discrete}
use dmarc_report_viewer.Common.Int.{ℤ}
use dmarc_report_viewer.Common.Ip.{IpAddr}

pub record DateRange : Type 0 where
  pub start_datetime : ℤ
  pub end_datetime : ℤ

pub data PolicyType : Type 0 where
  sts tlsa no_policy_found : PolicyType

pub record Policy : Type 0 where
  pub policy_type : PolicyType
  pub policy_string : Option (List String)
  pub policy_domain : String
  pub mx_host : Option (List String)

pub data TlsResultType : Type 0 where
  successful failure : TlsResultType

pub record Summary : Type 0 where
  pub total_successful_session_count : ℕ
  pub total_failure_session_count : ℕ

pub data FailureResultType : Type 0 where
  starttls_not_supported certificate_host_mismatch certificate_expired certificate_not_trusted
        validation_failure tlsa_invalid dnssec_invalid dane_required sts_policy_fetch_error
        sts_policy_invalid sts_webpki_invalid :
      FailureResultType

pub record FailureDetails : Type 0 where
  pub result_type : FailureResultType
  pub sending_mta_ip : Option IpAddr
  pub receiving_mx_hostname : Option String
  pub receiving_mx_helo : Option String
  pub receiving_ip : Option IpAddr
  pub failed_session_count : ℕ
  pub additional_information : Option String
  pub failure_reason_code : Option String

pub record PolicyResult : Type 0 where
  pub policy : Policy
  pub summary : Summary
  pub failure_details : Option (List FailureDetails)

pub record Report : Type 0 where
  pub organization_name : String
  pub date_range : DateRange
  pub contact_info : Option String
  pub report_id : String
  pub policies : List PolicyResult

unfoldable pub PolicyType-discrete : Discrete PolicyType
PolicyType-discrete = hlevel

unfoldable pub TlsResultType-discrete : Discrete TlsResultType
TlsResultType-discrete = hlevel

unfoldable pub FailureResultType-discrete : Discrete FailureResultType
FailureResultType-discrete = hlevel

instance abbrev pub policy_type_eq : Eq PolicyType
policy_type_eq = eq_of_discrete PolicyType-discrete

instance abbrev pub tls_result_eq : Eq TlsResultType
tls_result_eq = eq_of_discrete TlsResultType-discrete

instance abbrev pub failure_result_eq : Eq FailureResultType
failure_result_eq = eq_of_discrete FailureResultType-discrete
