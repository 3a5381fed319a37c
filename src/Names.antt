-- ===== src/Names.antt =====
-- src/dmarc.rs and src/tls.rs: the names by which results and types are written.
use dmarc_report_viewer.Common.{◌≡◌, some, String}
use dmarc_report_viewer.Common.Result.{ok}
use dmarc_report_viewer.Dmarc.{DispositionType, DmarcResultType, DkimResultType, SpfResultType}
use dmarc_report_viewer.Dmarc.Names.{
  deserialize_disposition, serialize_disposition, deserialize-serialize_disposition,
  deserialize_dmarc_result, serialize_dmarc_result, deserialize-serialize_dmarc_result,
  deserialize_dkim_result, serialize_dkim_result, deserialize-serialize_dkim_result,
  deserialize_spf_result, serialize_spf_result, deserialize-serialize_spf_result,
}
use dmarc_report_viewer.Tls.{PolicyType, FailureResultType}
use dmarc_report_viewer.Tls.Names.{
  deserialize_policy_type, serialize_policy_type, deserialize-serialize_policy_type,
  deserialize_failure_type, serialize_failure_type, deserialize-serialize_failure_type,
}

-- Every disposition, every DMARC, DKIM and SPF result, every type of a TLS policy and every type of a TLS
-- failure is read back from the name that it is written by. For the dispositions this needs their names
-- to be in lower case as the reader converts them.
pub deserialize-serialize :
    (to_lowercase : String → String)
    → ((d : DispositionType) → to_lowercase (serialize_disposition d) ≡ serialize_disposition d)
    → ((d : DispositionType)
        → deserialize_disposition to_lowercase (serialize_disposition d) ≡ ok d)
      × ((r : DmarcResultType) → deserialize_dmarc_result (serialize_dmarc_result r) ≡ some r)
      × ((r : DkimResultType) → deserialize_dkim_result (serialize_dkim_result r) ≡ some r)
      × ((r : SpfResultType) → deserialize_spf_result (serialize_spf_result r) ≡ some r)
      × ((t : PolicyType) → deserialize_policy_type (serialize_policy_type t) ≡ some t)
      × ((t : FailureResultType) → deserialize_failure_type (serialize_failure_type t) ≡ some t)
deserialize-serialize to_lowercase h = (
  deserialize-serialize_disposition to_lowercase h,
  deserialize-serialize_dmarc_result,
  deserialize-serialize_dkim_result,
  deserialize-serialize_spf_result,
  deserialize-serialize_policy_type,
  deserialize-serialize_failure_type,
)
