-- ===== src/Dmarc.antt =====
-- src/dmarc.rs: the data of a DMARC aggregate report. The XML reader itself is a library's.
pub mod Names
use dmarc_report_viewer.Common.{ℕ, String, Option, List, Eq, eq_of_discrete}
use dmarc_report_viewer.Common.Ip.{IpAddr}

pub record DateRangeType : Type 0 where
  pub begin : ℕ
  pub end : ℕ

pub record ReportMetadataType : Type 0 where
  pub org_name : String
  pub email : String
  pub extra_contact_info : Option String
  pub report_id : String
  pub date_range : DateRangeType
  pub error : Option (List String)

pub data AlignmentType : Type 0 where
  relaxed strict : AlignmentType

pub data DispositionType : Type 0 where
  none quarantine reject : DispositionType

pub record PolicyPublishedType : Type 0 where
  pub domain : String
  pub adkim : Option AlignmentType
  pub aspf : Option AlignmentType
  pub p : DispositionType
  pub sp : Option DispositionType
  pub pct : Option ℕ
  pub fo : Option String

pub data DmarcResultType : Type 0 where
  pass fail : DmarcResultType

pub data PolicyOverrideType : Type 0 where
  forwarded sampled_out trusted_forwarder mailing_list local_policy other : PolicyOverrideType

pub record PolicyOverrideReason : Type 0 where
  pub kind : PolicyOverrideType
  pub comment : Option String

pub record PolicyEvaluatedType : Type 0 where
  pub disposition : DispositionType
  pub dkim : Option DmarcResultType
  pub spf : Option DmarcResultType
  pub reason : Option (List PolicyOverrideReason)

pub record RowType : Type 0 where
  pub source_ip : IpAddr
  pub count : ℕ
  pub policy_evaluated : PolicyEvaluatedType

pub record IdentifierType : Type 0 where
  pub envelope_to : Option String
  pub envelope_from : Option String
  pub header_from : String

pub data DkimResultType : Type 0 where
  none pass fail policy neutral temporary_error permanent_error : DkimResultType

pub record DkimAuthResultType : Type 0 where
  pub domain : String
  pub selector : Option String
  pub result : DkimResultType
  pub human_result : Option String

pub data SpfDomainScope : Type 0 where
  helo mail_form : SpfDomainScope

pub data SpfResultType : Type 0 where
  none neutral pass fail soft_fail temporary_error permanent_error : SpfResultType

pub record SpfAuthResultType : Type 0 where
  pub domain : String
  pub scope : Option SpfDomainScope
  pub result : SpfResultType

pub record AuthResultType : Type 0 where
  pub dkim : Option (List DkimAuthResultType)
  pub spf : List SpfAuthResultType

pub record RecordType : Type 0 where
  pub row : RowType
  pub identifiers : IdentifierType
  pub auth_results : AuthResultType

-- The field `record` of the source; the word is reserved here.
pub record Report : Type 0 where
  pub version : Option String
  pub report_metadata : ReportMetadataType
  pub policy_published : PolicyPublishedType
  pub records : List RecordType

-- The derived equality of the result types.
unfoldable pub DmarcResultType-discrete : Discrete DmarcResultType
DmarcResultType-discrete = hlevel

unfoldable pub DkimResultType-discrete : Discrete DkimResultType
DkimResultType-discrete = hlevel

unfoldable pub SpfResultType-discrete : Discrete SpfResultType
SpfResultType-discrete = hlevel

instance abbrev pub dmarc_result_eq : Eq DmarcResultType
dmarc_result_eq = eq_of_discrete DmarcResultType-discrete

instance abbrev pub dkim_result_eq : Eq DkimResultType
dkim_result_eq = eq_of_discrete DkimResultType-discrete

instance abbrev pub spf_result_eq : Eq SpfResultType
spf_result_eq = eq_of_discrete SpfResultType-discrete
