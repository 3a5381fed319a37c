-- ===== src/State.antt =====
-- src/state.rs: the state that the background task and the HTTP handlers share. The mutex makes
-- each critical section one step, so a handler is a function of the state that it locks.
-- `last_update_duration` is an `f64` that is only printed; its value is kept as text.
use dmarc_report_viewer.Common.{ℕ, String, List, [], Bool, true, Eq, eq_of_discrete}
use dmarc_report_viewer.Common.Ip.{IpAddr}
use dmarc_report_viewer.Common.Result.{Result, ◌>>=◌, ok}
use dmarc_report_viewer.CacheMap
use dmarc_report_viewer.CacheMap.{CacheMap}
use dmarc_report_viewer.Dmarc
use dmarc_report_viewer.Tls
use dmarc_report_viewer.Mail.{Mail}

pub record DmarcReportWithMailId : Type 0 where
  pub mail_id : String
  pub report : Dmarc.Report

pub record TlsReportWithMailId : Type 0 where
  pub mail_id : String
  pub report : Tls.Report

pub data FileType : Type 0 where
  json xml : FileType

unfoldable pub FileType-discrete : Discrete FileType
FileType-discrete = hlevel

instance abbrev pub file_type_eq : Eq FileType
file_type_eq = eq_of_discrete FileType-discrete

pub record ReportParsingError : Type 0 where
  pub error : String
  pub report : String
  pub kind : FileType

abbrev pub cache_size : ℕ
cache_size = 10000

-- `L` is the type of a location (src/geolocate.rs).
pub record AppState (L : Type 0) : Type 0 where
  pub start_time : ℕ
  pub first_update : Bool
  pub mails : List (String × Mail)
  pub dmarc_reports : List (String × DmarcReportWithMailId)
  pub tls_reports : List (String × TlsReportWithMailId)
  pub xml_files : ℕ
  pub json_files : ℕ
  pub last_update : ℕ
  pub next_update : ℕ
  pub last_update_duration : String
  pub parsing_errors : List (String × List ReportParsingError)
  pub ip_location_cache : CacheMap IpAddr L

-- `AppState::new` at a start time; the DNS client is a component of its own.
unfoldable pub new : {L : Type 0} → ℕ → Result (AppState L)
unfolding CacheMap.new
new start_time = do
  cache ← CacheMap.new cache_size
  ok (record {
    start_time = start_time;
    first_update = true;
    mails = [];
    dmarc_reports = [];
    tls_reports = [];
    xml_files = 0;
    json_files = 0;
    last_update = 0;
    next_update = 0;
    last_update_duration = "0";
    parsing_errors = [];
    ip_location_cache = cache;
  })
