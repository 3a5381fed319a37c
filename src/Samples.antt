-- ===== src/Samples.antt =====
-- Small concrete data for the examples of the other modules.
mod Updates
mod Network
mod Handlers
mod Requests
mod Readers
mod Caches
mod Start
use dmarc_report_viewer.Common.{
  ℕ, String, Option, none, some, List, [], ◌∷◌, map, Bool, true, false, ◌==◌, if◌then◌else◌, nat_eq,
}
use dmarc_report_viewer.Common.Int.{pos}
use dmarc_report_viewer.Common.Ip.{IpAddr, v4}
use dmarc_report_viewer.Common.Result.{Result, ok, err}
use dmarc_report_viewer.Common.Text.{to_string}
use dmarc_report_viewer.Common.Texts.{join}
use dmarc_report_viewer.CacheMap.{CacheMap}
use dmarc_report_viewer.Config as C
use dmarc_report_viewer.Config.{Configuration}
use dmarc_report_viewer.Dmarc as D
use dmarc_report_viewer.Tls as T
use dmarc_report_viewer.Hasher.{HashEnv}
use dmarc_report_viewer.Mail.{Mail}
use dmarc_report_viewer.State.{AppState}
use dmarc_report_viewer.Unpack.{UnpackEnv}
use dmarc_report_viewer.Reports.{BgEnv}
use dmarc_report_viewer.Http.{HttpEnv}

abbrev pub sender_ip : IpAddr
sender_ip = v4 192 0 2 1

-- Three messages that failed DKIM and passed SPF
abbrev pub dmarc_record : D.RecordType
dmarc_record = record {
  row = record {
    source_ip = sender_ip;
    count = 3;
    policy_evaluated = record {
      disposition = D.DispositionType.none;
      dkim = some D.DmarcResultType.fail;
      spf = some D.DmarcResultType.pass;
      reason = Option.none;
    };
  };
  identifiers = record {
    envelope_to = Option.none;
    envelope_from = Option.none;
    header_from = "example.org";
  };
  auth_results = record {
    dkim = some [];
    spf =
        record { domain = "example.org"; scope = Option.none; result = D.SpfResultType.pass } ∷ [];
  };
}

abbrev pub dmarc_report : D.Report
dmarc_report = record {
  version = Option.none;
  report_metadata = record {
    org_name = "org";
    email = "mail@example.com";
    extra_contact_info = Option.none;
    report_id = "1";
    date_range = record { begin = 100; end = 200 };
    error = Option.none;
  };
  policy_published = record {
    domain = "example.org";
    adkim = Option.none;
    aspf = Option.none;
    p = D.DispositionType.reject;
    sp = Option.none;
    pct = some 100;
    fo = Option.none;
  };
  records = dmarc_record ∷ dmarc_record ∷ [];
}

abbrev pub tls_failure : T.FailureDetails
tls_failure = record {
  result_type = T.FailureResultType.certificate_expired;
  sending_mta_ip = some sender_ip;
  receiving_mx_hostname = Option.none;
  receiving_mx_helo = Option.none;
  receiving_ip = Option.none;
  failed_session_count = 2;
  additional_information = Option.none;
  failure_reason_code = Option.none;
}

abbrev pub tls_report : T.Report
tls_report = record {
  organization_name = "org";
  date_range = record { start_datetime = pos 100; end_datetime = pos 200 };
  contact_info = Option.none;
  report_id = "2";
  policies =
      record {
        policy = record {
          policy_type = T.PolicyType.sts;
          policy_string = Option.none;
          policy_domain = "example.org";
          mx_host = Option.none;
        };
        summary = record { total_successful_session_count = 5; total_failure_session_count = 2 };
        failure_details = some (tls_failure ∷ []);
      }
      ∷ [];
}

-- A fetched mail with a body of one byte
abbrev pub mail : String → ℕ → ℕ → Mail
mail id uid byte = record {
  id = id;
  account = "account";
  folder = "INBOX";
  uid = uid;
  size = 1;
  oversized = false;
  date = pos 0;
  subject = "subject";
  sender = "a@example.com";
  to = "b@example.com";
  body = some (byte ∷ []);
  xml_files = 0;
  json_files = 0;
  xml_parsing_errors = 0;
  json_parsing_errors = 0;
  dmarc_duplicates = [];
  tls_duplicates = [];
}

-- Two mails with the same report, and one whose file is no report
abbrev pub mails : List (String × Mail)
mails = ("a", mail "a" 1 60) ∷ ("b", mail "b" 2 60) ∷ ("c", mail "c" 3 7) ∷ []

abbrev pub hashes : HashEnv
hashes = record { sha256 = λ bytes. bytes; base64_url = λ bytes. join "," (map to_string bytes) }

abbrev pub unpack_env : UnpackEnv
unpack_env = record {
  hashes = hashes;
  to_lowercase = λ s. s;
  parse_mail = λ body. ok (record { content_type = some "text/xml"; body_raw = ok body } ∷ []);
  zip_archive = λ bytes. err "no archive";
  gz_decode = λ bytes. err "no archive";
}

abbrev from_bytes : List ℕ → Result D.Report
from_bytes [] = err "empty"
from_bytes (byte ∷ bytes) = if byte == 60 then ok dmarc_report else err "no report"

abbrev pub bg_env : BgEnv
bg_env = record {
  unpack = unpack_env;
  get_mails = λ folder. ok mails;
  dmarc_from_slice = from_bytes;
  tls_from_slice = λ bytes. err "no report";
  utf8_lossy = λ bytes. "text";
}

abbrev pub config : Configuration
config = record {
  imap_host = "localhost";
  imap_user = "account";
  imap_password = "secret";
  imap_port = 993;
  imap_starttls = false;
  imap_tls_ca_certs = Option.none;
  imap_disable_tls = false;
  imap_folder = "INBOX";
  imap_folder_dmarc = Option.none;
  imap_folder_tls = Option.none;
  imap_body_request = C.ImapBodyRequest.rfc822;
  imap_timeout = 10;
  imap_chunk_size = 2;
  imap_check_interval = 1800;
  http_server_port = 8080;
  http_server_binding = "0.0.0.0";
  http_server_user = "user";
  http_server_password = "secret";
  https_auto_cert = false;
  https_auto_cert_mail = Option.none;
  https_auto_cert_cache = Option.none;
  https_auto_cert_domain = Option.none;
  disable_duplicate_filter = false;
  max_mail_size = 1000;
  mail_web_hook_url = Option.none;
  mail_web_hook_method = "POST";
  mail_web_hook_headers = Option.none;
  mail_web_hook_body = Option.none;
  dns_server = "1.1.1.1:53";
  imap_check_schedule = Option.none;
  log_level = "INFO";
  dns_timeout = 5;
}

abbrev pub state : AppState ℕ
state = record {
  start_time = 0;
  first_update = false;
  mails = ("a", mail "a" 1 60) ∷ [];
  dmarc_reports = ("h", record { mail_id = "a"; report = dmarc_report }) ∷ [];
  tls_reports = ("t", record { mail_id = "a"; report = tls_report }) ∷ [];
  xml_files = 1;
  json_files = 1;
  last_update = 0;
  next_update = 0;
  last_update_duration = "0";
  parsing_errors = [];
  ip_location_cache = record { map = []; max_size = 10; counter = 0 };
}

abbrev pub http_env : HttpEnv
http_env = record { to_lowercase = λ s. s; url_decode = λ s. some s; parse_ip = λ s. Option.none }
