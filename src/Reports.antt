-- ===== src/Reports.antt =====
-- src/background.rs: the loops over the report files, which drop duplicates and count errors.
use dmarc_report_viewer.Common.{
  ℕ, String, none, some, List, [], ◌∷◌, ◌++◌, if◌then◌else◌, or_empty, string_eq, add_u64,
}
use Prim.Native.String as S
use dmarc_report_viewer.Common.Result.{Result, ok, err, ◌>>=◌, require}
use dmarc_report_viewer.Common.Map
use dmarc_report_viewer.Common.BTree
use dmarc_report_viewer.Common.Texts.{as_bytes}
use dmarc_report_viewer.Config.{Configuration}
use dmarc_report_viewer.Dmarc as D
use dmarc_report_viewer.Tls as T
use dmarc_report_viewer.Hasher.{create_hash}
use dmarc_report_viewer.Mail.{Mail}
use dmarc_report_viewer.State.{
  FileType, ReportParsingError, DmarcReportWithMailId, TlsReportWithMailId,
}
use dmarc_report_viewer.Unpack.{UnpackEnv, ReportFile}

-- What an update reads from outside: the mails of a folder, and the readers of XML and JSON. An
-- error of a reader is its whole printed chain.
pub record BgEnv : Type 0 where
  pub unpack : UnpackEnv
  pub get_mails : String → Result (List (String × Mail))
  pub dmarc_from_slice : List ℕ → Result D.Report
  pub tls_from_slice : List ℕ → Result T.Report
  pub utf8_lossy : List ℕ → String

-- The state of a loop over report files
pub record ReportLoop (W : Type 0) : Type 0 where
  pub mails : List (String × Mail)
  pub reports : List (String × W)
  pub duplication_map : List (String × String)
  pub duplicates : ℕ
  pub parsing_errors : List (String × List ReportParsingError)

-- The two loops over report files are the same code but for these parts.
pub record ReportKind (R W : Type 0) : Type 0 where
  pub file_type : FileType
  pub from_slice : List ℕ → Result R
  pub dupl_key : R → String
  pub with_mail_id : R → String → W
  pub push_duplicate : String → Mail → Mail
  pub count_error : Mail → Mail

abbrev pub dmarc_kind : BgEnv → ReportKind D.Report DmarcReportWithMailId
dmarc_kind env = record {
  file_type = FileType.xml;
  from_slice = env.dmarc_from_slice;
  dupl_key = λ r. S.◌++◌ r.report_metadata.org_name r.report_metadata.report_id;
  with_mail_id = λ r id. record { mail_id = id; report = r };
  push_duplicate = λ hash m. record m { dmarc_duplicates = m.dmarc_duplicates ++ hash ∷ [] };
  count_error = λ m. record m { xml_parsing_errors = add_u64 m.xml_parsing_errors 1 };
}

abbrev pub tls_kind : BgEnv → ReportKind T.Report TlsReportWithMailId
tls_kind env = record {
  file_type = FileType.json;
  from_slice = env.tls_from_slice;
  dupl_key = λ r. S.◌++◌ r.organization_name r.report_id;
  with_mail_id = λ r id. record { mail_id = id; report = r };
  push_duplicate = λ hash m. record m { tls_duplicates = m.tls_duplicates ++ hash ∷ [] };
  count_error = λ m. record m { json_parsing_errors = add_u64 m.json_parsing_errors 1 };
}

module _ {R W : Type 0} (env : BgEnv) (kind : ReportKind R W) (config : Configuration) where
  abbrev pub store : String → W → ReportLoop W → ReportLoop W
  store hash rwi s = record s { reports = BTree.insert hash rwi s.reports }

  abbrev pub report_hash : ReportFile → String
  report_hash file = create_hash env.unpack.hashes (file.bytes ∷ as_bytes file.mail_id ∷ [])

  -- A report that could be parsed
  unfoldable pub accept : ReportFile → R → ReportLoop W → ReportLoop W
  accept file report s =
      let key = kind.dupl_key report in
      let rwi = kind.with_mail_id report file.mail_id in
      let hash = report_hash file in
      if config.disable_duplicate_filter
      then store hash rwi s
      else elim (Map.get key s.duplication_map) [
        | some found_hash ↦ record s {
          mails = Map.modify file.mail_id (kind.push_duplicate found_hash) s.mails;
          duplicates = add_u64 s.duplicates 1;
        }
        | none ↦
            store hash rwi (record s { duplication_map = Map.insert key hash s.duplication_map })
      ]

  -- A file that could not be parsed: the error is kept, and counted for its mail.
  abbrev pub rejected : ReportFile → String → ReportLoop W → ReportLoop W
  rejected file error_str s =
      let error : ReportParsingError = record {
        error = error_str;
        report = env.utf8_lossy file.bytes;
        kind = kind.file_type;
      } in
      let errors = or_empty (Map.get file.mail_id s.parsing_errors) ++ error ∷ [] in
      record s {
        parsing_errors = Map.insert file.mail_id errors s.parsing_errors;
        mails = Map.modify file.mail_id kind.count_error s.mails;
      }

  unfoldable pub reject : ReportFile → String → ReportLoop W → Result (ReportLoop W)
  reject file error_str s = do
    mail ← require (Map.get file.mail_id s.mails) "Failed to find mail"
    ok (rejected file error_str s)

  unfoldable pub report_step : ReportFile → ReportLoop W → Result (ReportLoop W)
  unfolding accept reject
  report_step file s = elim (kind.from_slice file.bytes) [
    | ok report ↦ ok (accept file report s)
    | err error_str ↦ reject file error_str s
  ]

  unfoldable pub report_loop : List ReportFile → ReportLoop W → Result (ReportLoop W)
  unfolding report_step
  report_loop [] s = ok s
  report_loop (file ∷ rest) s = report_step file s >>= report_loop rest

abbrev pub loop_start :
    {W : Type 0} → List (String × Mail) → List (String × List ReportParsingError) → ReportLoop W
loop_start mails errors = record {
  mails = mails;
  reports = [];
  duplication_map = [];
  duplicates = 0;
  parsing_errors = errors;
}
