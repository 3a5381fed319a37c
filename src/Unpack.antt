-- ===== src/Unpack.antt =====
-- src/unpack.rs: the report files of a mail. The readers of mails, ZIP archives and gzip data are
-- other libraries' (`mailparse`, `zip`, `flate2`).
pub mod Expected
use dmarc_report_viewer.Common.{
  ℕ, suc, ◌+◌, String, Option, none, some, List, [], ◌∷◌, ◌++◌, Bool, true, false, ◌&&◌, ◌||◌, ◌==◌,
  is_none, ltb, if◌then◌else◌, string_eq,
}
use Prim.Native.String.{len}
use dmarc_report_viewer.Common.Result.{Result, ok, err, ◌>>=◌, context, require}
use dmarc_report_viewer.Common.Text.{
  is_blank, contains, ends_with, strip_prefix, drop_first, drop_last, trim, to_string,
}
use text.Mathlib.Text.{starts_with}
use dmarc_report_viewer.Common.Texts.{concat, split}
use dmarc_report_viewer.Config.{Configuration}
use dmarc_report_viewer.ContentType.{
  merge_name_parts, is_zip, is_gzip_xml, is_xml, is_gzip_json, is_json,
}
use dmarc_report_viewer.Hasher.{HashEnv, create_hash, to_le_bytes}
use dmarc_report_viewer.Mail.{Mail}
use dmarc_report_viewer.State.{FileType, file_type_eq}

pub record FileDataWithType : Type 0 where
  pub file_type : FileType
  pub bytes : List ℕ

pub record ReportFile : Type 0 where
  pub file_type : FileType
  pub mail_id : String
  pub bytes : List ℕ
  pub hash : String

-- A file of a ZIP archive: its name, and what reading it to its end gives.
pub record ZipFile : Type 0 where
  pub name : String
  pub contents : Result (List ℕ)

-- A part of a mail: its first `Content-Type` header, and its body after the transfer decoding.
pub record ParsedMail : Type 0 where
  pub content_type : Option String
  pub body_raw : Result (List ℕ)

pub record UnpackEnv : Type 0 where
  pub hashes : HashEnv
  pub to_lowercase : String → String
  pub parse_mail : List ℕ → Result (List ParsedMail)
  pub zip_archive : List ℕ → Result (List (Result ZipFile))
  pub gz_decode : List ℕ → Result (List ℕ)

-- Which types of reports the folder of a mail is for
abbrev pub is_folder : Option String → String → Bool
is_folder none name = false
is_folder (some folder) name = folder == name

abbrev pub expect_all : Configuration → Bool
expect_all config = is_none config.imap_folder_dmarc && is_none config.imap_folder_tls

abbrev pub expect_dmarc_report : Configuration → Mail → Bool
expect_dmarc_report config mail =
    expect_all config || is_folder config.imap_folder_dmarc mail.folder

abbrev pub expect_tls_report : Configuration → Mail → Bool
expect_tls_report config mail = expect_all config || is_folder config.imap_folder_tls mail.folder

abbrev pub expected : Configuration → Mail → FileType → Bool
expected config mail t =
    (t == FileType.xml && expect_dmarc_report config mail)
    || (t == FileType.json && expect_tls_report config mail)

module _ (env : UnpackEnv) where
  -- One file of a ZIP archive: none if its name has another ending.
  unfoldable pub zip_report : ZipFile → Result (List FileDataWithType)
  zip_report file =
      let lower_file_name = env.to_lowercase file.name in
      if ends_with lower_file_name ".json"
      then (do
        bytes ← context file.contents "Failed to read JSON from ZIP"
        ok (record { file_type = FileType.json; bytes = bytes } ∷ []))
      else if ends_with lower_file_name ".xml"
      then (do
        bytes ← context file.contents "Failed to read XML from ZIP"
        ok (record { file_type = FileType.xml; bytes = bytes } ∷ []))
      else ok []

  unfoldable pub zip_reports : List (Result ZipFile) → Result (List FileDataWithType)
  unfolding zip_report
  zip_reports [] = ok []
  zip_reports (entry ∷ rest) = do
    file ← context entry "Unable to get file from ZIP"
    report ← zip_report file
    more ← zip_reports rest
    ok (report ++ more)

  unfoldable pub get_reports_from_zip : List ℕ → Result (List FileDataWithType)
  unfolding zip_reports
  get_reports_from_zip zip_bytes = do
    archive ← context (env.zip_archive zip_bytes) "Failed to binary data as ZIP"
    zip_reports archive

  unfoldable pub get_report_from_gz : List ℕ → Result (List ℕ)
  get_report_from_gz gz_bytes =
      context (env.gz_decode gz_bytes) "Failed to read file from GZ archive"

  abbrev pub raw_body : ParsedMail → Result (List ℕ)
  raw_body part = context part.body_raw "Failed to get raw body of attachment part"

  -- A report file of a mail. The hash is that of the data and of the UID.
  abbrev pub report_file : Mail → FileType → List ℕ → ReportFile
  report_file mail file_type bytes = record {
    file_type = file_type;
    mail_id = mail.id;
    bytes = bytes;
    hash = create_hash env.hashes (bytes ∷ to_le_bytes mail.uid ∷ []);
  }

  -- The report files of a ZIP that the folder is for
  unfoldable pub zip_files : Configuration → Mail → List FileDataWithType → List ReportFile
  zip_files config mail [] = []
  zip_files config mail (report ∷ rest) =
      let more = zip_files config mail rest in
      if expected config mail report.file_type
      then report_file mail report.file_type report.bytes ∷ more
      else more

  -- The branches of the loop over the parts, for a merged content type
  unfoldable pub typed_part : Configuration → Mail → ParsedMail → String → Result (List ReportFile)
  unfolding get_reports_from_zip zip_files get_report_from_gz
  typed_part config mail part content_type =
      if is_zip content_type
      then (do
        body ← raw_body part
        reports ←
            context (get_reports_from_zip body) "Failed to extract reports from ZIP attachment"
        ok (zip_files config mail reports))
      else if expect_dmarc_report config mail && is_gzip_xml content_type
      then (do
        body ← raw_body part
        xml ← context (get_report_from_gz body) "Failed to extract XML from GZ attachment"
        ok (report_file mail FileType.xml xml ∷ []))
      else if expect_dmarc_report config mail && is_xml content_type
      then (do xml ← raw_body part; ok (report_file mail FileType.xml xml ∷ []))
      else if expect_tls_report config mail && is_gzip_json content_type
      then (do
        body ← raw_body part
        json ← context (get_report_from_gz body) "Failed to extract JSON from GZ attachment"
        ok (report_file mail FileType.json json ∷ []))
      else if expect_tls_report config mail && is_json content_type
      then (do json ← raw_body part; ok (report_file mail FileType.json json ∷ []))
      else ok []

  unfoldable pub part_files : Configuration → Mail → ParsedMail → Result (List ReportFile)
  unfolding typed_part merge_name_parts
  part_files config mail part = elim part.content_type [
    | none ↦ ok []
    | some content_type ↦ typed_part config mail part (merge_name_parts content_type)
  ]

  unfoldable pub parts_files : Configuration → Mail → List ParsedMail → Result (List ReportFile)
  unfolding part_files
  parts_files config mail [] = ok []
  parts_files config mail (part ∷ rest) = do
    files ← part_files config mail part
    more ← parts_files config mail rest
    ok (files ++ more)

  -- The mail loses its body whatever the answer is.
  unfoldable pub extract_report_files : Mail → Configuration → Mail × Result (List ReportFile)
  unfolding parts_files
  extract_report_files mail config =
      let taken = record mail { body = Option.none } in
      (
        taken,
        (do
          body ← require mail.body "Missing mail body"
          parts ← context (env.parse_mail body) "Failed to parse mail body"
          parts_files config taken parts),
      )
