-- ===== src/Background.antt =====
-- src/background.rs: the update that reads the mails, extracts and parses their reports, drops
-- duplicates and replaces the shared state.
pub mod Errors
pub mod Once
pub mod Kept
pub mod Origins
pub mod Accounted
pub mod Complete
pub mod Loop
pub mod Duplicates
pub mod Linked
pub mod NewMails
pub mod Again
pub mod Folders
pub mod Task
pub mod Rounds
pub mod Mails
use dmarc_report_viewer.Common.{
  ℕ, String, Option, none, some, List, [], ◌∷◌, ◌++◌, map, Bool, true, false, not, ◌&&◌, ◌==◌,
  is_none, if◌then◌else◌, length, filter, any, or_empty, string_eq, add_u64,
}
use Prim.Native.String as S
use dmarc_report_viewer.Common.Result.{Result, ok, err, ◌>>=◌, context, require}
use dmarc_report_viewer.Common.Map
use dmarc_report_viewer.Common.BTree
use dmarc_report_viewer.Common.Texts.{as_bytes}
use dmarc_report_viewer.Config.{Configuration}
use dmarc_report_viewer.Dmarc as D
use dmarc_report_viewer.Tls as T
use dmarc_report_viewer.Hasher.{create_hash}
use dmarc_report_viewer.Mail.{Mail}
use dmarc_report_viewer.State.{
  AppState, FileType, ReportParsingError, DmarcReportWithMailId, TlsReportWithMailId,
}
use dmarc_report_viewer.Reports.{
  BgEnv, ReportKind, ReportLoop, accept, dmarc_kind, loop_start, reject, rejected, report_hash,
  report_loop, report_step, store, tls_kind,
}
use dmarc_report_viewer.Unpack.{UnpackEnv, ReportFile, extract_report_files}

pub record FileMaps : Type 0 where
  pub xml_files : List (String × ReportFile)
  pub json_files : List (String × ReportFile)

abbrev pub values : {V : Type 0} → List (String × V) → List V
values m = map (λ e. e.1) m

abbrev pub keys : {V : Type 0} → List (String × V) → List String
keys m = map (λ e. e.0) m

module _ (env : BgEnv) (config : Configuration) where
  -- The mails of one configured folder, added to the others
  abbrev pub folder_mails :
      Option String → String → List (String × Mail) → Result (List (String × Mail))
  folder_mails none message mails = ok mails
  folder_mails (some folder) message mails =
      context (env.get_mails folder) message >>= λ found. ok (BTree.extend mails found)

  -- The folder of all reports, where no other is configured
  abbrev pub default_folder : Option String
  default_folder =
      if is_none config.imap_folder_dmarc && is_none config.imap_folder_tls
      then some config.imap_folder
      else none

  unfoldable pub collect_mails : Result (List (String × Mail))
  collect_mails = do
    dmarc ← folder_mails config.imap_folder_dmarc "Failed to get mails from DMARC folder" []
    tls ← folder_mails config.imap_folder_tls "Failed to get mails from TLS folder" dmarc
    folder_mails default_folder "Failed to get mails" tls

  -- The two branches on the type of a file
  unfoldable pub store_typed : FileType → ReportFile → FileMaps → Mail → FileMaps × Mail
  store_typed FileType.xml file files mail = (
    record files { xml_files = BTree.insert file.hash file files.xml_files },
    record mail { xml_files = add_u64 mail.xml_files 1 },
  )
  store_typed FileType.json file files mail = (
    record files { json_files = BTree.insert file.hash file files.json_files },
    record mail { json_files = add_u64 mail.json_files 1 },
  )

  unfoldable pub store_files : List ReportFile → FileMaps × Mail → FileMaps × Mail
  unfolding store_typed
  store_files [] s = s
  store_files (file ∷ rest) (files, mail) =
      store_files rest (store_typed file.file_type file files mail)

  -- The body of the loop over the mails
  unfoldable pub extract_mail : FileMaps → Mail → FileMaps × Mail
  unfolding store_files
  extract_mail files mail =
      if is_none mail.body
      then (files, mail)
      else elim (extract_report_files env.unpack mail config).1 [
        | ok found ↦ store_files found (files, (extract_report_files env.unpack mail config).0)
        | err e ↦ (files, (extract_report_files env.unpack mail config).0)
      ]

  unfoldable pub extract_mails : List (String × Mail) → FileMaps → FileMaps × List (String × Mail)
  unfolding extract_mail
  extract_mails [] files = (files, [])
  extract_mails ((id, mail) ∷ rest) files =
      let one = extract_mail files mail in
      let more = extract_mails rest one.0 in (more.0, (id, one.1) ∷ more.1)

  unfoldable pub extract_all : List (String × Mail) → FileMaps × List (String × Mail)
  unfolding extract_mails
  extract_all mails = extract_mails mails (record { xml_files = []; json_files = [] })

-- What an update brings into the state
pub record Update : Type 0 where
  pub files : FileMaps
  pub dmarc : ReportLoop DmarcReportWithMailId
  pub tls : ReportLoop TlsReportWithMailId

module _ (env : BgEnv) (config : Configuration) where
  -- The two loops over the extracted files, the second with the mails and errors of the first
  unfoldable pub parse_all : FileMaps × List (String × Mail) → Result Update
  unfolding report_loop
  parse_all (files, mails) = do
    dmarc ← report_loop env (dmarc_kind env) config (values files.xml_files) (loop_start mails [])
    tls ←
        report_loop env (tls_kind env) config (values files.json_files)
          (loop_start dmarc.mails dmarc.parsing_errors)
    ok (record { files = files; dmarc = dmarc; tls = tls })

module _ {L : Type 0} where
  -- The critical section that replaces the state
  unfoldable pub replace_state : Update → ℕ → String → AppState L → AppState L
  replace_state u timestamp elapsed state = record state {
    dmarc_reports = u.dmarc.reports;
    tls_reports = u.tls.reports;
    last_update = timestamp;
    xml_files = length u.files.xml_files;
    json_files = length u.files.json_files;
    parsing_errors = u.tls.parsing_errors;
    mails = u.tls.mails;
    last_update_duration = elapsed;
    first_update = false;
  }

  -- The IDs that the update reports as new
  unfoldable pub detect_new : AppState L → List (String × Mail) → List String
  detect_new state mails =
      if state.first_update
      then []
      else filter (λ id. not (any (λ old. old == id) (keys state.mails))) (keys mails)

  -- One update at a time stamp, with the time it took. An error leaves the state alone.
  unfoldable pub bg_update :
      BgEnv → Configuration → Result ℕ → String → AppState L → Result (AppState L × List String)
  unfolding collect_mails extract_all parse_all replace_state detect_new
  bg_update env config now elapsed state = do
    mails ← collect_mails env config
    u ← parse_all env config (extract_all env config mails)
    timestamp ← context now "Failed to get Unix time stamp"
    ok (replace_state u timestamp elapsed state, detect_new state u.tls.mails)

  -- One round of the background task: the state after it, and the mails for the web hook.
  unfoldable pub update_round :
      BgEnv → Configuration → Result ℕ → String → AppState L → AppState L × List String
  unfolding bg_update
  update_round env config now elapsed state = elim (bg_update env config now elapsed state) [
    | ok (updated, new_mails) ↦
        (updated, if is_none config.mail_web_hook_url then [] else new_mails)
    | err e ↦ (state, [])
  ]
