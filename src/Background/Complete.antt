-- ===== src/Background/Complete.antt =====
-- src/background.rs: no report file of a mail gets lost in an update.
use mathlib.Core.Path.{subst}
use dmarc_report_viewer.Common.{
  ℕ, String, ◌≡◌, refl, inl, inr, List, [], All, All-map, All_of_map, string_eq,
}
use dmarc_report_viewer.Common.Map
use dmarc_report_viewer.Common.Result.{
  Result, ok, err, OnOk, OnOk-and, OnOk-then, OnOk->>=, context,
}
use dmarc_report_viewer.Config.{Configuration}
use dmarc_report_viewer.Mail.{Mail}
use dmarc_report_viewer.Dmarc.{Report}
use dmarc_report_viewer.State.{
  AppState, ReportParsingError, DmarcReportWithMailId, TlsReportWithMailId,
}
use dmarc_report_viewer.Unpack.{ReportFile}
use dmarc_report_viewer.Imap.{ImapEnv}
use dmarc_report_viewer.Reports.{BgEnv, report_loop, loop_start, dmarc_kind, tls_kind}
use dmarc_report_viewer.Background.{
  FileMaps, values, collect_mails, extract_all, parse_all, replace_state, bg_update,
}
use dmarc_report_viewer.Background.Mails.{IsKnown, IsFetched, FilesMeet, collect_mails-IsFetched}
use dmarc_report_viewer.Background.Linked.{extract_all-FilesMeet}
use dmarc_report_viewer.Background.Folders.{with_imap, with_imap-IsFetched}
use dmarc_report_viewer.Background.Rounds.{collect_of_update}
use dmarc_report_viewer.Background.Kept.{
  In-push, In-append-last, HasError, HasDuplicate, HasDuplicate-modify,
}
use dmarc_report_viewer.Background.Origins.{IsFromFile, loop-IsFromFile}
use dmarc_report_viewer.Background.Accounted.{IsListing, AccountedAs, loop-IsAccounted, loop-mails}

abbrev pub dmarc_lists : Mail → List String
dmarc_lists m = m.dmarc_duplicates

abbrev pub tls_lists : Mail → List String
tls_lists m = m.tls_duplicates

dmarc-IsListing : (env : BgEnv) → IsListing (dmarc_kind env) dmarc_lists
dmarc-IsListing env = record {
  pushed = λ hash m. In-append-last hash m.dmarc_duplicates;
  push_keeps = λ hash other m i. In-push hash other m.dmarc_duplicates i;
  count_keeps = λ m. refl;
}

tls-IsListing : (env : BgEnv) → IsListing (tls_kind env) tls_lists
tls-IsListing env = record {
  pushed = λ hash m. In-append-last hash m.tls_duplicates;
  push_keeps = λ hash other m i. In-push hash other m.tls_duplicates i;
  count_keeps = λ m. refl;
}

module _ (env : BgEnv) (config : Configuration) where
  -- Every file of the two maps is accounted for: as a report, as a duplicate, or as an error.
  abbrev pub AllAccounted :
      FileMaps
      → List (String × DmarcReportWithMailId)
      → List (String × TlsReportWithMailId)
      → List (String × Mail)
      → List (String × List ReportParsingError)
      → Type 0
  AllAccounted files dmarc_reports tls_reports mails errors =
      All
        (λ (f : ReportFile).
          AccountedAs env (dmarc_kind env) config dmarc_lists f (env.dmarc_from_slice f.bytes)
            dmarc_reports mails errors)
        (values files.xml_files)
      × All
          (λ (f : ReportFile).
            AccountedAs env (tls_kind env) config tls_lists f (env.tls_from_slice f.bytes)
              tls_reports mails errors)
          (values files.json_files)

  -- Every stored report is that of a file.
  abbrev pub AllFromFiles :
      FileMaps
      → List (String × DmarcReportWithMailId)
      → List (String × TlsReportWithMailId)
      → Type 0
  AllFromFiles files dmarc_reports tls_reports =
      All
        (IsFromFile env env.dmarc_from_slice (λ id r. record { mail_id = id; report = r })
          (values files.xml_files))
        dmarc_reports
      × All
          (IsFromFile env env.tls_from_slice (λ id r. record { mail_id = id; report = r })
            (values files.json_files))
          tls_reports

  parse_all-AllFromFiles :
      (files : FileMaps) (mails : List (String × Mail))
      → OnOk
          (λ u. AllFromFiles files u.dmarc.reports u.tls.reports)
          (parse_all env config (files, mails))
  unfolding parse_all
  parse_all-AllFromFiles files mails =
      OnOk-then _ _
        (report_loop env (dmarc_kind env) config (values files.xml_files) (loop_start mails [])) _
        (loop-IsFromFile env (dmarc_kind env) config (values files.xml_files) (loop_start mails [])
          refl)
        (λ dmarc p.
          OnOk-then _ _
            (report_loop env (tls_kind env) config (values files.json_files)
              (loop_start dmarc.mails dmarc.parsing_errors))
            _
            (loop-IsFromFile env (tls_kind env) config (values files.json_files)
              (loop_start dmarc.mails dmarc.parsing_errors) refl)
            (λ tls q. (p, q)))

  -- What the loop over the TLS reports keeps of the loop before it
  AccountedAs-later :
      (f : ReportFile) (read : Result Report) (reports : List (String × DmarcReportWithMailId))
      (mails later : List (String × Mail)) (errors more : List (String × List ReportParsingError))
      → ((id hash : String)
          → HasDuplicate dmarc_lists id hash mails
          → HasDuplicate dmarc_lists id hash later)
      → ((id : String) (error : ReportParsingError)
          → HasError id error errors
          → HasError id error more)
      → AccountedAs env (dmarc_kind env) config dmarc_lists f read reports mails errors
      → AccountedAs env (dmarc_kind env) config dmarc_lists f read reports later more
  AccountedAs-later f (ok report) reports mails later errors more d e (inl h) = inl h
  AccountedAs-later f (ok report) reports mails later errors more d e (inr (on, (hash, h, i))) =
      inr (on, (hash, d f.mail_id hash h, i))
  AccountedAs-later f (err message) reports mails later errors more d e h = e f.mail_id _ h

  abbrev KeepsLists : List (String × Mail) → List (String × Mail) → Type 0
  KeepsLists mails later =
      (id hash : String)
      → HasDuplicate dmarc_lists id hash mails
      → HasDuplicate dmarc_lists id hash later

  tls_loop-keeps :
      (files : List ReportFile) (mails : List (String × Mail))
      (errors : List (String × List ReportParsingError))
      → OnOk
          (λ t. KeepsLists mails t.mails)
          (report_loop env (tls_kind env) config files (loop_start mails errors))
  tls_loop-keeps files mails errors =
      loop-mails env (tls_kind env) config dmarc_lists (KeepsLists mails)
        (λ k other later h id hash d.
          HasDuplicate-modify dmarc_lists k id hash _ later (λ m i. i) (h id hash d))
        (λ k later h id hash d.
          HasDuplicate-modify dmarc_lists k id hash _ later (λ m i. i) (h id hash d))
        files (loop_start mails errors) (λ id hash d. d)

  parse_all-AllAccounted :
      (files : FileMaps) (mails : List (String × Mail))
      → FilesMeet (IsKnown mails) files
      → OnOk
          (λ u. AllAccounted files u.dmarc.reports u.tls.reports u.tls.mails u.tls.parsing_errors)
          (parse_all env config (files, mails))
  unfolding parse_all Map.get
  parse_all-AllAccounted files mails known =
      OnOk-then _ _
        (report_loop env (dmarc_kind env) config (values files.xml_files) (loop_start mails [])) _
        (loop-IsAccounted env (dmarc_kind env) config dmarc_lists (dmarc-IsListing env)
          (values files.xml_files) (loop_start mails [])
          (All_of_map (λ f. IsKnown mails f.mail_id) (λ e. e.1) files.xml_files known.0)
          (λ key hash e. cc))
        (λ dmarc p.
          OnOk-then _ _
            (report_loop env (tls_kind env) config (values files.json_files)
              (loop_start dmarc.mails dmarc.parsing_errors))
            _
            (OnOk-and _ _
              (report_loop env (tls_kind env) config (values files.json_files)
                (loop_start dmarc.mails dmarc.parsing_errors))
              (loop-IsAccounted env (tls_kind env) config tls_lists (tls-IsListing env)
                (values files.json_files) (loop_start dmarc.mails dmarc.parsing_errors)
                (All-map (λ f. IsKnown mails f.mail_id) (λ f. IsKnown dmarc.mails f.mail_id)
                  (λ f k. p.0.known f.mail_id k) (values files.json_files)
                  (All_of_map (λ f. IsKnown mails f.mail_id) (λ e. e.1) files.json_files known.1))
                (λ key hash e. cc))
              (tls_loop-keeps (values files.json_files) dmarc.mails dmarc.parsing_errors))
            (λ tls q. (
              All-map _ _
                  (λ f a.
                    AccountedAs-later f (env.dmarc_from_slice f.bytes) dmarc.reports dmarc.mails
                      tls.mails dmarc.parsing_errors tls.parsing_errors q.1 q.0.0.errors a)
                  (values files.xml_files) p.1,
              q.0.1,
            )))

-- A successful update with the mails of an IMAP server accounts for every report file that it takes out of
-- them, where files under the same hash are one: for a file that can be read a report is stored under
-- the hash of its data and its mail's ID, or, while the duplicate filter is on, its mail lists the hash of
-- a stored report among its duplicates; for any other file the error is kept for its mail. And
-- every stored report is, under that hash of one of the files, what this file was read as, with the
-- ID of its mail.
pub bg_update-AllAccounted :
    {L : Type 0} (imap : ImapEnv) (env : BgEnv) (config : Configuration) (time : Result ℕ)
    (elapsed : String) (state updated : AppState L) (new_mails : List String)
    → bg_update (with_imap imap env config) config time elapsed state ≡ ok (updated, new_mails)
    → (mails : List (String × Mail)) × (collect_mails (with_imap imap env config) config ≡ ok mails)
      × AllAccounted
          (with_imap imap env config)
          config
          (extract_all (with_imap imap env config) config mails).0
          updated.dmarc_reports
          updated.tls_reports
          updated.mails
          updated.parsing_errors
      × AllFromFiles
          (with_imap imap env config)
          config
          (extract_all (with_imap imap env config) config mails).0
          updated.dmarc_reports
          updated.tls_reports
unfolding bg_update replace_state
bg_update-AllAccounted {L} imap env config time elapsed state updated new_mails h =
    let from = with_imap imap env config in
    let (mails, c) = collect_of_update config from time elapsed state (updated, new_mails) h in
    let fetched : All IsFetched mails =
      subst (OnOk (All IsFetched)) c
        (collect_mails-IsFetched from config (with_imap-IsFetched imap env config)) in
    let x = extract_all from config mails in
    let both =
      subst
        (OnOk (λ (r : AppState L × List String).
          AllAccounted from config x.0 r.0.dmarc_reports r.0.tls_reports r.0.mails
            r.0.parsing_errors
          × AllFromFiles from config x.0 r.0.dmarc_reports r.0.tls_reports))
        h
        (rw (c, bg_update)
          (OnOk-then _ _ (parse_all from config x) _
            (OnOk-and _ _ (parse_all from config x)
              (parse_all-AllAccounted from config x.0 x.1
                (extract_all-FilesMeet from config mails fetched))
              (parse_all-AllFromFiles from config x.0 x.1))
            (λ u accounted. OnOk->>= _ (context time _) _ (λ t. accounted)))) in
    (mails, c, both.0, both.1)
