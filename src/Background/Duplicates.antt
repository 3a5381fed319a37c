-- ===== src/Background/Duplicates.antt =====
-- src/background.rs: the duplicate filter of a loop over report files.
use dmarc_report_viewer.Common.{
  ℕ, String, ◌≡◌, refl, sym, ◌∙◌, ap, none, some, List, [], ◌∷◌, false, Bool-cases, Option-cases,
  inl, inr, ◌==◌, string_eq, arith,
}
use dmarc_report_viewer.Common.Result.{
  Result, ok, Result-cases, OnOk, OnOk-then, OnOk->>=, OnOk-map, require, context,
}
use dmarc_report_viewer.Common.Map
use dmarc_report_viewer.Common.Map.{get-insert}
use dmarc_report_viewer.Common.BTree
use dmarc_report_viewer.Config.{Configuration}
use Prim.Native.String as S
use mathlib.Core.Path.{subst}
use dmarc_report_viewer.Mail.{Mail}
use dmarc_report_viewer.State.{
  AppState, ReportParsingError, DmarcReportWithMailId, TlsReportWithMailId,
}
use dmarc_report_viewer.Unpack.{ReportFile}
use dmarc_report_viewer.Background.{
  values, FileMaps, Update, collect_mails, extract_all, parse_all, replace_state, bg_update,
}
use dmarc_report_viewer.Reports.{
  BgEnv, ReportKind, ReportLoop, accept, reject, report_step, report_loop, report_hash, loop_start,
  dmarc_kind, tls_kind,
}

module _ {R W : Type 0} (env : BgEnv) (kind : ReportKind R W) (config : Configuration) where
  -- The key of a stored report, by the key `of` a report with its mail
  module _ (key_of : W → String) where
    -- The duplication map leads every stored report's key to the report's own hash.
    abbrev pub IsIndexed : ReportLoop W → Type 0
    IsIndexed s =
        (hash : String) (w : W)
        → Map.get hash s.reports ≡ some w
        → Map.get (key_of w) s.duplication_map ≡ some hash

    -- A report under a new key, stored with the key's new place in the duplication map
    insert-IsIndexed :
        (new key : String) (rwi : W) (reports : List (String × W)) (dm : List (String × String))
        → key_of rwi ≡ key
        → Map.get key dm ≡ none
        → ((hash : String) (w : W)
            → Map.get hash reports ≡ some w
            → Map.get (key_of w) dm ≡ some hash)
        → (hash : String) (w : W) → Map.get hash (BTree.insert new rwi reports) ≡ some w
        → Map.get (key_of w) (Map.insert key new dm) ≡ some hash
    insert-IsIndexed new key rwi reports dm key_lem absent h hash w found =
        elim (Bool-cases (new == hash)) [
          | inl e ↦
              let same : rwi ≡ w = ground (arith, BTree.get-insert new hash rwi reports) in
              let same_key : key_of w ≡ key = ap key_of (sym same) ∙ key_lem in
              ground (
                arith,
                string_eq.equals_iff new hash,
                string_eq.equals_iff key (key_of w),
                get-insert key (key_of w) new dm,
              )
          | inr e ↦
              let old : Map.get hash reports ≡ some w =
                ground (arith, BTree.get-insert new hash rwi reports) in
              let place = h hash w old in
              ground (
                arith,
                place,
                string_eq.equals_iff key (key_of w),
                get-insert key (key_of w) new dm,
              )
        ]

    module _ (key_lem : (r : R) (id : String) → key_of (kind.with_mail_id r id) ≡ kind.dupl_key r)
        (on : config.disable_duplicate_filter ≡ false) where
      accept-IsIndexed :
          (file : ReportFile) (report : R) (s : ReportLoop W)
          → IsIndexed s
          → IsIndexed (accept env kind config file report s)
      unfolding accept
      accept-IsIndexed file report s h =
          elim (Option-cases (Map.get (kind.dupl_key report) s.duplication_map)) [
            | inl e ↦
                rw (on, e, accept)
                  (insert-IsIndexed (report_hash env kind config file) (kind.dupl_key report)
                    (kind.with_mail_id report file.mail_id) s.reports s.duplication_map
                    (key_lem report file.mail_id) e h)
            | inr (other, e) ↦ rw (on, e, accept) h
          ]

      step-IsIndexed :
          (file : ReportFile) (s : ReportLoop W)
          → IsIndexed s
          → OnOk IsIndexed (report_step env kind config file s)
      unfolding report_step reject
      step-IsIndexed file s h = elim (Result-cases (kind.from_slice file.bytes)) [
        | inl (report, e) ↦ rw (e, report_step) (accept-IsIndexed file report s h)
        | inr (error, e) ↦
            rw (e, report_step)
              (OnOk->>= IsIndexed (require (Map.get file.mail_id s.mails) _) _ (λ mail. h))
      ]

      pub loop-IsIndexed :
          (files : List ReportFile) (s : ReportLoop W)
          → IsIndexed s
          → OnOk IsIndexed (report_loop env kind config files s)
      unfolding report_loop
      loop-IsIndexed [] s h = h
      loop-IsIndexed (file ∷ rest) s h =
          OnOk-then IsIndexed IsIndexed (report_step env kind config file s)
            (report_loop env kind config rest) (step-IsIndexed file s h) (loop-IsIndexed rest)

-- No two of some reports have the same key.
abbrev pub AreUnique : {W : Type 0} → (W → String) → List (String × W) → Type 0
AreUnique {W = W} key_of reports =
    (hash other : String) (w v : W)
    → Map.get hash reports ≡ some w
    → Map.get other reports ≡ some v
    → key_of w ≡ key_of v
    → hash ≡ other

AreUnique-of_IsIndexed :
    {R W : Type 0} (env : BgEnv) (kind : ReportKind R W) (config : Configuration)
    (key_of : W → String) (s : ReportLoop W)
    → IsIndexed env kind config key_of s
    → AreUnique key_of s.reports
AreUnique-of_IsIndexed env kind config key_of s h hash other w v e f same =
    some-inj (sym (h hash w e) ∙ ap (λ k. Map.get k s.duplication_map) same ∙ h other v f)
  where
    some-inj : {x y : String} → some x ≡ some y → x ≡ y
    some-inj p = cc

abbrev pub dmarc_key : DmarcReportWithMailId → String
dmarc_key w = S.◌++◌ w.report.report_metadata.org_name w.report.report_metadata.report_id

abbrev pub tls_key : TlsReportWithMailId → String
tls_key w = S.◌++◌ w.report.organization_name w.report.report_id

module _ (env : BgEnv) (config : Configuration) (on : config.disable_duplicate_filter ≡ false) where
  abbrev UniqueUpdate : Update → Type 0
  UniqueUpdate u = AreUnique dmarc_key u.dmarc.reports × AreUnique tls_key u.tls.reports

  loop-AreUnique :
      {R W : Type 0} (kind : ReportKind R W) (key_of : W → String)
      → ((r : R) (id : String) → key_of (kind.with_mail_id r id) ≡ kind.dupl_key r)
      → (files : List ReportFile) (mails : List (String × Mail))
        (errors : List (String × List ReportParsingError))
      → OnOk
          (λ s. AreUnique key_of s.reports)
          (report_loop env kind config files (loop_start mails errors))
  unfolding Map.get
  loop-AreUnique kind key_of lem files mails errors =
      OnOk-map (IsIndexed env kind config key_of) _ (AreUnique-of_IsIndexed env kind config key_of)
        (report_loop env kind config files (loop_start mails errors))
        (loop-IsIndexed env kind config key_of lem on files (loop_start mails errors)
          (λ hash w e. cc))

  parse_all-Unique :
      (x : FileMaps × List (String × Mail)) → OnOk UniqueUpdate (parse_all env config x)
  unfolding parse_all
  parse_all-Unique (files, mails) =
      OnOk-then _ _
        (report_loop env (dmarc_kind env) config (values files.xml_files) (loop_start mails [])) _
        (loop-AreUnique (dmarc_kind env) dmarc_key (λ r id. refl) (values files.xml_files) mails [])
        (λ dmarc unique.
          OnOk-then _ _
            (report_loop env (tls_kind env) config (values files.json_files)
              (loop_start dmarc.mails dmarc.parsing_errors))
            _
            (loop-AreUnique (tls_kind env) tls_key (λ r id. refl) (values files.json_files)
              dmarc.mails dmarc.parsing_errors)
            (λ tls unique_tls. (unique, unique_tls)))

  -- While the duplicate filter is on, a successful update leaves no two DMARC reports, and no two TLS
  -- reports, under different hashes whose organisation name followed by the report ID is the same text.
  pub bg_update-AreUnique :
      {L : Type 0} (now : Result ℕ) (elapsed : String) (state updated : AppState L)
      (new_mails : List String)
      → bg_update env config now elapsed state ≡ ok (updated, new_mails)
      → AreUnique dmarc_key updated.dmarc_reports × AreUnique tls_key updated.tls_reports
  unfolding bg_update replace_state
  bg_update-AreUnique now elapsed state updated new_mails h =
      subst (OnOk (λ r. AreUnique dmarc_key r.0.dmarc_reports × AreUnique tls_key r.0.tls_reports))
        h
        (OnOk->>= _ (collect_mails env config) _ (λ mails.
          OnOk-then _ _ (parse_all env config (extract_all env config mails)) _ (parse_all-Unique _)
            (λ u unique. OnOk->>= _ (context now _) _ (λ t. unique))))
