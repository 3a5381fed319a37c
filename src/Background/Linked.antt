-- ===== src/Background/Linked.antt =====
-- src/background.rs: a whole update.
use dmarc_report_viewer.Common.{
  ℕ, ◌%◌, String, ◌≡◌, refl, sym, ◌∙◌, some, List, [], string_eq, arith, All, All-In, All_of_In,
  All_of_map, u64_mod, add_u64_lem,
}
use mathlib.Core.Path.{subst}
use dmarc_report_viewer.Common.Result.{ok, OnOk}
use dmarc_report_viewer.Common.Map
use dmarc_report_viewer.Common.Map.{is_none-get-keys}
use dmarc_report_viewer.Common.Map.Keys.{In-of_get, found_of_In}
use dmarc_report_viewer.Config.{Configuration}
use dmarc_report_viewer.Mail.{Mail}
use dmarc_report_viewer.State.{
  AppState, ReportParsingError, DmarcReportWithMailId, TlsReportWithMailId,
}
use dmarc_report_viewer.Background.{
  FileMaps, Update, values, collect_mails, extract_all, parse_all, replace_state, detect_new,
  bg_update,
}
use dmarc_report_viewer.Reports.{BgEnv, loop_start, dmarc_kind, tls_kind}
use dmarc_report_viewer.Background.Mails.{
  IsFetched, IsKnown, FilesMeet, extract_mails-FilesMeet, extract_mails-IsFetched,
  extract_mails-keys, collect_mails-IsFetched,
}
use dmarc_report_viewer.Background.Loop.{IsConsistent, IsKind, loop-IsConsistent}
use dmarc_report_viewer.Background.Errors.{counted_errors, kept_errors}

-- The references of a state lead somewhere: each mail counts as many errors as are kept for it,
-- modulo the word size, and every report and every kept error belongs to a mail that is there.
pub record IsLinked {L : Type 0} (state : AppState L) : Type 0 where
  pub counts :
      (id : String) (m : Mail)
      → Map.get id state.mails ≡ some m
      → counted_errors m % u64_mod ≡ kept_errors id state.parsing_errors % u64_mod
  pub error_mails :
      (id : String) (errors : List ReportParsingError)
      → Map.get id state.parsing_errors ≡ some errors
      → IsKnown state.mails id
  pub dmarc_mails :
      (hash : String) (w : DmarcReportWithMailId)
      → Map.get hash state.dmarc_reports ≡ some w
      → IsKnown state.mails w.mail_id
  pub tls_mails :
      (hash : String) (w : TlsReportWithMailId)
      → Map.get hash state.tls_reports ≡ some w
      → IsKnown state.mails w.mail_id

no_errors : (e : String × Mail) → IsFetched e → counted_errors e.1 % u64_mod ≡ 0
no_errors (id, m) h = omega (arith, h.1, h.2)

dmarc_kind-IsKind : (env : BgEnv) → IsKind (dmarc_kind env) (λ w. w.mail_id)
dmarc_kind-IsKind env = record {
  with_mail = λ r id. refl;
  duplicate_keeps = λ hash m. refl;
  error_counts = λ m. omega (arith, add_u64_lem m.xml_parsing_errors 1);
}

tls_kind-IsKind : (env : BgEnv) → IsKind (tls_kind env) (λ w. w.mail_id)
tls_kind-IsKind env = record {
  with_mail = λ r id. refl;
  duplicate_keeps = λ hash m. refl;
  error_counts = λ m. omega (arith, add_u64_lem m.json_parsing_errors 1);
}

replaced-IsLinked :
    {L : Type 0} (u : Update) (start : List (String × Mail)) (timestamp : ℕ) (elapsed : String)
    (state : AppState L)
    → IsConsistent (λ w. w.mail_id) start u.dmarc
    → IsConsistent (λ w. w.mail_id) start u.tls
    → IsLinked (replace_state u timestamp elapsed state)
unfolding replace_state
replaced-IsLinked u start timestamp elapsed state dmarc tls = record {
  counts = tls.counts;
  error_mails = λ id errors e. tls.same_keys id ∙ tls.error_mails id errors e;
  dmarc_mails = λ hash w e. tls.same_keys w.mail_id ∙ dmarc.report_mails hash w e;
  tls_mails = λ hash w e. tls.same_keys w.mail_id ∙ tls.report_mails hash w e;
}

module _ (env : BgEnv) (config : Configuration) where
  pub extract_all-FilesMeet :
      (mails : List (String × Mail))
      → All IsFetched mails
      → FilesMeet (IsKnown (extract_all env config mails).1) (extract_all env config mails).0
  unfolding extract_all
  extract_all-FilesMeet mails h =
      extract_mails-FilesMeet env config _ mails _
        (All_of_In _ mails (λ e i.
          is_none-get-keys e.1.id _ mails (extract_mails-keys env config mails _)
          ∙ subst (IsKnown mails) (sym (All-In IsFetched e mails h i).0)
              (found_of_In e.0 e.1 mails i)))
        (tt, tt)

  start-IsConsistent :
      (mails : List (String × Mail))
      → All IsFetched mails
      → IsConsistent (λ w. DmarcReportWithMailId.mail_id w) mails (loop_start mails [])
  unfolding Map.get
  start-IsConsistent mails h = record {
    same_keys = λ id. refl;
    counts = λ id m found.
        no_errors (id, m) (All-In IsFetched (id, m) mails h (In-of_get id m mails found));
    error_mails = λ id errors found. cc;
    report_mails = λ hash w found. cc;
  }

  -- The loops of an update go through and leave everything linked.
  parse_all-succeeds :
      (mails : List (String × Mail)) (files : FileMaps)
      → All IsFetched mails
      → FilesMeet (IsKnown mails) files
      → (u : Update) × (parse_all env config (files, mails) ≡ ok u)
        × IsConsistent (λ w. w.mail_id) mails u.dmarc
        × IsConsistent (λ w. w.mail_id) mails u.tls
  unfolding parse_all Map.get
  parse_all-succeeds mails files h known =
      let dmarc =
        loop-IsConsistent env (dmarc_kind env) config (λ w. w.mail_id) mails (dmarc_kind-IsKind env)
          (values files.xml_files) (loop_start mails [])
          (All_of_map (λ f. IsKnown mails f.mail_id) (λ e. e.1) files.xml_files known.0)
          (start-IsConsistent mails h) in
      let tls =
        loop-IsConsistent env (tls_kind env) config (λ w. w.mail_id) mails (tls_kind-IsKind env)
          (values files.json_files) (loop_start dmarc.0.mails dmarc.0.parsing_errors)
          (All_of_map (λ f. IsKnown mails f.mail_id) (λ e. e.1) files.json_files known.1)
          (record {
            same_keys = dmarc.2.same_keys;
            counts = dmarc.2.counts;
            error_mails = dmarc.2.error_mails;
            report_mails = λ hash w found. cc;
          }) in
      (
        record { files = files; dmarc = dmarc.0; tls = tls.0 },
        rw (dmarc.1, tls.1, parse_all) refl,
        dmarc.2,
        tls.2,
      )

  -- When the folders answer with mails as they are fetched (under their own ID, with no error
  -- counted) and the clock answers, an update of any state succeeds: no mail of a report file is
  -- ever missing. In the new state each mail counts as many errors as are kept for it (modulo the
  -- word size), and every report and every kept error belongs to a mail that is there.
  pub bg_update-IsLinked :
      {L : Type 0} (mails : List (String × Mail)) (timestamp : ℕ) (elapsed : String)
      (state : AppState L)
      → ((folder : String) → OnOk (All IsFetched) (env.get_mails folder))
      → collect_mails env config ≡ ok mails
      → (r : AppState L × List String) × (bg_update env config (ok timestamp) elapsed state ≡ ok r)
        × IsLinked r.0
  unfolding bg_update extract_all
  bg_update-IsLinked mails timestamp elapsed state fetched collected =
      let h : All IsFetched mails =
        subst (OnOk (All IsFetched)) collected (collect_mails-IsFetched env config fetched) in
      let x = extract_all env config mails in
      let all =
        parse_all-succeeds x.1 x.0 (extract_mails-IsFetched env config mails _ h)
          (extract_all-FilesMeet mails h) in
      (
        (replace_state all.0 timestamp elapsed state, detect_new state all.0.tls.mails),
        rw (collected, all.1, bg_update) refl,
        replaced-IsLinked all.0 x.1 timestamp elapsed state all.2 all.3,
      )
