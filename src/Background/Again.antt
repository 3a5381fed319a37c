-- ===== src/Background/Again.antt =====
-- src/background.rs: a second update while the folders stay as they are.
use mathlib.Core.Path.{subst}
use dmarc_report_viewer.Common.{
  ℕ, String, ◌≡◌, refl, sym, ap, ◌∙◌, List, [], ◌∷◌, Option-cases, inl, inr, ◌==◌, if-cases,
  string_eq, In,
}
use dmarc_report_viewer.Common.Map
use dmarc_report_viewer.Common.Result.{
  Result, ok, OnOk, OnOk-then, OnOk->>=, Result-cases, require, context,
}
use dmarc_report_viewer.Config.{Configuration}
use dmarc_report_viewer.Mail.{Mail}
use dmarc_report_viewer.State.{AppState}
use dmarc_report_viewer.Unpack.{ReportFile}
use dmarc_report_viewer.Reports.{
  BgEnv, ReportKind, ReportLoop, accept, reject, report_step, report_loop, loop_start, dmarc_kind,
  tls_kind,
}
use dmarc_report_viewer.Background.{
  FileMaps, keys, values, collect_mails, extract_all, parse_all, replace_state, bg_update,
}
use dmarc_report_viewer.Background.Mails.{extract_mails-keys}
use dmarc_report_viewer.Background.NewMails.{bg_update-IsNew}

modify-keys :
    (k : String) (f : Mail → Mail) (m : List (String × Mail)) → keys (Map.modify k f m) ≡ keys m
unfolding Map.modify
modify-keys k f [] = refl
modify-keys k f ((i, w) ∷ m) =
    if-cases (λ (l : List (String × Mail)). keys l ≡ i ∷ keys m) (i == k) (λ _. refl)
      (ap (λ l. i ∷ l) (modify-keys k f m))

module _ {R W : Type 0} (env : BgEnv) (kind : ReportKind R W) (config : Configuration) where
  abbrev SameKeys : List String → ReportLoop W → Type 0
  SameKeys ids s = keys s.mails ≡ ids

  accept-keys :
      (file : ReportFile) (report : R) (s : ReportLoop W)
      → SameKeys (keys s.mails) (accept env kind config file report s)
  unfolding accept
  accept-keys file report s =
      if-cases (SameKeys (keys s.mails)) config.disable_duplicate_filter (λ _. refl)
        (elim (Option-cases (Map.get (kind.dupl_key report) s.duplication_map)) [
          | inl e ↦ rw e refl
          | inr (other, e) ↦ rw e (modify-keys file.mail_id (kind.push_duplicate other) s.mails)
        ])

  step-keys :
      (file : ReportFile) (s : ReportLoop W)
      → OnOk (SameKeys (keys s.mails)) (report_step env kind config file s)
  unfolding report_step reject
  step-keys file s = elim (Result-cases (kind.from_slice file.bytes)) [
    | inl (report, e) ↦ rw (e, report_step) (accept-keys file report s)
    | inr (message, e) ↦
        rw (e, report_step)
          (OnOk->>= (SameKeys (keys s.mails)) (require (Map.get file.mail_id s.mails) _) _
            (λ mail. modify-keys file.mail_id kind.count_error s.mails))
  ]

  loop-keys :
      (files : List ReportFile) (s : ReportLoop W) (ids : List String)
      → SameKeys ids s
      → OnOk (SameKeys ids) (report_loop env kind config files s)
  unfolding report_loop
  loop-keys [] s ids h = h
  loop-keys (file ∷ rest) s ids h =
      OnOk-then (SameKeys (keys s.mails)) (SameKeys ids) (report_step env kind config file s)
        (report_loop env kind config rest) (step-keys file s) (λ t p. loop-keys rest t ids (p ∙ h))

module _ (env : BgEnv) (config : Configuration) where
  pub parse_all-keys :
      (x : FileMaps × List (String × Mail))
      → OnOk (λ u. keys u.tls.mails ≡ keys x.1) (parse_all env config x)
  unfolding parse_all
  parse_all-keys (files, mails) =
      OnOk-then _ _
        (report_loop env (dmarc_kind env) config (values files.xml_files) (loop_start mails [])) _
        (loop-keys env (dmarc_kind env) config (values files.xml_files) (loop_start mails [])
          (keys mails) refl)
        (λ dmarc p.
          OnOk-then _ _
            (report_loop env (tls_kind env) config (values files.json_files)
              (loop_start dmarc.mails dmarc.parsing_errors))
            _
            (loop-keys env (tls_kind env) config (values files.json_files)
              (loop_start dmarc.mails dmarc.parsing_errors) (keys mails) p)
            (λ tls q. q))

  -- The state after an update has the mails that the folders answer with.
  pub bg_update-keys :
      {L : Type 0} (mails : List (String × Mail)) (time : Result ℕ) (elapsed : String)
      (state : AppState L)
      → collect_mails env config ≡ ok mails
      → OnOk (λ r. keys r.0.mails ≡ keys mails) (bg_update env config time elapsed state)
  unfolding bg_update replace_state extract_all
  bg_update-keys mails time elapsed state h =
      rw (h, bg_update)
        (OnOk-then _ _ (parse_all env config (extract_all env config mails)) _ (parse_all-keys _)
          (λ u p. OnOk->>= _ (context time _) _ (λ t. p ∙ extract_mails-keys env config mails _)))

  -- When the folders answer both updates with the same mails and both succeed, the second update,
  -- from the state that the first one left, reports no mail as new.
  pub bg_update_again :
      {L : Type 0} (mails : List (String × Mail)) (time later : Result ℕ)
      (elapsed elapsed' : String) (state updated last : AppState L) (new_mails more : List String)
      → collect_mails env config ≡ ok mails
      → bg_update env config time elapsed state ≡ ok (updated, new_mails)
      → bg_update env config later elapsed' updated ≡ ok (last, more)
      → (id : String) → ¬ In id more
  bg_update_again mails time later elapsed elapsed' state updated last new_mails more collected
        first second id i =
      let new = ((bg_update-IsNew env config later elapsed' updated last more second).1 id).0 i in
      let before =
        subst (OnOk (λ r. keys r.0.mails ≡ keys mails)) first
          (bg_update-keys mails time elapsed state collected) in
      let after =
        subst (OnOk (λ r. keys r.0.mails ≡ keys mails)) second
          (bg_update-keys mails later elapsed' updated collected) in
      new.2 (subst (In id) (after ∙ sym before) new.1)
