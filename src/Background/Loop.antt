-- ===== src/Background/Loop.antt =====
-- src/background.rs: the loops over the report files go through, and count what they reject.
use dmarc_report_viewer.Common.{
  ℕ, ◌+◌, ◌%◌, String, ◌≡◌, refl, sym, ◌∙◌, ap, some, List, [], ◌∷◌, ◌++◌, Bool-cases, Option-cases,
  inl, inr, or_empty, ◌==◌, if◌then◌else◌, if-cases, is_none, string_eq, arith, All, u64_mod,
}
use dmarc_report_viewer.Common.Result.{ok, Result-cases}
use mathlib.Core.Path.{subst}
use dmarc_report_viewer.Common.Map
use dmarc_report_viewer.Common.Map.{get-insert, get-modify, is_none-get-modify}
use dmarc_report_viewer.Common.BTree
use dmarc_report_viewer.Config.{Configuration}
use dmarc_report_viewer.Mail.{Mail}
use dmarc_report_viewer.State.{ReportParsingError}
use dmarc_report_viewer.Unpack.{ReportFile}
use dmarc_report_viewer.Reports.{
  BgEnv, ReportKind, ReportLoop, accept, reject, rejected, report_step, report_loop, report_hash,
}
use dmarc_report_viewer.Background.Mails.{IsKnown}
use dmarc_report_viewer.Background.Errors.{counted_errors, kept_errors, kept_errors-insert}

module _ {W : Type 0} where
  -- What holds between the rounds of a loop, for the keys that the mails had before it: the keys are
  -- the same, each mail counts as many errors as are kept for it, modulo the word size, and errors and
  -- reports belong to mails that are there.
  pub record IsConsistent (mail_of : W → String) (start : List (String × Mail)) (s : ReportLoop W)
      : Type 0 where
    pub same_keys : (id : String) → is_none (Map.get id s.mails) ≡ is_none (Map.get id start)
    pub counts :
        (id : String) (m : Mail)
        → Map.get id s.mails ≡ some m
        → counted_errors m % u64_mod ≡ kept_errors id s.parsing_errors % u64_mod
    pub error_mails :
        (id : String) (errors : List ReportParsingError)
        → Map.get id s.parsing_errors ≡ some errors
        → IsKnown start id
    pub report_mails :
        (hash : String) (w : W) → Map.get hash s.reports ≡ some w → IsKnown start (mail_of w)

one_more : (a b : ℕ) → a % u64_mod ≡ b % u64_mod → (a + 1) % u64_mod ≡ (b + 1) % u64_mod
one_more a b h = omega arith

module _ {R W : Type 0} where
  -- What the two kinds of reports have in common
  pub record IsKind (kind : ReportKind R W) (mail_of : W → String) : Type 0 where
    pub with_mail : (r : R) (id : String) → mail_of (kind.with_mail_id r id) ≡ id
    pub duplicate_keeps :
        (hash : String) (m : Mail) → counted_errors (kind.push_duplicate hash m) ≡ counted_errors m
    pub error_counts :
        (m : Mail)
        → counted_errors (kind.count_error m) % u64_mod ≡ (counted_errors m + 1) % u64_mod

  module _ (env : BgEnv) (kind : ReportKind R W) (config : Configuration) (mail_of : W → String)
      (start : List (String × Mail)) (kind_lem : IsKind kind mail_of) where
    -- Storing a report of a known mail
    report_mails-insert :
        (new : String) (rwi : W) (reports : List (String × W))
        → IsKnown start (mail_of rwi)
        → ((hash : String) (w : W) → Map.get hash reports ≡ some w → IsKnown start (mail_of w))
        → (hash : String) (w : W) → Map.get hash (BTree.insert new rwi reports) ≡ some w
        → IsKnown start (mail_of w)
    report_mails-insert new rwi reports known h hash w found = elim (Bool-cases (new == hash)) [
      | inl e ↦
          let same : rwi ≡ w = ground (arith, BTree.get-insert new hash rwi reports) in
          subst (λ x. IsKnown start (mail_of x)) same known
      | inr e ↦ h hash w (ground (arith, BTree.get-insert new hash rwi reports))
    ]

    -- A change of one mail that keeps its errors keeps the counts.
    counts-modify :
        (k : String) (f : Mail → Mail) (mails : List (String × Mail)) (kept : String → ℕ)
        → ((m : Mail) → counted_errors (f m) ≡ counted_errors m)
        → ((id : String) (m : Mail)
            → Map.get id mails ≡ some m
            → counted_errors m % u64_mod ≡ kept id % u64_mod)
        → (id : String) (m : Mail) → Map.get id (Map.modify k f mails) ≡ some m
        → counted_errors m % u64_mod ≡ kept id % u64_mod
    counts-modify k f mails kept keeps h id m found =
        let old = Map.get-modify-inv k id f mails m found in
        let same : counted_errors (if k == id then f old.0 else old.0) ≡ counted_errors old.0 =
          if-cases (λ x. counted_errors x ≡ counted_errors old.0) (k == id) (λ _. keeps old.0)
            refl in
        ap (λ x. counted_errors x % u64_mod) old.2 ∙ ap (λ n. n % u64_mod) same ∙ h id old.0 old.1

    -- One more error for one mail
    counts-error :
        (k : String) (error : ReportParsingError) (mails : List (String × Mail))
        (errors : List (String × List ReportParsingError))
        → ((id : String) (m : Mail)
            → Map.get id mails ≡ some m
            → counted_errors m % u64_mod ≡ kept_errors id errors % u64_mod)
        → (id : String) (m : Mail) → Map.get id (Map.modify k kind.count_error mails) ≡ some m
        → counted_errors m % u64_mod
          ≡ kept_errors id (Map.insert k (or_empty (Map.get k errors) ++ error ∷ []) errors)
            % u64_mod
    counts-error k error mails errors h id m found =
        let old = Map.get-modify-inv k id kind.count_error mails m found in
        let before = h id old.0 old.1 in
        elim (Bool-cases (k == id)) [
          | inl e ↦
              let changed : m ≡ kind.count_error old.0 =
                old.2 ∙ ap (λ b. if b then kind.count_error old.0 else old.0) e in
              let kept =
                kept_errors-insert k id error errors
                ∙ ap (λ b. if b then kept_errors id errors + 1 else kept_errors id errors) e in
              ap (λ x. counted_errors x % u64_mod) changed
              ∙ kind_lem.error_counts old.0
              ∙ one_more (counted_errors old.0) (kept_errors id errors) before
              ∙ ap (λ n. n % u64_mod) (sym kept)
          | inr e ↦
              let same : m ≡ old.0 =
                old.2 ∙ ap (λ b. if b then kind.count_error old.0 else old.0) e in
              let kept =
                kept_errors-insert k id error errors
                ∙ ap (λ b. if b then kept_errors id errors + 1 else kept_errors id errors) e in
              ap (λ x. counted_errors x % u64_mod) same ∙ before ∙ ap (λ n. n % u64_mod) (sym kept)
        ]

    modified_keys :
        (k : String) (f : Mail → Mail) (s : ReportLoop W)
        → ((id : String) → is_none (Map.get id s.mails) ≡ is_none (Map.get id start))
        → (id : String) → is_none (Map.get id (Map.modify k f s.mails)) ≡ is_none (Map.get id start)
    modified_keys k f s h id = is_none-get-modify k id f s.mails ∙ h id

    accept-IsConsistent :
        (file : ReportFile) (report : R) (s : ReportLoop W)
        → IsKnown start file.mail_id
        → IsConsistent mail_of start s
        → IsConsistent mail_of start (accept env kind config file report s)
    unfolding accept
    accept-IsConsistent file report s known c =
        let key = kind.dupl_key report in
        let rwi = kind.with_mail_id report file.mail_id in
        let hash = report_hash env kind config file in
        let stored =
          report_mails-insert hash rwi s.reports
            (subst (IsKnown start) (sym (kind_lem.with_mail report file.mail_id)) known)
            c.report_mails in
        if-cases (IsConsistent mail_of start) config.disable_duplicate_filter
          (λ _. record {
            same_keys = c.same_keys;
            counts = c.counts;
            error_mails = c.error_mails;
            report_mails = stored;
          })
          (elim (Option-cases (Map.get key s.duplication_map)) [
            | inl e ↦ rw e (record {
              same_keys = c.same_keys;
              counts = c.counts;
              error_mails = c.error_mails;
              report_mails = stored;
            })
            | inr (other, e) ↦ rw e (record {
              same_keys = modified_keys file.mail_id (kind.push_duplicate other) s c.same_keys;
              counts =
                  counts-modify file.mail_id (kind.push_duplicate other) s.mails
                    (λ id. kept_errors id s.parsing_errors) (kind_lem.duplicate_keeps other)
                    c.counts;
              error_mails = c.error_mails;
              report_mails = c.report_mails;
            })
          ])

    error_mails-insert :
        (k : String) (more : List ReportParsingError)
        (errors : List (String × List ReportParsingError))
        → IsKnown start k
        → ((id : String) (found : List ReportParsingError)
            → Map.get id errors ≡ some found
            → IsKnown start id)
        → (id : String) (found : List ReportParsingError)
        → Map.get id (Map.insert k more errors) ≡ some found
        → IsKnown start id
    error_mails-insert k more errors known h id found e = elim (Bool-cases (k == id)) [
      | inl q ↦ subst (IsKnown start) ((string_eq.equals_iff k id).0 q) known
      | inr q ↦ h id found (ground (arith, get-insert k id more errors))
    ]

    -- A file of a known mail is taken or counted as an error: the loop does not stop at it.
    step-IsConsistent :
        (file : ReportFile) (s : ReportLoop W)
        → IsKnown start file.mail_id
        → IsConsistent mail_of start s
        → (t : ReportLoop W) × (report_step env kind config file s ≡ ok t)
          × IsConsistent mail_of start t
    unfolding report_step reject
    step-IsConsistent file s known c = elim (Result-cases (kind.from_slice file.bytes)) [
      | inl (report, e) ↦ (
        accept env kind config file report s,
        rw (e, report_step) refl,
        accept-IsConsistent file report s known c,
      )
      | inr (message, e) ↦ elim (Option-cases (Map.get file.mail_id s.mails)) [
        | inl missing ↦ absurd (ground (arith, c.same_keys file.mail_id, ap is_none missing, known))
        | inr (mail, there) ↦ (
          rejected env kind config file message s,
          rw (e, there, report_step) refl,
          record {
            same_keys = modified_keys file.mail_id kind.count_error s c.same_keys;
            counts = counts-error file.mail_id _ s.mails s.parsing_errors c.counts;
            error_mails = error_mails-insert file.mail_id _ s.parsing_errors known c.error_mails;
            report_mails = c.report_mails;
          },
        )
      ]
    ]

    pub loop-IsConsistent :
        (files : List ReportFile) (s : ReportLoop W)
        → All (λ f. IsKnown start f.mail_id) files
        → IsConsistent mail_of start s
        → (t : ReportLoop W) × (report_loop env kind config files s ≡ ok t)
          × IsConsistent mail_of start t
    unfolding report_loop
    loop-IsConsistent [] s known c = (s, refl, c)
    loop-IsConsistent (file ∷ rest) s known c =
        let first = step-IsConsistent file s known.0 c in
        let others = loop-IsConsistent rest first.0 known.1 first.2 in
        (others.0, rw (first.1, report_loop) others.1, others.2)
