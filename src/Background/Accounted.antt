-- ===== src/Background/Accounted.antt =====
-- src/background.rs: no report file gets lost in the loops over them.
use dmarc_report_viewer.Common.{
  String, ◌≡◌, ◌⊎◌, refl, sym, ap, ◌∙◌, some, List, [], ◌∷◌, false, Bool-cases, Option-cases, inl,
  inr, ◌==◌, is_none, string_eq, arith, In, All, All-map,
}
use dmarc_report_viewer.Common.BTree
use dmarc_report_viewer.Common.Map
use dmarc_report_viewer.Common.Map.{get-insert, is_none-get-modify}
use dmarc_report_viewer.Common.Result.{
  Result, ok, err, Result-cases, OnOk, OnOk-then, OnOk->>=, OnOk-map, require,
}
use mathlib.Core.Path.{subst}
use dmarc_report_viewer.Config.{Configuration}
use dmarc_report_viewer.Mail.{Mail}
use dmarc_report_viewer.State.{ReportParsingError}
use dmarc_report_viewer.Unpack.{ReportFile}
use dmarc_report_viewer.Reports.{
  BgEnv, ReportKind, ReportLoop, accept, reject, report_step, report_loop, report_hash,
}
use dmarc_report_viewer.Background.Mails.{IsKnown}
use dmarc_report_viewer.Background.Origins.{hash_of}
use dmarc_report_viewer.Background.Kept.{
  IsStored, HasError, HasDuplicate, IsStored-insert, IsStored-insert_self, HasError-insert,
  HasError-insert_self, HasDuplicate-modify, HasDuplicate-modify_self,
}

-- What a later point of a loop still has of an earlier one
pub record Keeps {W : Type 0} (dups : Mail → List String) (s t : ReportLoop W) : Type 0 where
  pub known : (id : String) → IsKnown s.mails id → IsKnown t.mails id
  pub stored : (hash : String) → IsStored hash s.reports → IsStored hash t.reports
  pub duplicates :
      (id hash : String) → HasDuplicate dups id hash s.mails → HasDuplicate dups id hash t.mails
  pub errors :
      (id : String) (error : ReportParsingError)
      → HasError id error s.parsing_errors
      → HasError id error t.parsing_errors

Keeps-refl : {W : Type 0} (dups : Mail → List String) (s : ReportLoop W) → Keeps dups s s
Keeps-refl dups s = record {
  known = λ id h. h;
  stored = λ hash h. h;
  duplicates = λ id hash h. h;
  errors = λ id error h. h;
}

Keeps-trans :
    {W : Type 0} (dups : Mail → List String) {s t u : ReportLoop W}
    → Keeps dups s t
    → Keeps dups t u
    → Keeps dups s u
Keeps-trans dups p q = record {
  known = λ id h. q.known id (p.known id h);
  stored = λ hash h. q.stored hash (p.stored hash h);
  duplicates = λ id hash h. q.duplicates id hash (p.duplicates id hash h);
  errors = λ id error h. q.errors id error (p.errors id error h);
}

-- The lists of duplicates that the two kinds of loops may change
pub record IsListing {R W : Type 0} (kind : ReportKind R W) (dups : Mail → List String)
    : Type 0 where
  pub pushed : (hash : String) (m : Mail) → In hash (dups (kind.push_duplicate hash m))
  pub push_keeps :
      (hash other : String) (m : Mail)
      → In hash (dups m)
      → In hash (dups (kind.push_duplicate other m))
  pub count_keeps : (m : Mail) → dups (kind.count_error m) ≡ dups m

module _ {R W : Type 0} (env : BgEnv) (kind : ReportKind R W) (config : Configuration)
    (dups : Mail → List String) where
  -- A file is accounted for: a report is stored under the hash of the file, or while the filter is on, it is
  -- listed as a duplicate of one that is stored; or an error is kept for its mail.
  abbrev pub AccountedAs :
      ReportFile
      → Result R
      → List (String × W)
      → List (String × Mail)
      → List (String × List ReportParsingError)
      → Type 0
  AccountedAs file (ok report) reports mails errors =
      IsStored (hash_of env file) reports
      ⊎ ((config.disable_duplicate_filter ≡ false)
          × ((hash : String) × HasDuplicate dups file.mail_id hash mails × IsStored hash reports))
  AccountedAs file (err message) reports mails errors =
      HasError file.mail_id
        (record { error = message; report = env.utf8_lossy file.bytes; kind = kind.file_type })
        errors

  abbrev pub IsAccounted : ReportLoop W → ReportFile → Type 0
  IsAccounted s file =
      AccountedAs file (kind.from_slice file.bytes) s.reports s.mails s.parsing_errors

  Keeps-AccountedAs :
      {s t : ReportLoop W} (file : ReportFile) (read : Result R)
      → Keeps dups s t
      → AccountedAs file read s.reports s.mails s.parsing_errors
      → AccountedAs file read t.reports t.mails t.parsing_errors
  Keeps-AccountedAs file (ok report) k (inl h) = inl (k.stored _ h)
  Keeps-AccountedAs file (ok report) k (inr (on, (hash, d, h))) =
      inr (on, (hash, k.duplicates file.mail_id hash d, k.stored hash h))
  Keeps-AccountedAs file (err message) k h = k.errors file.mail_id _ h

  -- The hashes in the duplication map are those of stored reports.
  abbrev LeadsToStored : ReportLoop W → Type 0
  LeadsToStored s =
      (key hash : String) → Map.get key s.duplication_map ≡ some hash → IsStored hash s.reports

  leads-insert :
      (key hash : String) (rwi : W) (s : ReportLoop W)
      → LeadsToStored s
      → (k h : String) → Map.get k (Map.insert key hash s.duplication_map) ≡ some h
      → IsStored h (BTree.insert hash rwi s.reports)
  leads-insert key hash rwi s leads k h e = elim (Bool-cases (key == k)) [
    | inl same ↦
        let found : hash ≡ h = ground (arith, get-insert key k hash s.duplication_map) in
        subst (λ x. IsStored x (BTree.insert hash rwi s.reports)) found
          (IsStored-insert_self hash rwi s.reports)
    | inr differ ↦
        IsStored-insert hash rwi s.reports h
          (leads k h (ground (arith, get-insert key k hash s.duplication_map)))
  ]

  -- What a round does to the state of the loop
  record IsRound (s : ReportLoop W) (read : Result R) (file : ReportFile) (t : ReportLoop W)
      : Type 0 where
    keeps : Keeps dups s t
    leads : LeadsToStored t
    accounted : AccountedAs file read t.reports t.mails t.parsing_errors

  module _ (listing : IsListing kind dups) where
    accept-IsRound :
        (file : ReportFile) (report : R) (s : ReportLoop W)
        → IsKnown s.mails file.mail_id
        → LeadsToStored s
        → IsRound s (ok report) file (accept env kind config file report s)
    unfolding accept
    accept-IsRound file report s known leads =
        let hash = report_hash env kind config file in
        let rwi = kind.with_mail_id report file.mail_id in
        let key = kind.dupl_key report in
        elim (Bool-cases config.disable_duplicate_filter) [
          | inl off ↦
              rw (off, accept)
                (record {
                  keeps = record {
                    known = λ id h. h;
                    stored = IsStored-insert hash rwi s.reports;
                    duplicates = λ id hash h. h;
                    errors = λ id error h. h;
                  };
                  leads = λ key h e. IsStored-insert hash rwi s.reports h (leads key h e);
                  accounted = inl (IsStored-insert_self hash rwi s.reports);
                })
          | inr on ↦ elim (Option-cases (Map.get key s.duplication_map)) [
            | inl e ↦
                rw (on, e, accept)
                  (record {
                    keeps = record {
                      known = λ id h. h;
                      stored = IsStored-insert hash rwi s.reports;
                      duplicates = λ id hash h. h;
                      errors = λ id error h. h;
                    };
                    leads = leads-insert key hash rwi s leads;
                    accounted = inl (IsStored-insert_self hash rwi s.reports);
                  })
            | inr (found_hash, e) ↦
                let push = kind.push_duplicate found_hash in
                rw (on, e, accept)
                  (record {
                    keeps = record {
                      known = λ id h. is_none-get-modify file.mail_id id push s.mails ∙ h;
                      stored = λ hash h. h;
                      duplicates = λ id hash h.
                          HasDuplicate-modify dups file.mail_id id hash push s.mails
                            (λ m. listing.push_keeps hash found_hash m) h;
                      errors = λ id error h. h;
                    };
                    leads = leads;
                    accounted = inr (
                      refl,
                      (
                        found_hash,
                        HasDuplicate-modify_self dups file.mail_id found_hash push s.mails
                            (listing.pushed found_hash) known,
                        leads key found_hash e,
                      ),
                    );
                  })
          ]
        ]

    step-IsRound :
        (file : ReportFile) (s : ReportLoop W)
        → IsKnown s.mails file.mail_id
        → LeadsToStored s
        → OnOk (IsRound s (kind.from_slice file.bytes) file) (report_step env kind config file s)
    unfolding report_step reject
    step-IsRound file s known leads = elim (Result-cases (kind.from_slice file.bytes)) [
      | inl (report, e) ↦ rw (e, report_step) (accept-IsRound file report s known leads)
      | inr (message, e) ↦ elim (Option-cases (Map.get file.mail_id s.mails)) [
        | inl missing ↦ absurd (ground (arith, ap is_none missing, known))
        | inr (mail, there_it_is) ↦
            rw (e, there_it_is, report_step)
              (record {
                keeps = record {
                  known = λ id h. is_none-get-modify file.mail_id id kind.count_error s.mails ∙ h;
                  stored = λ hash h. h;
                  duplicates = λ id hash h.
                      HasDuplicate-modify dups file.mail_id id hash kind.count_error s.mails
                        (λ m i. subst (In hash) (sym (listing.count_keeps m)) i) h;
                  errors = λ id error h. HasError-insert file.mail_id id _ error s.parsing_errors h;
                };
                leads = leads;
                accounted = HasError-insert_self file.mail_id _ s.parsing_errors;
              })
      ]
    ]

    -- When a loop ends, every file is accounted for, and all that was kept before is still there.
    pub loop-IsAccounted :
        (files : List ReportFile) (s : ReportLoop W)
        → All (λ f. IsKnown s.mails f.mail_id) files
        → LeadsToStored s
        → OnOk
            (λ t. Keeps dups s t × All (IsAccounted t) files)
            (report_loop env kind config files s)
    unfolding report_loop
    loop-IsAccounted [] s known leads = (Keeps-refl dups s, tt)
    loop-IsAccounted (file ∷ rest) s known leads =
        OnOk-then (IsRound s (kind.from_slice file.bytes) file)
          (λ t. Keeps dups s t × All (IsAccounted t) (file ∷ rest))
          (report_step env kind config file s) (report_loop env kind config rest)
          (step-IsRound file s known.0 leads)
          (λ t r.
            OnOk-map (λ u. Keeps dups t u × All (IsAccounted u) rest) _
              (λ u p. (
                Keeps-trans dups r.keeps p.0,
                (Keeps-AccountedAs file (kind.from_slice file.bytes) p.0 r.accounted, p.1),
              ))
              (report_loop env kind config rest t)
              (loop-IsAccounted rest t
                (All-map (λ f. IsKnown s.mails f.mail_id) (λ f. IsKnown t.mails f.mail_id)
                  (λ f k. r.keeps.known f.mail_id k) rest known.1)
                r.leads))

  -- What every change of a mail keeps, the loop keeps.
  pub loop-mails :
      (P : List (String × Mail) → Type 0)
      → ((id hash : String) (mails : List (String × Mail))
          → P mails
          → P (Map.modify id (kind.push_duplicate hash) mails))
      → ((id : String) (mails : List (String × Mail))
          → P mails
          → P (Map.modify id kind.count_error mails))
      → (files : List ReportFile) (s : ReportLoop W) → P s.mails
      → OnOk (λ t. P t.mails) (report_loop env kind config files s)
  unfolding report_loop report_step accept reject
  loop-mails P push count [] s h = h
  loop-mails P push count (file ∷ rest) s h =
      OnOk-then (λ t. P t.mails) (λ t. P t.mails) (report_step env kind config file s)
        (report_loop env kind config rest)
        (elim (Result-cases (kind.from_slice file.bytes)) [
          | inl (report, e) ↦
              rw (e, report_step)
                (elim (Bool-cases config.disable_duplicate_filter) [
                  | inl off ↦ rw (off, accept) h
                  | inr on ↦
                      elim (Option-cases (Map.get (kind.dupl_key report) s.duplication_map)) [
                        | inl a ↦ rw (on, a, accept) h
                        | inr (hash, a) ↦ rw (on, a, accept) (push file.mail_id hash s.mails h)
                      ]
                ])
          | inr (message, e) ↦
              rw (e, report_step)
                (OnOk->>= (λ t. P t.mails) (require (Map.get file.mail_id s.mails) _) _
                  (λ mail. count file.mail_id s.mails h))
        ])
        (λ t p. loop-mails P push count rest t p)
