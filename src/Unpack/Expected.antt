-- ===== src/Unpack/Expected.antt =====
-- src/unpack.rs: which files come out of a mail.
use dmarc_report_viewer.Common.{
  ℕ, String, ◌≡◌, ◌⊎◌, refl, ap, Option, none, some, List, [], ◌∷◌, true, ◌&&◌, ◌||◌, Bool-cases,
  Option-cases, if-cases, &&_left, is_none, inl, inr, All, All-append, All-map, arith, string_eq,
}
use dmarc_report_viewer.Common.Result.{
  Result, ok, ◌>>=◌, context, require, OnOk, OnOk->>=, OnOk-then,
}
use mathlib.Core.Path.{subst}
use dmarc_report_viewer.Config.{Configuration}
use dmarc_report_viewer.Hasher.{create_hash, to_le_bytes}
use dmarc_report_viewer.Mail.{Mail}
use dmarc_report_viewer.State.{FileType, file_type_eq}
use dmarc_report_viewer.Unpack.{
  UnpackEnv, ParsedMail, FileDataWithType, ReportFile, report_file, expected, expect_all, is_folder,
  expect_dmarc_report, expect_tls_report, zip_files, get_reports_from_zip, get_report_from_gz,
  raw_body, typed_part, part_files, parts_files, extract_report_files,
}
use dmarc_report_viewer.ContentType.{
  merge_name_parts, is_zip, is_gzip_xml, is_xml, is_gzip_json, is_json,
}

none_of {ℓ} : {A : Type ℓ} (o : Option A) → is_none o ≡ true → o ≡ none
none_of none h = refl
none_of (some x) h = absurd cc

folder_of :
    (folder : Option String) (name : String) → is_folder folder name ≡ true → folder ≡ some name
folder_of none name h = absurd cc
folder_of (some folder) name h = ap some ((string_eq.equals_iff folder name).0 h)

module _ (env : UnpackEnv) where
  -- A file of a type that the mail's folder is for, with the mail's ID and the hash of data and UID
  abbrev pub IsReportOf : Configuration → Mail → ReportFile → Type 0
  IsReportOf config mail f =
      (expected config mail f.file_type ≡ true) × (f ≡ report_file env mail f.file_type f.bytes)

  module _ (config : Configuration) (mail : Mail) where
    expected-xml :
        (bytes : List ℕ)
        → expect_dmarc_report config mail ≡ true
        → IsReportOf config mail (report_file env mail FileType.xml bytes)
    expected-xml bytes h = (ground arith, refl)

    expected-json :
        (bytes : List ℕ)
        → expect_tls_report config mail ≡ true
        → IsReportOf config mail (report_file env mail FileType.json bytes)
    expected-json bytes h = (ground arith, refl)

    zip_files-IsReportOf :
        (reports : List FileDataWithType)
        → All (IsReportOf config mail) (zip_files env config mail reports)
    unfolding zip_files
    zip_files-IsReportOf [] = tt
    zip_files-IsReportOf (r ∷ rest) = elim (Bool-cases (expected config mail r.file_type)) [
      | inl h ↦ rw (h, zip_files) ((h, refl), zip_files-IsReportOf rest)
      | inr h ↦ rw (h, zip_files) (zip_files-IsReportOf rest)
    ]

    abbrev Genuine : Result (List ReportFile) → Type 0
    Genuine r = OnOk (All (IsReportOf config mail)) r

    Genuine-one :
        (m : Result (List ℕ)) (t : FileType)
        → ((bytes : List ℕ) → IsReportOf config mail (report_file env mail t bytes))
        → Genuine (m >>= λ bytes. ok (report_file env mail t bytes ∷ []))
    Genuine-one m t h = OnOk->>= _ m _ (λ bytes. (h bytes, tt))

    typed_part-Genuine :
        (part : ParsedMail) (content_type : String)
        → Genuine (typed_part env config mail part content_type)
    unfolding typed_part
    typed_part-Genuine part ct =
        if-cases Genuine (is_zip ct)
          (λ _.
            OnOk->>= _ (raw_body env part) _ (λ body.
              OnOk->>= _ (context (get_reports_from_zip env body) _) _ zip_files-IsReportOf))
          (if-cases Genuine (expect_dmarc_report config mail && is_gzip_xml ct)
            (λ h. OnOk->>= _ (raw_body env part) _ (λ body.
              Genuine-one (context (get_report_from_gz env body) _) FileType.xml
                (λ bytes. expected-xml bytes (&&_left _ _ h))))
            (if-cases Genuine (expect_dmarc_report config mail && is_xml ct)
              (λ h.
                Genuine-one (raw_body env part) FileType.xml
                  (λ bytes. expected-xml bytes (&&_left _ _ h)))
              (if-cases Genuine (expect_tls_report config mail && is_gzip_json ct)
                (λ h. OnOk->>= _ (raw_body env part) _ (λ body.
                  Genuine-one (context (get_report_from_gz env body) _) FileType.json
                    (λ bytes. expected-json bytes (&&_left _ _ h))))
                (if-cases Genuine (expect_tls_report config mail && is_json ct)
                  (λ h.
                    Genuine-one (raw_body env part) FileType.json
                      (λ bytes. expected-json bytes (&&_left _ _ h)))
                  tt))))

    part_files-Genuine : (part : ParsedMail) → Genuine (part_files env config mail part)
    unfolding part_files
    part_files-Genuine part = elim (Option-cases part.content_type) [
      | inl h ↦ rw (h, part_files) tt
      | inr (ct, h) ↦ rw (h, part_files) (typed_part-Genuine part (merge_name_parts ct))
    ]

    parts_files-Genuine : (parts : List ParsedMail) → Genuine (parts_files env config mail parts)
    unfolding parts_files
    parts_files-Genuine [] = tt
    parts_files-Genuine (part ∷ rest) =
        OnOk-then _ _ (part_files env config mail part) _ (part_files-Genuine part) (λ files p.
          OnOk-then _ _ (parts_files env config mail rest) _ (parts_files-Genuine rest)
            (λ more q. All-append _ files more p q))

  -- Every file of the result is a file of the mail, by the definitions of the code.
  pub extracted-IsReportOf :
      (mail : Mail) (config : Configuration) (files : List ReportFile)
      → (extract_report_files env mail config).1 ≡ ok files
      → All (IsReportOf config mail) files
  unfolding extract_report_files
  extracted-IsReportOf mail config files h =
      let taken = record mail { body = Option.none } in
      All-map (IsReportOf config taken) (IsReportOf config mail) (λ f p. p) files
        (subst (Genuine config taken) h (
          OnOk->>= _ (require mail.body _) _ (λ body.
            OnOk->>= _ (context (env.parse_mail body) _) _ (parts_files-Genuine config taken))))

  -- A mail of a folder for one type of report: of that folder, or of any where none of the two is set
  abbrev pub IsForXml : Configuration → Mail → Type 0
  IsForXml config mail =
      ((config.imap_folder_dmarc ≡ none) × (config.imap_folder_tls ≡ none))
      ⊎ (config.imap_folder_dmarc ≡ some mail.folder)

  abbrev pub IsForJson : Configuration → Mail → Type 0
  IsForJson config mail =
      ((config.imap_folder_dmarc ≡ none) × (config.imap_folder_tls ≡ none))
      ⊎ (config.imap_folder_tls ≡ some mail.folder)

  abbrev pub IsFor : FileType → Configuration → Mail → Type 0
  IsFor FileType.xml config mail = IsForXml config mail
  IsFor FileType.json config mail = IsForJson config mail

  -- A file with the mail's ID, hashed from the data and the UID, and of a type that the folder is for
  pub record IsExpected (config : Configuration) (mail : Mail) (f : ReportFile) : Type 0 where
    pub mail_id : f.mail_id ≡ mail.id
    pub hash : f.hash ≡ create_hash env.hashes (f.bytes ∷ to_le_bytes mail.uid ∷ [])
    pub folder : IsFor f.file_type config mail

  allowed :
      (config : Configuration) (folder : Option String) (name : String)
      → (expect_all config || is_folder folder name) ≡ true
      → ((config.imap_folder_dmarc ≡ none) × (config.imap_folder_tls ≡ none)) ⊎ (folder ≡ some name)
  allowed config folder name h = elim (Bool-cases (expect_all config)) [
    | inl e ↦ inl (
      none_of config.imap_folder_dmarc (&&_left _ _ e),
      none_of config.imap_folder_tls (ground (arith, e)),
    )
    | inr e ↦ inr (folder_of folder name (rw e at h))
  ]

  expected-IsFor :
      (config : Configuration) (mail : Mail) (t : FileType)
      → expected config mail t ≡ true
      → IsFor t config mail
  expected-IsFor config mail FileType.xml h =
      allowed config config.imap_folder_dmarc mail.folder (ground (arith, h))
  expected-IsFor config mail FileType.json h =
      allowed config config.imap_folder_tls mail.folder (ground (arith, h))

  -- Every file that comes out of a mail carries the mail's ID and is hashed from its data and the
  -- mail's UID, not the mail's ID. An XML file comes out only of a mail of the DMARC folder and a JSON file
  -- only of a mail of the TLS folder, or of any mail when neither of the two folders is set.
  pub extracted-IsExpected :
      (mail : Mail) (config : Configuration) (files : List ReportFile)
      → (extract_report_files env mail config).1 ≡ ok files
      → All (IsExpected config mail) files
  extracted-IsExpected mail config files h =
      All-map (IsReportOf config mail) (IsExpected config mail)
        (λ f p. record {
          mail_id = ap (λ r. r.mail_id) p.1;
          hash = ap (λ r. r.hash) p.1;
          folder = expected-IsFor config mail f.file_type p.0;
        })
        files (extracted-IsReportOf mail config files h)
