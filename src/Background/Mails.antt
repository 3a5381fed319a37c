-- ===== src/Background/Mails.antt =====
-- src/background.rs: the mails of an update, and the report files that come out of them.
use dmarc_report_viewer.Common.{
  String, ◌≡◌, refl, sym, ◌∙◌, ap, Option, none, some, List, [], ◌∷◌, false, Bool-cases, inl, inr,
  is_none, string_eq, All, All-map,
}
use mathlib.Core.Path.{subst}
use dmarc_report_viewer.Common.Result.{OnOk, OnOk-then, Result-cases, context, context-OnOk}
use dmarc_report_viewer.Common.Map
use dmarc_report_viewer.Common.BTree
use dmarc_report_viewer.Config.{Configuration}
use dmarc_report_viewer.Mail.{Mail}
use dmarc_report_viewer.State.{FileType}
use dmarc_report_viewer.Unpack.{ReportFile, extract_report_files}
use dmarc_report_viewer.Unpack.Expected.{IsReportOf, extracted-IsReportOf}
use dmarc_report_viewer.Background.{
  FileMaps, store_typed, store_files, extract_mail, extract_mails, folder_mails, collect_mails,
  default_folder, keys,
}
use dmarc_report_viewer.Reports.{BgEnv}

-- A mail as it is fetched: under its own ID, with no error counted.
abbrev pub IsFetched : String × Mail → Type 0
IsFetched (id, mail) =
    (mail.id ≡ id) × (mail.xml_parsing_errors ≡ 0) × (mail.json_parsing_errors ≡ 0)

-- Every file comes from a mail whose ID meets `P`.
abbrev pub FilesMeet : (String → Type 0) → FileMaps → Type 0
FilesMeet P files =
    All (λ e. P e.1.mail_id) files.xml_files × All (λ e. P e.1.mail_id) files.json_files

-- `id` is a key of the mails.
abbrev pub IsKnown : List (String × Mail) → String → Type 0
IsKnown mails id = is_none (Map.get id mails) ≡ false

module _ (env : BgEnv) (config : Configuration) where
  module _ (P : String → Type 0) where
    store_typed-FilesMeet :
        (t : FileType) (file : ReportFile) (files : FileMaps) (mail : Mail)
        → P file.mail_id
        → FilesMeet P files
        → FilesMeet P (store_typed env config t file files mail).0
    unfolding store_typed
    store_typed-FilesMeet FileType.xml file files mail p h =
        (BTree.insert-All _ file.hash file files.xml_files p h.0, h.1)
    store_typed-FilesMeet FileType.json file files mail p h =
        (h.0, BTree.insert-All _ file.hash file files.json_files p h.1)

    store_files-FilesMeet :
        (found : List ReportFile) (s : FileMaps × Mail)
        → All (λ f. P f.mail_id) found
        → FilesMeet P s.0
        → FilesMeet P (store_files env config found s).0
    unfolding store_files
    store_files-FilesMeet [] s p h = h
    store_files-FilesMeet (f ∷ found) (files, mail) p h =
        store_files-FilesMeet found (store_typed env config f.file_type f files mail) p.1
          (store_typed-FilesMeet f.file_type f files mail p.0 h)

    extract_mail-FilesMeet :
        (files : FileMaps) (mail : Mail)
        → P mail.id
        → FilesMeet P files
        → FilesMeet P (extract_mail env config files mail).0
    unfolding extract_mail
    extract_mail-FilesMeet files mail p h = elim (Bool-cases (is_none mail.body)) [
      | inl e ↦ rw (e, extract_mail) h
      | inr e ↦ elim (Result-cases (extract_report_files env.unpack mail config).1) [
        | inl (found, r) ↦
            rw (e, r, extract_mail)
              (store_files-FilesMeet found _
                (All-map (IsReportOf env.unpack config mail) _
                  (λ f q. subst P (sym (ap (λ x. x.mail_id) q.1)) p) found
                  (extracted-IsReportOf env.unpack mail config found r))
                h)
        | inr (message, r) ↦ rw (e, r, extract_mail) h
      ]
    ]

    pub extract_mails-FilesMeet :
        (mails : List (String × Mail)) (files : FileMaps)
        → All (λ e. P e.1.id) mails
        → FilesMeet P files
        → FilesMeet P (extract_mails env config mails files).0
    unfolding extract_mails
    extract_mails-FilesMeet [] files p h = h
    extract_mails-FilesMeet ((id, mail) ∷ rest) files p h =
        extract_mails-FilesMeet rest (extract_mail env config files mail).0 p.1
          (extract_mail-FilesMeet files mail p.0 h)

  -- Neither the ID of a mail nor its error counters change while its files are extracted.
  abbrev SameMail : Mail → Mail → Type 0
  SameMail m n =
      (n.id ≡ m.id)
      × (n.xml_parsing_errors ≡ m.xml_parsing_errors)
      × (n.json_parsing_errors ≡ m.json_parsing_errors)

  store_typed-SameMail :
      (t : FileType) (file : ReportFile) (files : FileMaps) (mail : Mail)
      → SameMail mail (store_typed env config t file files mail).1
  unfolding store_typed
  store_typed-SameMail FileType.xml file files mail = (refl, refl, refl)
  store_typed-SameMail FileType.json file files mail = (refl, refl, refl)

  store_files-SameMail :
      (found : List ReportFile) (s : FileMaps × Mail)
      → SameMail s.1 (store_files env config found s).1
  unfolding store_files
  store_files-SameMail [] s = (refl, refl, refl)
  store_files-SameMail (f ∷ found) (files, mail) =
      let first = store_typed-SameMail f.file_type f files mail in
      let others = store_files-SameMail found (store_typed env config f.file_type f files mail) in
      (others.0 ∙ first.0, others.1 ∙ first.1, others.2 ∙ first.2)

  extract_mail-SameMail :
      (files : FileMaps) (mail : Mail) → SameMail mail (extract_mail env config files mail).1
  unfolding extract_mail extract_report_files
  extract_mail-SameMail files mail = elim (Bool-cases (is_none mail.body)) [
    | inl e ↦ rw (e, extract_mail) (refl, refl, refl)
    | inr e ↦ elim (Result-cases (extract_report_files env.unpack mail config).1) [
      | inl (found, r) ↦ rw (e, r, extract_mail) (store_files-SameMail found _)
      | inr (message, r) ↦ rw (e, r, extract_mail) (refl, refl, refl)
    ]
  ]

  pub extract_mails-IsFetched :
      (mails : List (String × Mail)) (files : FileMaps)
      → All IsFetched mails
      → All IsFetched (extract_mails env config mails files).1
  unfolding extract_mails
  extract_mails-IsFetched [] files h = tt
  extract_mails-IsFetched ((id, mail) ∷ rest) files h =
      let same = extract_mail-SameMail files mail in
      (
        (same.0 ∙ h.0.0, same.1 ∙ h.0.1, same.2 ∙ h.0.2),
        extract_mails-IsFetched rest (extract_mail env config files mail).0 h.1,
      )

  -- The keys of the mails stay the same.
  pub extract_mails-keys :
      (mails : List (String × Mail)) (files : FileMaps)
      → keys (extract_mails env config mails files).1 ≡ keys mails
  unfolding extract_mails
  extract_mails-keys [] files = refl
  extract_mails-keys ((id, mail) ∷ rest) files =
      ap (λ m. id ∷ m) (extract_mails-keys rest (extract_mail env config files mail).0)

  folder_mails-IsFetched :
      ((folder : String) → OnOk (All IsFetched) (env.get_mails folder))
      → (folder : Option String) (message : String) (mails : List (String × Mail))
      → All IsFetched mails
      → OnOk (All IsFetched) (folder_mails env config folder message mails)
  folder_mails-IsFetched fetched none message mails h = h
  folder_mails-IsFetched fetched (some folder) message mails h =
      OnOk-then (All IsFetched) (All IsFetched) (context (env.get_mails folder) message) _
        (context-OnOk (All IsFetched) (env.get_mails folder) message (fetched folder))
        (λ found q. BTree.extend-All IsFetched mails found h q)

  pub collect_mails-IsFetched :
      ((folder : String) → OnOk (All IsFetched) (env.get_mails folder))
      → OnOk (All IsFetched) (collect_mails env config)
  unfolding collect_mails
  collect_mails-IsFetched fetched =
      OnOk-then (All IsFetched) (All IsFetched)
        (folder_mails env config config.imap_folder_dmarc _ []) _
        (folder_mails-IsFetched fetched config.imap_folder_dmarc _ [] tt)
        (λ dmarc p.
          OnOk-then (All IsFetched) (All IsFetched)
            (folder_mails env config config.imap_folder_tls _ dmarc) _
            (folder_mails-IsFetched fetched config.imap_folder_tls _ dmarc p)
            (λ tls q. folder_mails-IsFetched fetched (default_folder env config) _ tls q))
