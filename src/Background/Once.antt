-- ===== src/Background/Once.antt =====
-- src/background.rs: an update reports no mail twice, since the mails come in a map.
use mathlib.Core.Path.{subst}
use dmarc_report_viewer.Common.{
  ℕ, String, ◌≡◌, sym, ◌∙◌, List, [], ◌∷◌, Option, none, some, if-cases, string_eq,
}
use dmarc_report_viewer.Common.BTree
use dmarc_report_viewer.Common.NoTwice.{NoTwice, filter-NoTwice, keys-NoTwice}
use dmarc_report_viewer.Common.Result.{Result, OnOk, OnOk->>=, OnOk-then, OnOk-map, context}
use dmarc_report_viewer.Config.{Configuration}
use dmarc_report_viewer.Mail.{Mail}
use dmarc_report_viewer.State.{AppState}
use dmarc_report_viewer.Reports.{BgEnv}
use dmarc_report_viewer.Background.{
  keys, folder_mails, collect_mails, detect_new, extract_all, parse_all, bg_update, default_folder,
}
use dmarc_report_viewer.Background.Mails.{extract_mails-keys}
use dmarc_report_viewer.Background.Again.{parse_all-keys}

module _ {ℓ} {V : Type ℓ} where
  extend-IsSorted :
      (m more : List (String × V)) → BTree.IsSorted m → BTree.IsSorted (BTree.extend m more)
  unfolding BTree.extend
  extend-IsSorted m [] h = h
  extend-IsSorted m ((k, v) ∷ more) h =
      extend-IsSorted (BTree.insert k v m) more (BTree.insert-IsSorted k v m h)

module _ (env : BgEnv) (config : Configuration) where
  folder_mails-IsSorted :
      (folder : Option String) (message : String) (mails : List (String × Mail))
      → BTree.IsSorted mails
      → OnOk BTree.IsSorted (folder_mails env config folder message mails)
  folder_mails-IsSorted none message mails h = h
  folder_mails-IsSorted (some folder) message mails h =
      OnOk->>= BTree.IsSorted (context (env.get_mails folder) message) _
        (λ found. extend-IsSorted mails found h)

  collect_mails-IsSorted : OnOk BTree.IsSorted (collect_mails env config)
  unfolding collect_mails
  collect_mails-IsSorted =
      OnOk-then BTree.IsSorted BTree.IsSorted
        (folder_mails env config config.imap_folder_dmarc _ []) _
        (folder_mails-IsSorted config.imap_folder_dmarc _ [] tt)
        (λ dmarc d.
          OnOk-then BTree.IsSorted BTree.IsSorted
            (folder_mails env config config.imap_folder_tls _ dmarc) _
            (folder_mails-IsSorted config.imap_folder_tls _ dmarc d)
            (λ tls t. folder_mails-IsSorted (default_folder env config) _ tls t))

  -- An update reports no mail twice.
  pub bg_update-NoTwice :
      {L : Type 0} (time : Result ℕ) (elapsed : String) (state : AppState L)
      → OnOk (λ r. NoTwice r.1) (bg_update env config time elapsed state)
  unfolding bg_update detect_new
  bg_update-NoTwice {L} time elapsed state =
      OnOk-then BTree.IsSorted (λ (r : AppState L × List String). NoTwice r.1)
        (collect_mails env config) _ collect_mails-IsSorted
        (λ mails sorted.
          let distinct = keys-NoTwice mails (BTree.IsSorted-IsDistinct mails sorted) in
          OnOk-then (λ u. keys u.tls.mails ≡ keys mails)
            (λ (r : AppState L × List String). NoTwice r.1)
            (parse_all env config (extract_all env config mails)) _
            (OnOk-map (λ u. keys u.tls.mails ≡ keys (extract_all env config mails).1)
              (λ u. keys u.tls.mails ≡ keys mails)
              (λ u p. p ∙ extract_mails-keys env config mails _)
              (parse_all env config (extract_all env config mails))
              (parse_all-keys env config (extract_all env config mails)))
            (λ u p.
              OnOk->>= (λ (r : AppState L × List String). NoTwice r.1) (context time _) _
                (λ t.
                  if-cases NoTwice state.first_update (λ e. tt)
                    (filter-NoTwice _ (keys u.tls.mails) (subst NoTwice (sym p) distinct)))))
