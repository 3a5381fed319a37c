-- ===== src/Samples/Updates.antt =====
-- The update at three mails: the second has the report of the first, the third no report.
use dmarc_report_viewer.Common.{
  ℕ, ◌≡◌, refl, sym, ap, ◌∙◌, In, String, List, [], ◌∷◌, filter, any, string_eq, All, ◌↔◌, false,
}
use dmarc_report_viewer.Common.BTree as BTree
use dmarc_report_viewer.Common.Map as Map
use dmarc_report_viewer.Common.Result.{Result, ok, err, OnOk}
use dmarc_report_viewer.Common.Text.{trim, decimal}
use dmarc_report_viewer.Common.Texts.{split_rounds, concat, join}
use dmarc_report_viewer.Hasher.{create_hash}
use dmarc_report_viewer.State.{AppState, FileType}
use dmarc_report_viewer.Unpack.{report_file, extract_report_files}
use dmarc_report_viewer.Unpack.Expected.{IsExpected, extracted-IsExpected}
use dmarc_report_viewer.Background.{bg_update, collect_mails}
use dmarc_report_viewer.Background.Mails.{IsFetched}
use dmarc_report_viewer.Background.Linked.{IsLinked, bg_update-IsLinked}
use dmarc_report_viewer.Background.Duplicates.{AreUnique, dmarc_key, tls_key, bg_update-AreUnique}
use dmarc_report_viewer.Background.NewMails.{IsNew, bg_update-IsNew}
use dmarc_report_viewer.Samples.{bg_env, config, mails, mail, state, unpack_env}

collected : collect_mails bg_env config ≡ ok mails
unfolding collect_mails BTree.extend BTree.insert
collected = refl

fetched : (folder : String) → OnOk (All IsFetched) (bg_env.get_mails folder)
fetched folder = ((refl, refl, refl), ((refl, refl, refl), ((refl, refl, refl), tt)))

extracted :
    (extract_report_files unpack_env (mail "a" 1 60) config).1
    ≡ ok (report_file unpack_env (mail "a" 1 60) FileType.xml (60 ∷ []) ∷ [])
unfolding extract_report_files split_rounds trim concat decimal
extracted = refl

bg_update-IsLinked_example :
    (r : AppState ℕ × List String) × (bg_update bg_env config (ok 1000) "1.5" state ≡ ok r)
    × IsLinked r.0
bg_update-IsLinked_example =
    bg_update-IsLinked bg_env config mails 1000 "1.5" state fetched collected

-- What an update brings, if it succeeds
abbrev or_old : Result (AppState ℕ × List String) → AppState ℕ × List String
or_old (ok r) = r
or_old (err e) = (state, [])

abbrev after : AppState ℕ × List String
after = or_old (bg_update bg_env config (ok 1000) "1.5" state)

succeeds :
    (x : Result (AppState ℕ × List String))
    → ((r : AppState ℕ × List String) × (x ≡ ok r) × IsLinked r.0)
    → x ≡ ok ((or_old x).0, (or_old x).1)
succeeds x (r, e, linked) = e ∙ sym (ap (λ y. ok (or_old y)) e)

updates : bg_update bg_env config (ok 1000) "1.5" state ≡ ok (after.0, after.1)
updates = succeeds _ (bg_update-IsLinked bg_env config mails 1000 "1.5" state fetched collected)

bg_update-AreUnique_example :
    AreUnique dmarc_key after.0.dmarc_reports × AreUnique tls_key after.0.tls_reports
bg_update-AreUnique_example =
    bg_update-AreUnique bg_env config refl (ok 1000) "1.5" state after.0 after.1 updates

bg_update-IsNew_example :
    (after.0.first_update ≡ false) × ((id : String) → In id after.1 ↔ IsNew state after.0 id)
bg_update-IsNew_example =
    bg_update-IsNew bg_env config (ok 1000) "1.5" state after.0 after.1 updates

-- The second mail and the third are new, the second report is dropped, the third file is an error.
new_mails : after.1 ≡ "b" ∷ "c" ∷ []
unfolding bg_update collect_mails BTree.extend BTree.insert extract_report_files split_rounds trim
    concat decimal create_hash join Map.get Map.insert Map.modify filter any
new_mails = refl

extracted-IsExpected_example :
    All
      (IsExpected unpack_env config (mail "a" 1 60))
      (report_file unpack_env (mail "a" 1 60) FileType.xml (60 ∷ []) ∷ [])
extracted-IsExpected_example =
    extracted-IsExpected unpack_env (mail "a" 1 60) config
      (report_file unpack_env (mail "a" 1 60) FileType.xml (60 ∷ []) ∷ []) extracted
