-- ===== src/WebHook/Order.antt =====
-- src/web_hook.rs: the order of the details, where a value looks like a placeholder.
use text.Mathlib.TextLemmas.{append-nil}
use dmarc_report_viewer.Common.{◌≡◌, refl, String, [], ◌∷◌, false}
use dmarc_report_viewer.Common.Texts.{replace_after}
use dmarc_report_viewer.WebHook.{inject_mail_details}

-- The subject of a mail may be the text of a placeholder. In a body, where values are not encoded, the
-- result then depends on the order of the details: the sender is put in for the subject, or is not.
pub inject-order :
    (url_encode : String → String) (sender : String)
    → (inject_mail_details url_encode
          (("subject", "[sender]") ∷ ("sender", sender) ∷ [])
          "[subject]"
          false
        ≡ sender)
      × (inject_mail_details url_encode
            (("sender", sender) ∷ ("subject", "[sender]") ∷ [])
            "[subject]"
            false
          ≡ "[sender]")
unfolding inject_mail_details replace_after
inject-order url_encode sender = (append-nil sender, refl)
