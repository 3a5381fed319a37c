-- ===== src/Background/Folders.antt =====
-- src/background.rs with src/imap.rs: the update on the mails that the IMAP client takes from the
-- folders.
use dmarc_report_viewer.Common.{ℕ, String, ◌≡◌, List, string_eq, All, All-map}
use dmarc_report_viewer.Common.Outcome.{Outcome, done, failed, panicked, OnDone}
use dmarc_report_viewer.Common.Result.{Result, ok, err, OnOk}
use dmarc_report_viewer.Config.{Configuration}
use dmarc_report_viewer.Mail.{Mail}
use dmarc_report_viewer.State.{AppState}
use dmarc_report_viewer.Imap.{ImapEnv, get_mails}
use dmarc_report_viewer.Imap.Fetched.{IsFetchedFrom, get_mails-IsFetchedFrom}
use dmarc_report_viewer.Reports.{BgEnv}
use dmarc_report_viewer.Background.{collect_mails, bg_update}
use dmarc_report_viewer.Background.Mails.{IsFetched}
use dmarc_report_viewer.Background.Linked.{IsLinked, bg_update-IsLinked}

-- A panic ends the update too, so it is no answer.
abbrev pub answer : Outcome (List (String × Mail)) → Result (List (String × Mail))
answer (done mails) = ok mails
answer (failed message) = err message
answer panicked = err "panic"

module _ (imap : ImapEnv) (env : BgEnv) (config : Configuration) where
  -- The folders answer with what `get_mails` takes from them.
  abbrev pub with_imap : BgEnv
  with_imap = record env { get_mails = λ folder. answer (get_mails imap config folder) }

  answer-IsFetched :
      (folder : String) (mails : Outcome (List (String × Mail)))
      → OnDone (All (IsFetchedFrom imap config folder)) mails
      → OnOk (All IsFetched) (answer mails)
  answer-IsFetched folder (done mails) h =
      All-map (IsFetchedFrom imap config folder) IsFetched
        (λ entry p. (p.own_id, p.no_xml_errors, p.no_json_errors)) mails h
  answer-IsFetched folder (failed message) h = tt
  answer-IsFetched folder panicked h = tt

  pub with_imap-IsFetched : (folder : String) → OnOk (All IsFetched) (with_imap.get_mails folder)
  with_imap-IsFetched folder =
      answer-IsFetched folder (get_mails imap config folder)
        (get_mails-IsFetchedFrom imap config folder)

  -- When the IMAP client gets the mails of every folder and the clock gives a time, the update
  -- succeeds, and the new state is linked: its reports and its errors belong to mails it has, and the
  -- errors of a mail are counted in it.
  pub bg_update-with_imap-IsLinked :
      {L : Type 0} (mails : List (String × Mail)) (timestamp : ℕ) (elapsed : String)
      (state : AppState L)
      → collect_mails with_imap config ≡ ok mails
      → (r : AppState L × List String) × (bg_update with_imap config (ok timestamp) elapsed state
          ≡ ok r)
        × IsLinked r.0
  bg_update-with_imap-IsLinked mails timestamp elapsed state collected =
      bg_update-IsLinked with_imap config mails timestamp elapsed state with_imap-IsFetched
        collected
