-- ===== src/Main/Shared.antt =====
-- src/main.rs: the states that the background task and the HTTP handlers share. The task replaces the
-- state in one critical section of an update, and sets the time of the next one in another; a handler
-- keeps a location in a third. These come in any order. All other handlers only read the state.
use dmarc_report_viewer.Common.{ℕ, String, ◌≡◌, List, Option}
use dmarc_report_viewer.Common.Ip.{IpAddr}
use dmarc_report_viewer.Common.Result.{Result, ok}
use dmarc_report_viewer.Config.{Configuration}
use dmarc_report_viewer.State.{AppState}
use dmarc_report_viewer.State
use dmarc_report_viewer.Imap.{ImapEnv}
use dmarc_report_viewer.Reports.{BgEnv}
use dmarc_report_viewer.Background.{bg_update}
use dmarc_report_viewer.Background.Folders.{with_imap}
use dmarc_report_viewer.Http.Ips.{locate}

module _ {L : Type 0} (config : Configuration) where
  -- One critical section that changes the state. The folders of an update are those of an IMAP server.
  pub data Step (state : AppState L) : AppState L → Type 0 where
    updated :
        (imap : ImapEnv) (env : BgEnv) (time : Result ℕ) (elapsed : String) (after : AppState L)
        (new_mails : List String)
        → bg_update (with_imap imap env config) config time elapsed state ≡ ok (after, new_mails)
        → Step state after
    scheduled : (next_update : ℕ) → Step state (record state { next_update = next_update })
    located : (ip : IpAddr) (answer : Result (Option L)) → Step state (locate ip answer state).1

  -- The states that the program comes to, in any order of the critical sections
  pub data Reachable : AppState L → Type 0 where
    started :
        (start_time : ℕ) {state : AppState L} → State.new start_time ≡ ok state → Reachable state
    next : {state after : AppState L} → Reachable state → Step state after → Reachable after
