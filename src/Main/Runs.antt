-- ===== src/Main/Runs.antt =====
-- src/main.rs: the background task over the shared state.
use dmarc_report_viewer.Common.{List, [], ◌∷◌, map, inl, inr, Bool-cases}
use dmarc_report_viewer.Common.Ip.{ip_eq}
use dmarc_report_viewer.Common.Result.{Result-cases}
use dmarc_report_viewer.Config.{Configuration}
use dmarc_report_viewer.State.{AppState}
use dmarc_report_viewer.Imap.{ImapEnv}
use dmarc_report_viewer.Background.{bg_update, update_round}
use dmarc_report_viewer.Background.Folders.{with_imap}
use dmarc_report_viewer.Background.Task.{Round, round, start_bg_task}
use dmarc_report_viewer.Main.Shared.{updated, scheduled, Reachable, next}

-- A round with the folders of an IMAP server
abbrev pub over_imap : Configuration → ImapEnv × Round → Round
over_imap config (imap, r) = record r { env = with_imap imap r.env config }

module _ {L : Type 0} (config : Configuration) where
  round-Reachable :
      (r : ImapEnv × Round) (state : AppState L)
      → Reachable config state
      → Reachable config (round config (over_imap config r) state).0
  unfolding round update_round
  round-Reachable (imap, r) state h =
      elim (Result-cases (bg_update (with_imap imap r.env config) config r.now r.elapsed state)) [
        | inl ((after, new_mails), u) ↦
            rw (u, round, update_round)
              (next (next h (updated imap r.env r.now r.elapsed after new_mails u)) (scheduled _))
        | inr (e, u) ↦ rw (u, round, update_round) (next h (scheduled _))
      ]

  pub task-Reachable :
      (rounds : List (ImapEnv × Round)) (state : AppState L)
      → Reachable config state
      → Reachable config (start_bg_task config (map (over_imap config) rounds) state).0
  unfolding start_bg_task
  task-Reachable [] state h = h
  task-Reachable (r ∷ rest) state h = elim (Bool-cases r.1.stopped) [
    | inl e ↦ rw (e, start_bg_task) (round-Reachable r state h)
    | inr e ↦
        rw (e, start_bg_task)
          (task-Reachable rest (round config (over_imap config r) state).0
            (round-Reachable r state h))
  ]
