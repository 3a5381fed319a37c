-- ===== src/Background/Task.antt =====
-- src/background.rs: the background task, an update after the other until it is told to stop. Logging is
-- left out, as are times after the range of dates. A call of the web hook changes no state, and its
-- error is only logged, so the model lists the mails it is called for.
use dmarc_report_viewer.Common.{
  ℕ, ◌+◌, ◌*◌, ◌-◌, ◌/◌, String, Option, none, some, List, [], ◌∷◌, Bool, true, false,
}
use dmarc_report_viewer.Common.Int.{ℤ, pos_part, neg_part}
use dmarc_report_viewer.Common.Result.{Result}
use dmarc_report_viewer.Config.{Configuration}
use dmarc_report_viewer.State.{AppState}
use dmarc_report_viewer.Background.{update_round}
use dmarc_report_viewer.Reports.{BgEnv}

-- What one round of the loop meets: the folders and readers, the clock and the time that the update
-- took, the milliseconds to the next scheduled check (if there is a schedule, and if it has a next
-- check), the local time in milliseconds, and whether the stop signal ends the sleep.
pub record Round : Type 0 where
  pub env : BgEnv
  pub now : Result ℕ
  pub elapsed : String
  pub upcoming : Option (Option ℤ)
  pub local : ℤ
  pub stopped : Bool

-- The time to sleep, in milliseconds
unfoldable pub sleep_time : ℕ → Option (Option ℤ) → ℕ
sleep_time interval none = interval * 1000
sleep_time interval (some none) = interval * 1000
sleep_time interval (some (some delta)) = pos_part delta

-- `next.timestamp().max(0)`: the whole seconds of a time, none before 1970
unfoldable pub next_update : ℤ → ℕ → ℕ
next_update local duration = (pos_part local + duration - neg_part local) / 1000

module _ {L : Type 0} (config : Configuration) where
  -- The state after a round, and the mails that the web hook is called for
  unfoldable pub round : Round → AppState L → AppState L × List String
  unfolding update_round sleep_time next_update
  round r state =
      let (updated, calls) = update_round r.env config r.now r.elapsed state in
      (
        record updated {
          next_update = next_update r.local (sleep_time config.imap_check_interval r.upcoming);
        },
        calls,
      )

  -- The loop over what its rounds meet, with the calls of each round
  unfoldable pub start_bg_task : List Round → AppState L → AppState L × List (List String)
  unfolding round
  start_bg_task [] state = (state, [])
  start_bg_task (r ∷ rest) state = elim r.stopped [
    | true ↦ ((round r state).0, (round r state).1 ∷ [])
    | false ↦
        let more = start_bg_task rest (round r state).0 in (more.0, (round r state).1 ∷ more.1)
  ]
