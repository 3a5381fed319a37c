-- ===== src/Main/Always.antt =====
-- src/main.rs: what holds of the shared state at every point of the program.
use mathlib.Core.Path.{subst}
use dmarc_report_viewer.Common.{
  ℕ, ◌%◌, ◌≡◌, refl, sym, ◌∙◌, String, Option, none, some, List, [], length, u64_mod, string_eq,
}
use dmarc_report_viewer.Common.Ip.{IpAddr, ip_eq}
use dmarc_report_viewer.Common.Map
use dmarc_report_viewer.Common.Result.{Result, ok, err, OnOk, OnOk->>=, context}
use dmarc_report_viewer.Config.{Configuration}
use dmarc_report_viewer.CacheMap
use dmarc_report_viewer.CacheMap.Bounds.{IsValid, new-IsValid, insert-IsValid}
use dmarc_report_viewer.Mail.{Mail}
use dmarc_report_viewer.State.{AppState, ReportParsingError, cache_size}
use dmarc_report_viewer.State
use dmarc_report_viewer.Imap.{ImapEnv}
use dmarc_report_viewer.Reports.{BgEnv}
use dmarc_report_viewer.Background.{collect_mails, extract_all, parse_all, bg_update, replace_state}
use dmarc_report_viewer.Background.Linked.{IsLinked}
use dmarc_report_viewer.Background.Errors.{counted_errors}
use dmarc_report_viewer.Background.Rounds.{collect_of_update}
use dmarc_report_viewer.Background.Folders.{with_imap, bg_update-with_imap-IsLinked}
use dmarc_report_viewer.Http.{ok_json}
use dmarc_report_viewer.Http.Ips.{locate}
use dmarc_report_viewer.Http.Mails.{single_handler, errors_handler}
use dmarc_report_viewer.Http.Mails.Lookup.{known_mail}
use dmarc_report_viewer.Main.Shared.{updated, scheduled, located, Reachable, started, next}

ok-inj : {A : Type 0} {a b : A} → ok a ≡ ok b → a ≡ b
ok-inj h = cc

module _ {L : Type 0} where
  abbrev no_locations : CacheMap.CacheMap IpAddr L
  no_locations = record { map = []; max_size = cache_size; counter = 0 }

  started-IsLinked :
      (start_time : ℕ) {state : AppState L} → State.new start_time ≡ ok state → IsLinked state
  unfolding State.new Map.get
  started-IsLinked start_time {state} h = subst IsLinked (ok-inj h) (record {
    counts = λ id m e. cc;
    error_mails = λ id errors e. cc;
    dmarc_mails = λ hash w e. cc;
    tls_mails = λ hash w e. cc;
  })

  started-IsValid :
      (start_time : ℕ) {state : AppState L}
      → State.new start_time ≡ ok state
      → IsValid state.ip_location_cache
  unfolding State.new CacheMap.new
  started-IsValid start_time {state} h =
      subst (λ (s : AppState L). IsValid s.ip_location_cache) (ok-inj h)
        (new-IsValid cache_size {c = no_locations} refl)

  -- An update without the time fails.
  timeless :
      (env : BgEnv) (config : Configuration) (e elapsed : String) (state : AppState L)
      → OnOk (λ r. ⊥) (bg_update env config (err e) elapsed state)
  unfolding bg_update
  timeless env config e elapsed state =
      OnOk->>= (λ r. ⊥) (collect_mails env config) _
        (λ mails.
          OnOk->>= (λ r. ⊥) (parse_all env config (extract_all env config mails)) _ (λ u. tt))

  updated-IsLinked :
      (imap : ImapEnv) (env : BgEnv) (config : Configuration) (time : Result ℕ) (elapsed : String)
      (state : AppState L) (r : AppState L × List String)
      → bg_update (with_imap imap env config) config time elapsed state ≡ ok r
      → IsLinked r.0
  updated-IsLinked imap env config (err e) elapsed state r h =
      absurd (subst (OnOk (λ r. ⊥)) h (timeless (with_imap imap env config) config e elapsed state))
  updated-IsLinked imap env config (ok timestamp) elapsed state r h =
      let (mails, c) =
        collect_of_update config (with_imap imap env config) (ok timestamp) elapsed state r h in
      let (s, e, linked) =
        bg_update-with_imap-IsLinked imap env config mails timestamp elapsed state c in
      subst (λ (r : AppState L × List String). IsLinked r.0) (ok-inj (sym e ∙ h)) linked

  -- No update touches the locations.
  updated-cache :
      (env : BgEnv) (config : Configuration) (time : Result ℕ) (elapsed : String)
      (state : AppState L)
      → OnOk
          (λ r. r.0.ip_location_cache ≡ state.ip_location_cache)
          (bg_update env config time elapsed state)
  unfolding bg_update replace_state
  updated-cache env config time elapsed state =
      OnOk->>= (λ (r : AppState L × List String). r.0.ip_location_cache ≡ state.ip_location_cache)
        (collect_mails env config) _
        (λ mails.
          OnOk->>=
            (λ (r : AppState L × List String). r.0.ip_location_cache ≡ state.ip_location_cache)
            (parse_all env config (extract_all env config mails)) _
            (λ u.
              OnOk->>=
                (λ (r : AppState L × List String). r.0.ip_location_cache ≡ state.ip_location_cache)
                (context time _) _ (λ t. refl)))

  -- A location that is kept leaves the mails, the reports and the errors as they are.
  located-IsLinked :
      (ip : IpAddr) (answer : Result (Option L)) (state : AppState L)
      → IsLinked state
      → IsLinked (locate ip answer state).1
  unfolding locate
  located-IsLinked ip (err e) state h = h
  located-IsLinked ip (ok none) state h = h
  located-IsLinked ip (ok (some location)) state h = record {
    counts = h.counts;
    error_mails = h.error_mails;
    dmarc_mails = h.dmarc_mails;
    tls_mails = h.tls_mails;
  }

  located-IsValid :
      (ip : IpAddr) (answer : Result (Option L)) (state : AppState L)
      → IsValid state.ip_location_cache
      → IsValid (locate ip answer state).1.ip_location_cache
  unfolding locate
  located-IsValid ip (err e) state h = h
  located-IsValid ip (ok none) state h = h
  located-IsValid ip (ok (some location)) state h =
      insert-IsValid state.ip_location_cache ip location h

  Reachable-IsLinked :
      {config : Configuration} {state : AppState L} → Reachable config state → IsLinked state
  Reachable-IsLinked (started start_time h) = started-IsLinked start_time h
  Reachable-IsLinked {config} (next {state} before (updated imap env time elapsed after new h)) =
      updated-IsLinked imap env config time elapsed state (after, new) h
  Reachable-IsLinked (next before (scheduled next_update)) =
      let h = Reachable-IsLinked before in
      record {
        counts = h.counts;
        error_mails = h.error_mails;
        dmarc_mails = h.dmarc_mails;
        tls_mails = h.tls_mails;
      }
  Reachable-IsLinked (next {state} before (located ip answer)) =
      located-IsLinked ip answer state (Reachable-IsLinked before)

  Reachable-IsValid :
      {config : Configuration} {state : AppState L}
      → Reachable config state
      → IsValid state.ip_location_cache
  Reachable-IsValid (started start_time h) = started-IsValid start_time h
  Reachable-IsValid {config} (next {state} before (updated imap env time elapsed after new h)) =
      subst IsValid
        (sym (
          subst (OnOk (λ r. r.0.ip_location_cache ≡ state.ip_location_cache)) h
            (updated-cache (with_imap imap env config) config time elapsed state)))
        (Reachable-IsValid before)
  Reachable-IsValid (next before (scheduled next_update)) = Reachable-IsValid before
  Reachable-IsValid (next {state} before (located ip answer)) =
      located-IsValid ip answer state (Reachable-IsValid before)

  -- At every point of the program, whatever the IMAP server, the clock and the location service answer and in
  -- whatever order the critical sections come: every report and every kept error belongs to a mail that
  -- is there, the errors of a mail are counted in it, and the cache of locations keeps its bound. A
  -- mail that is there is answered as it is, and the answer of its errors lists as many errors as the
  -- mail counts, modulo the word size.
  pub Reachable-IsSound :
      (config : Configuration) (state : AppState L)
      → Reachable config state
      → IsLinked state
        × IsValid state.ip_location_cache
        × ((id : String) (m : Mail)
            → Map.get id state.mails ≡ some m
            → (single_handler state id ≡ ok_json m)
              × ((errors : List ReportParsingError) × (errors_handler state id ≡ ok_json errors)
                  × (length errors % u64_mod ≡ counted_errors m % u64_mod)))
  Reachable-IsSound config state h = (
    Reachable-IsLinked h,
    Reachable-IsValid h,
    λ id m found. known_mail state id m (Reachable-IsLinked h) found,
  )
