-- ===== src/Background/Rounds.antt =====
-- src/background.rs: the mails that the web hook is called for, over all rounds of the task.
use mathlib.Core.Path.{subst}
use mathlib.Core.List.{append-nil}
use dmarc_report_viewer.Common.{
  ℕ, String, ◌≡◌, refl, sym, ap, ◌∙◌, List, [], ◌∷◌, inl, inr, In, Bool-cases, flat_map, is_none,
  not-In-nil, string_eq,
}
use dmarc_report_viewer.Common.NoTwice.{NoTwice, append-NoTwice, In-append}
use dmarc_report_viewer.Common.Result.{Result, ok, err, OnOk, Result-cases}
use dmarc_report_viewer.Config.{Configuration}
use dmarc_report_viewer.Mail.{Mail}
use dmarc_report_viewer.State.{AppState}
use dmarc_report_viewer.Reports.{BgEnv}
use dmarc_report_viewer.Background.{keys, collect_mails, bg_update, update_round}
use dmarc_report_viewer.Background.NewMails.{bg_update-IsNew}
use dmarc_report_viewer.Background.Again.{bg_update-keys}
use dmarc_report_viewer.Background.Task.{Round, round, start_bg_task}
use dmarc_report_viewer.Background.Once.{bg_update-NoTwice}

-- The mails that are known after what the folders answer with, before of which `old` were known
abbrev pub known_after : List String → Result (List (String × Mail)) → List String
known_after old (ok mails) = keys mails
known_after old (err e) = old

-- Whenever the folders answer, they answer with all mails they answered with before.
abbrev pub NoneVanish : Configuration → List String → List Round → Type 0
NoneVanish config old [] = Unit
NoneVanish config old (r ∷ rest) =
    ((id : String) → In id old → In id (known_after old (collect_mails r.env config)))
    × NoneVanish config (known_after old (collect_mails r.env config)) rest

abbrev Within : List String → List String → Type 0
Within xs ys = (id : String) → In id xs → In id ys

module _ {L : Type 0} (config : Configuration) where
  -- What a round does to the mails: none that is known gets lost, and the web hook is called for mails
  -- that were not known, once for each. `known` are those of the folders' answer.
  record IsRound (known : List String) (state : AppState L) (after : AppState L × List String)
      : Type 0 where
    bounded : Within (keys after.0.mails) known
    kept : Within (keys state.mails) (keys after.0.mails)
    called : Within after.1 (keys after.0.mails)
    fresh : (id : String) → In id after.1 → ¬ In id (keys state.mails)
    once : NoTwice after.1

  pub collect_of_update :
      (env : BgEnv) (time : Result ℕ) (elapsed : String) (state : AppState L)
      (after : AppState L × List String)
      → bg_update env config time elapsed state ≡ ok after
      → (mails : List (String × Mail)) × (collect_mails env config ≡ ok mails)
  unfolding bg_update
  collect_of_update env time elapsed state after h =
      elim (Result-cases (collect_mails env config)) [
        | inl (mails, c) ↦ (mails, c)
        | inr (e, c) ↦ let no : err e ≡ ok after = rw (c, bg_update) at h in cc
      ]

  -- A round that calls for no mail, because its update fails
  idle-IsRound :
      (known : List String) (state after : AppState L)
      → Within (keys state.mails) known
      → keys after.mails ≡ keys state.mails
      → IsRound known state (after, [])
  idle-IsRound known state after w e = record {
    bounded = λ id i. w id (subst (In id) e i);
    kept = λ id i. subst (In id) (sym e) i;
    called = λ id i. absurd (not-In-nil i);
    fresh = λ id i. absurd (not-In-nil i);
    once = tt;
  }

  update-IsRound :
      (env : BgEnv) (time : Result ℕ) (elapsed : String) (old : List String)
      (state updated : AppState L) (new_mails : List String)
      → Within (keys state.mails) old
      → Within old (known_after old (collect_mails env config))
      → bg_update env config time elapsed state ≡ ok (updated, new_mails)
      → IsRound (known_after old (collect_mails env config)) state (updated, new_mails)
  update-IsRound env time elapsed old state updated new_mails w v h =
      let (mails, c) = collect_of_update env time elapsed state (updated, new_mails) h in
      let known = ap (known_after old) c in
      let same : keys updated.mails ≡ keys mails =
        subst (OnOk (λ r. keys r.0.mails ≡ keys mails)) h
          (bg_update-keys env config mails time elapsed state c) in
      let new = (bg_update-IsNew env config time elapsed state updated new_mails h).1 in
      record {
        bounded = λ id i. subst (In id) (same ∙ sym known) i;
        kept = λ id i. subst (In id) (known ∙ sym same) (v id (w id i));
        called = λ id i. ((new id).0 i).1;
        fresh = λ id i. ((new id).0 i).2;
        once = subst (OnOk (λ r. NoTwice r.1)) h (bg_update-NoTwice env config time elapsed state);
      }

  round-IsRound :
      (r : Round) (old : List String) (state : AppState L)
      → Within (keys state.mails) old
      → Within old (known_after old (collect_mails r.env config))
      → IsRound (known_after old (collect_mails r.env config)) state (round config r state)
  unfolding round update_round
  round-IsRound r old state w v =
      elim (Result-cases (bg_update r.env config r.now r.elapsed state)) [
        | inr (e, u) ↦
            rw (u, round, update_round)
              (idle-IsRound (known_after old (collect_mails r.env config)) state _
                (λ id i. v id (w id i)) refl)
        | inl ((updated, new_mails), u) ↦
            let p = update-IsRound r.env r.now r.elapsed old state updated new_mails w v u in
            elim (Bool-cases (is_none config.mail_web_hook_url)) [
              | inl n ↦
                  rw (u, round, update_round, n)
                    (record {
                      bounded = p.bounded;
                      kept = p.kept;
                      called = λ id i. absurd (not-In-nil i);
                      fresh = λ id i. absurd (not-In-nil i);
                      once = tt;
                    })
              | inr n ↦
                  rw (u, round, update_round, n)
                    (record {
                      bounded = p.bounded;
                      kept = p.kept;
                      called = p.called;
                      fresh = p.fresh;
                      once = p.once;
                    })
            ]
      ]

  calls-fresh :
      (rounds : List Round) (old : List String) (state : AppState L)
      → Within (keys state.mails) old
      → NoneVanish config old rounds
      → NoTwice (flat_map (λ ids. ids) (start_bg_task config rounds state).1)
        × ((id : String)
            → In id (flat_map (λ ids. ids) (start_bg_task config rounds state).1)
            → ¬ In id (keys state.mails))
  unfolding start_bg_task
  calls-fresh [] old state w v = (tt, λ id i. absurd (not-In-nil i))
  calls-fresh (r ∷ rest) old state w v =
      let p = round-IsRound r old state w v.0 in
      let later =
        calls-fresh rest (known_after old (collect_mails r.env config)) (round config r state).0
          p.bounded v.1 in
      elim (Bool-cases r.stopped) [
        | inl e ↦ rw (e, start_bg_task) (rw (append-nil (round config r state).1) (p.once, p.fresh))
        | inr e ↦
            rw (e, start_bg_task)
              (
                append-NoTwice (round config r state).1 _ p.once later.0
                    (λ id i j. later.1 id j (p.called id i)),
                λ id i j.
                    In-append id (round config r state).1 _ i ⊥ (λ k. p.fresh id k j)
                      (λ k. later.1 id k (p.kept id j)),
              )
      ]

  -- As long as no mail vanishes from the folders between one answer and the next, the web hook is called
  -- at most once for each mail over all rounds of the task, whatever updates fail in between, and never
  -- for a mail that was known at the start.
  pub start_bg_task-NoTwice :
      (rounds : List Round) (state : AppState L)
      → NoneVanish config (keys state.mails) rounds
      → NoTwice (flat_map (λ ids. ids) (start_bg_task config rounds state).1)
        × ((id : String)
            → In id (flat_map (λ ids. ids) (start_bg_task config rounds state).1)
            → ¬ In id (keys state.mails))
  start_bg_task-NoTwice rounds state v = calls-fresh rounds (keys state.mails) state (λ id i. i) v
