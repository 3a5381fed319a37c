-- ===== src/Background/NewMails.antt =====
-- src/background.rs: which mails an update reports as new.
use mathlib.Core.Path.{subst}
use dmarc_report_viewer.Common.{
  ℕ, String, ◌≡◌, refl, ◌↔◌, List, [], ◌∷◌, true, false, not, inl, inr, ◌==◌, string_eq, Bool-cases,
  In, here, there, any, In-filter_decides, arith,
}
use dmarc_report_viewer.Common.Result.{Result, ok, OnOk, OnOk->>=, context}
use dmarc_report_viewer.Config.{Configuration}
use dmarc_report_viewer.Mail.{Mail}
use dmarc_report_viewer.State.{AppState}
use dmarc_report_viewer.Background.{
  keys, detect_new, replace_state, collect_mails, extract_all, parse_all, bg_update,
}
use dmarc_report_viewer.Reports.{BgEnv}

any_of_In : (id : String) (ids : List String) → In id ids → any (λ old. old == id) ids ≡ true
unfolding any
any_of_In id [] h = elim h [ ]
any_of_In id (x ∷ ids) (here e) = ground (arith, string_eq.equals_iff x id)
any_of_In id (x ∷ ids) (there h) = ground (arith, any_of_In id ids h)

In-of_any : (id : String) (ids : List String) → any (λ old. old == id) ids ≡ true → In id ids
unfolding any
In-of_any id [] h = cc
In-of_any id (x ∷ ids) h = elim (Bool-cases (x == id)) [
  | inl e ↦ here (ground (arith, string_eq.equals_iff x id))
  | inr e ↦ there (In-of_any id ids (ground arith))
]

not-any_iff :
    (ids : List String) (id : String) → (not (any (λ old. old == id) ids) ≡ true) ↔ (¬ In id ids)
not-any_iff ids id = elim (Bool-cases (any (λ old. old == id) ids)) [
  | inl e ↦ (λ h. ground arith, λ h. absurd (h (In-of_any id ids e)))
  | inr e ↦ (λ h i. ground (arith, any_of_In id ids i), λ h. ground arith)
]

-- What an update reports: none the first time, and later the mails that were not there before.
abbrev pub IsNew : {L : Type 0} → AppState L → AppState L → String → Type 0
IsNew state updated id =
    (state.first_update ≡ false) × In id (keys updated.mails) × (¬ In id (keys state.mails))

module _ {L : Type 0} where
  In-detect_new_iff :
      (state : AppState L) (mails : List (String × Mail)) (id : String)
      → In id (detect_new state mails)
        ↔ ((state.first_update ≡ false) × In id (keys mails) × (¬ In id (keys state.mails)))
  unfolding detect_new
  In-detect_new_iff state mails id = elim (Bool-cases state.first_update) [
    | inl e ↦ rw (e, detect_new) (λ h. elim h [ ], λ h. absurd (ground arith))
    | inr e ↦
        rw (e, detect_new)
          (
            λ h.
                let found =
                  (In-filter_decides (λ x. ¬ In x (keys state.mails)) _
                      (not-any_iff (keys state.mails)) id (keys mails)).0
                    h in
                (refl, found.0, found.1),
            λ h.
                (In-filter_decides (λ x. ¬ In x (keys state.mails)) _
                    (not-any_iff (keys state.mails)) id (keys mails)).1
                  (h.1, h.2),
          )
  ]

  -- A successful update reports exactly the mails that the new state has and the old one had not,
  -- and none at all if it was the first; the next one is not the first.
  pub bg_update-IsNew :
      (env : BgEnv) (config : Configuration) (time : Result ℕ) (elapsed : String)
      (state updated : AppState L) (new_mails : List String)
      → bg_update env config time elapsed state ≡ ok (updated, new_mails)
      → (updated.first_update ≡ false) × ((id : String) → In id new_mails ↔ IsNew state updated id)
  unfolding bg_update replace_state
  bg_update-IsNew env config time elapsed state updated new_mails h =
      subst
        (OnOk (λ r. (r.0.first_update ≡ false) × ((id : String) → In id r.1 ↔ IsNew state r.0 id)))
        h
        (OnOk->>= _ (collect_mails env config) _ (λ mails.
          OnOk->>= _ (parse_all env config (extract_all env config mails)) _ (λ u.
            OnOk->>= _ (context time _) _ (λ t. (refl, In-detect_new_iff state u.tls.mails)))))
