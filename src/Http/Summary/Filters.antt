-- ===== src/Http/Summary/Filters.antt =====
-- src/http/summary.rs: which reports the time span and the domain leave.
use mathlib.Core.Path.{subst}
use mathlib.Core.Option
use dmarc_report_viewer.Common.{
  ℕ, ◌≤◌, ◌-◌, ◌%◌, ◌≡◌, refl, sym, ap, ◌∙◌, ◌↔◌, String, Option, none, some, List, Bool, true, not,
  all, any, any_decides, and_iff, Any, ◌==◌, string_eq, ltb, [], ◌∷◌, is_none_or, Option-cases, inl,
  inr, arith, u64_mod,
}
use dmarc_report_viewer.Common.Int.{ℤ, pos, negsuc, ltb_ℤ, ◌≤ℤ◌}
use dmarc_report_viewer.Dmarc as D
use dmarc_report_viewer.Tls as T
use dmarc_report_viewer.Tls.{PolicyResult}
use dmarc_report_viewer.Http.{HttpEnv}
use dmarc_report_viewer.Http.Summary.{Chrono, dmarc_included, tls_included, as_u64, threshold_at}

-- The threshold of the DMARC reports is a number of 64 bits, to which a negative time wraps.
abbrev pub EndsLate : ℤ → ℕ → Type 0
EndsLate (pos n) end = n % u64_mod ≤ end
EndsLate (negsuc n) end = u64_mod - 1 - n % u64_mod ≤ end

late_iff : (z : ℤ) (end : ℕ) → (not (ltb end (as_u64 z)) ≡ true) ↔ EndsLate z end
unfolding as_u64
late_iff (pos n) end = (λ h. ground arith, λ h. ground arith)
late_iff (negsuc n) end = (λ h. ground arith, λ h. ground arith)

is_none_or-map :
    (f : ℤ → ℕ) (p : ℕ → Bool) (o : Option ℤ)
    → is_none_or (Option.map f o) p ≡ is_none_or o (λ z. p (f z))
is_none_or-map f p none = refl
is_none_or-map f p (some z) = refl

module _ (chrono : Chrono) where
  -- A time span, counted back from a point in time: no time span includes everything.
  abbrev pub InSpan : (ℤ → Type 0) → ℤ → Option ℤ → Type 0
  InSpan P now none = Unit
  InSpan P now (some hours) = (since : ℤ) × (chrono.hours_before now hours ≡ some since) × P since

  span_iff :
      (env : HttpEnv) (P : ℤ → Type 0) (p : ℤ → Bool) (now : ℤ) (span since : Option ℤ)
      → ((z : ℤ) → (p z ≡ true) ↔ P z)
      → threshold_at env chrono now span ≡ some since
      → (is_none_or since p ≡ true) ↔ InSpan P now span
  unfolding threshold_at
  span_iff env P p now none none d h = (λ _. tt, λ _. refl)
  span_iff env P p now none (some t) d h = absurd cc
  span_iff env P p now (some hours) since d h =
      elim (Option-cases (chrono.hours_before now hours)) [
        | inl e ↦ let no : none ≡ some since = ap (Option.map some) (sym e) ∙ h in absurd cc
        | inr (t, e) ↦
            let found : some since ≡ some (some t) = sym h ∙ ap (Option.map some) e in
            let same : some t ≡ since = cc in
            subst (λ s. (is_none_or s p ≡ true) ↔ InSpan P now (some hours)) same
              (
                λ q. (t, e, (d t).0 q),
                λ (x, other, q). let equal : x ≡ t = cc in (d t).1 (subst P equal q),
              )
      ]

not-all :
    (p : PolicyResult → Bool) (policies : List PolicyResult)
    → not (all (λ x. not (p x)) policies) ≡ any p policies
unfolding all any
not-all p [] = refl
not-all p (x ∷ rest) = ground (arith, not-all p rest)

module _ (env : HttpEnv) (chrono : Chrono) where
  -- A domain is the chosen one, in lower case, if one is chosen.
  abbrev pub IsChosen : Option String → String → Type 0
  IsChosen none domain = Unit
  IsChosen (some chosen) domain = env.to_lowercase domain ≡ env.to_lowercase chosen

  -- The reports that are counted
  abbrev pub DmarcCounts : ℤ → Option ℤ → Option String → D.Report → Type 0
  DmarcCounts now time_span domain r =
      InSpan chrono (λ since. EndsLate (chrono.timestamp since) r.report_metadata.date_range.end)
        now time_span
      × IsChosen domain r.policy_published.domain

  abbrev pub HasChosen : Option String → List PolicyResult → Type 0
  HasChosen none policies = Unit
  HasChosen (some chosen) policies =
      Any (λ p. env.to_lowercase p.policy.policy_domain ≡ env.to_lowercase chosen) policies

  abbrev pub TlsCounts : ℤ → Option ℤ → Option String → T.Report → Type 0
  TlsCounts now time_span domain r =
      InSpan chrono (λ since. since ≤ℤ r.date_range.end_datetime) now time_span
      × HasChosen domain r.policies

  IsChosen-iff :
      (domain : Option String) (d : String)
      → (is_none_or (Option.map env.to_lowercase domain) (λ df. env.to_lowercase d == df) ≡ true)
        ↔ IsChosen domain d
  IsChosen-iff none d = (λ h. tt, λ h. refl)
  IsChosen-iff (some chosen) d = string_eq.equals_iff (env.to_lowercase d) (env.to_lowercase chosen)

  HasChosen-iff :
      (domain : Option String) (policies : List PolicyResult)
      → (is_none_or
            (Option.map env.to_lowercase domain)
            (λ df. not (all (λ p. not (env.to_lowercase p.policy.policy_domain == df)) policies))
          ≡ true)
        ↔ HasChosen domain policies
  HasChosen-iff none policies = (λ h. tt, λ h. refl)
  HasChosen-iff (some chosen) policies =
      let df = env.to_lowercase chosen in
      rw (not-all (λ p. env.to_lowercase p.policy.policy_domain == df) policies) (
        any_decides _ _
          (λ (p : PolicyResult). string_eq.equals_iff (env.to_lowercase p.policy.policy_domain) df)
          policies)

  pub dmarc_included_iff :
      (now : ℤ) (time_span since : Option ℤ) (domain : Option String) (r : D.Report)
      → threshold_at env chrono now time_span ≡ some since
      → (dmarc_included env.to_lowercase
            (Option.map (λ t. as_u64 (chrono.timestamp t)) since)
            (Option.map env.to_lowercase domain)
            r
          ≡ true)
        ↔ DmarcCounts now time_span domain r
  unfolding dmarc_included
  dmarc_included_iff now time_span since domain r h =
      let end = r.report_metadata.date_range.end in
      and_iff _ _
        (rw (is_none_or-map (λ t. as_u64 (chrono.timestamp t)) (λ t. not (ltb end t)) since) (
          span_iff chrono env _ (λ t. not (ltb end (as_u64 (chrono.timestamp t)))) now time_span
            since (λ z. late_iff (chrono.timestamp z) end) h))
        (IsChosen-iff domain r.policy_published.domain)

  pub tls_included_iff :
      (now : ℤ) (time_span since : Option ℤ) (domain : Option String) (r : T.Report)
      → threshold_at env chrono now time_span ≡ some since
      → (tls_included env.to_lowercase since (Option.map env.to_lowercase domain) r ≡ true)
        ↔ TlsCounts now time_span domain r
  unfolding tls_included
  tls_included_iff now time_span since domain r h =
      let end = r.date_range.end_datetime in
      and_iff _ _
        (span_iff chrono env _ (λ t. not (ltb_ℤ end t)) now time_span since (λ z. ground arith) h)
        (HasChosen-iff domain r.policies)
