-- ===== src/Http/DmarcReports/Flags.antt =====
-- src/http/dmarc_reports.rs: what the flags of a report mean.
use dmarc_report_viewer.Common.{
  ◌≡◌, ◌≢◌, ◌↔◌, ◌⊎◌, refl, Option, none, some, List, [], ◌∷◌, Bool, true, false, not, ◌||◌, ◌==◌,
  any, Any, any_decides, and_iff, or_iff, Eq, Bool-cases, if◌then◌else◌, ◌&&◌, ◌∙◌, arith, inl, inr,
}
use dmarc_report_viewer.Dmarc
use dmarc_report_viewer.Dmarc.{
  DmarcResultType, DkimResultType, SpfResultType, DkimAuthResultType, SpfAuthResultType,
  DmarcResultType-discrete, dmarc_result_eq, dkim_result_eq, spf_result_eq, RecordType,
}
use dmarc_report_viewer.Http.DmarcReports.{
  policy_fails, policy_passes, dkim_auth_fails, spf_auth_fails, flags_loop, flags,
}

-- The tests on one record, without the variables of the loop.
abbrev dkim_issue : RecordType → Bool
dkim_issue r = policy_fails r.row.policy_evaluated.dkim || dkim_auth_fails r.auth_results.dkim

abbrev spf_issue : RecordType → Bool
spf_issue r = policy_fails r.row.policy_evaluated.spf || spf_auth_fails r.auth_results.spf

abbrev dmarc_issue : RecordType → Bool
dmarc_issue r =
    not (policy_passes r.row.policy_evaluated.dkim)
    && not (policy_passes r.row.policy_evaluated.spf)

set_twice :
    (b p q x : Bool) → ((if q then true else (if p then true else b)) || x) ≡ (b || ((p || q) || x))
set_twice b p q x = ground arith

set_once : (b p x : Bool) → ((if p then true else b) || x) ≡ (b || (p || x))
set_once b p x = ground arith

or_false : (b : Bool) → b ≡ (b || false)
or_false b = ground arith

flags_loop-any :
    (rs : List RecordType) (dkim spf dmarc : Bool)
    → flags_loop dkim spf dmarc rs
      ≡ (dkim || any dkim_issue rs, spf || any spf_issue rs, dmarc || any dmarc_issue rs)
unfolding flags_loop any
flags_loop-any [] dkim spf dmarc = λ i. (or_false dkim i, or_false spf i, or_false dmarc i)
flags_loop-any (r ∷ rs) dkim spf dmarc = flags_loop-any rs _ _ _ ∙ λ i. (
  set_twice dkim (policy_fails r.row.policy_evaluated.dkim) (dkim_auth_fails r.auth_results.dkim)
      (any dkim_issue rs) i,
  set_twice spf (policy_fails r.row.policy_evaluated.spf) (spf_auth_fails r.auth_results.spf)
      (any spf_issue rs) i,
  set_once dmarc (dmarc_issue r) (any dmarc_issue rs) i,
)

flags-any :
    (report : Dmarc.Report)
    → flags report ≡ (
      any dkim_issue report.records,
      any spf_issue report.records,
      any dmarc_issue report.records,
    )
unfolding flags
flags-any report = flags_loop-any report.records false false false

-- A record has a DKIM issue if its policy evaluation failed, or a signature did not pass.
abbrev pub DkimIssue : RecordType → Type 0
DkimIssue r =
    (r.row.policy_evaluated.dkim ≡ some DmarcResultType.fail)
    ⊎ ((l : List DkimAuthResultType) × (r.auth_results.dkim ≡ some l)
        × Any (λ x. x.result ≢ DkimResultType.pass) l)

abbrev pub SpfIssue : RecordType → Type 0
SpfIssue r =
    (r.row.policy_evaluated.spf ≡ some DmarcResultType.fail)
    ⊎ Any (λ x. x.result ≢ SpfResultType.pass) r.auth_results.spf

-- DMARC failed if neither evaluation is there and passed.
abbrev pub DmarcIssue : RecordType → Type 0
DmarcIssue r =
    (r.row.policy_evaluated.dkim ≢ some DmarcResultType.pass)
    × (r.row.policy_evaluated.spf ≢ some DmarcResultType.pass)

policy_fails_iff :
    (o : Option DmarcResultType) → (policy_fails o ≡ true) ↔ (o ≡ some DmarcResultType.fail)
unfolding DmarcResultType-discrete
policy_fails_iff none = ground arith
policy_fails_iff (some DmarcResultType.pass) = ground arith
policy_fails_iff (some DmarcResultType.fail) = ground arith

policy_passes_iff :
    (o : Option DmarcResultType) → (not (policy_passes o) ≡ true) ↔ (o ≢ some DmarcResultType.pass)
unfolding DmarcResultType-discrete
policy_passes_iff none = ground arith
policy_passes_iff (some DmarcResultType.pass) = (λ h. cc, λ h. absurd (h refl))
policy_passes_iff (some DmarcResultType.fail) = ground arith

not-equals_iff {ℓ} : {A : Type ℓ} ⦃e : Eq A⦄ (a b : A) → (not (a == b) ≡ true) ↔ (a ≢ b)
not-equals_iff ⦃e⦄ a b = (
  λ h p. ground (arith, (e.equals_iff a b).1 p),
  λ n. elim (Bool-cases (a == b)) [ inl t ↦ absurd (n ((e.equals_iff a b).0 t)) | inr f ↦ rw f ],
)

dkim_auth_fails_iff :
    (o : Option (List DkimAuthResultType))
    → (dkim_auth_fails o ≡ true)
      ↔ ((l : List DkimAuthResultType) × (o ≡ some l) × Any (λ x. x.result ≢ DkimResultType.pass) l)
dkim_auth_fails_iff none = (λ h. cc, λ h. cc (h.1))
dkim_auth_fails_iff (some l) =
    (λ h. (l, refl, (signatures l).0 h), λ h. (signatures l).1 (rw (some_inj h.1) h.2))
  where
    signatures :
        (k : List DkimAuthResultType)
        → (any (λ x. not (x.result == DkimResultType.pass)) k ≡ true)
          ↔ Any (λ x. x.result ≢ DkimResultType.pass) k
    signatures = any_decides _ _ (λ x. not-equals_iff x.result DkimResultType.pass)

    some_inj : {k : List DkimAuthResultType} → some l ≡ some k → l ≡ k
    some_inj e = cc

spf_auth_fails_iff :
    (l : List SpfAuthResultType)
    → (spf_auth_fails l ≡ true) ↔ Any (λ x. x.result ≢ SpfResultType.pass) l
spf_auth_fails_iff = any_decides _ _ (λ x. not-equals_iff x.result SpfResultType.pass)

dkim_issue_iff : (r : RecordType) → (dkim_issue r ≡ true) ↔ DkimIssue r
dkim_issue_iff r =
    or_iff _ _ (policy_fails_iff r.row.policy_evaluated.dkim)
      (dkim_auth_fails_iff r.auth_results.dkim)

spf_issue_iff : (r : RecordType) → (spf_issue r ≡ true) ↔ SpfIssue r
spf_issue_iff r =
    or_iff _ _ (policy_fails_iff r.row.policy_evaluated.spf) (spf_auth_fails_iff r.auth_results.spf)

dmarc_issue_iff : (r : RecordType) → (dmarc_issue r ≡ true) ↔ DmarcIssue r
dmarc_issue_iff r =
    and_iff _ _ (policy_passes_iff r.row.policy_evaluated.dkim)
      (policy_passes_iff r.row.policy_evaluated.spf)

-- A report is flagged for DKIM exactly when one of its records has a DKIM issue, for SPF exactly
-- when one has an SPF issue, and for DMARC exactly when in one neither evaluation passed.
pub flags_iff :
    (report : Dmarc.Report)
    → (((flags report).0 ≡ true) ↔ Any DkimIssue report.records)
      × (((flags report).1 ≡ true) ↔ Any SpfIssue report.records)
      × (((flags report).2 ≡ true) ↔ Any DmarcIssue report.records)
flags_iff report = rw flags-any (
  any_decides DkimIssue dkim_issue dkim_issue_iff report.records,
  any_decides SpfIssue spf_issue spf_issue_iff report.records,
  any_decides DmarcIssue dmarc_issue dmarc_issue_iff report.records,
)
