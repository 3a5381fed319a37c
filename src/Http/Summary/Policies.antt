-- ===== src/Http/Summary/Policies.antt =====
-- src/http/summary.rs: what one TLS policy adds to each map.
use mathlib.Core.List.{foldl}
use dmarc_report_viewer.Common.{
  ℕ, ◌≡◌, refl, sym, Option, none, some, List, [], ◌∷◌, map, or_empty, string_eq,
}
use dmarc_report_viewer.Common.Tally.{add, tally, tally-nil}
use dmarc_report_viewer.Tls.{
  PolicyType, TlsResultType, FailureResultType, PolicyResult, FailureDetails, policy_type_eq,
  tls_result_eq, failure_result_eq,
}
use dmarc_report_viewer.Http.Summary.{TlsSummary, add_failures, add_sessions, tls_sessions}

-- What a policy counts: its sessions by result, and its failures by type, with the sessions.
abbrev pub session_events : PolicyResult → List (TlsResultType × ℕ)
session_events p =
    (TlsResultType.successful, p.summary.total_successful_session_count)
    ∷ (TlsResultType.failure, p.summary.total_failure_session_count)
    ∷ []

abbrev pub failure_events : PolicyResult → List (FailureResultType × ℕ)
failure_events p = map (λ f. (f.result_type, f.failed_session_count)) (or_empty p.failure_details)

-- The events of a policy of type MTA-STS, and of one of type TLSA
abbrev pub if_sts {ℓ} : {A : Type ℓ} → PolicyType → List A → List A
if_sts PolicyType.sts events = events
if_sts PolicyType.tlsa events = []
if_sts PolicyType.no_policy_found events = []

abbrev pub if_tlsa {ℓ} : {A : Type ℓ} → PolicyType → List A → List A
if_tlsa PolicyType.sts events = []
if_tlsa PolicyType.tlsa events = events
if_tlsa PolicyType.no_policy_found events = []

add_sessions-tally :
    (p : PolicyResult) (m : List (TlsResultType × ℕ))
    → add_sessions p m ≡ tally (session_events p) m
unfolding tally
add_sessions-tally p m = refl

foldl-tally :
    (details : List FailureDetails) (m : List (FailureResultType × ℕ))
    → foldl (λ counters f. add f.result_type f.failed_session_count counters) m details
      ≡ tally (map (λ f. (f.result_type, f.failed_session_count)) details) m
unfolding tally
foldl-tally [] m = refl
foldl-tally (f ∷ details) m = foldl-tally details (add f.result_type f.failed_session_count m)

add_failures-tally :
    (o : Option (List FailureDetails)) (m : List (FailureResultType × ℕ))
    → add_failures o m ≡ tally (map (λ f. (f.result_type, f.failed_session_count)) (or_empty o)) m
add_failures-tally none m = sym (tally-nil m)
add_failures-tally (some details) m = foldl-tally details m

-- The four maps that depend on the type of a policy
pub sts_policy-sessions :
    (t : PolicyType) (p : PolicyResult) (s : TlsSummary)
    → (tls_sessions t p s).sts_policy_results
      ≡ tally (if_sts t (session_events p)) s.sts_policy_results
unfolding tls_sessions
sts_policy-sessions PolicyType.sts p s = add_sessions-tally p s.sts_policy_results
sts_policy-sessions PolicyType.tlsa p s = sym (tally-nil s.sts_policy_results)
sts_policy-sessions PolicyType.no_policy_found p s = sym (tally-nil s.sts_policy_results)

pub tlsa_policy-sessions :
    (t : PolicyType) (p : PolicyResult) (s : TlsSummary)
    → (tls_sessions t p s).tlsa_policy_results
      ≡ tally (if_tlsa t (session_events p)) s.tlsa_policy_results
unfolding tls_sessions
tlsa_policy-sessions PolicyType.sts p s = sym (tally-nil s.tlsa_policy_results)
tlsa_policy-sessions PolicyType.tlsa p s = add_sessions-tally p s.tlsa_policy_results
tlsa_policy-sessions PolicyType.no_policy_found p s = sym (tally-nil s.tlsa_policy_results)

pub sts_failures-sessions :
    (t : PolicyType) (p : PolicyResult) (s : TlsSummary)
    → (tls_sessions t p s).sts_failure_types
      ≡ tally (if_sts t (failure_events p)) s.sts_failure_types
unfolding tls_sessions
sts_failures-sessions PolicyType.sts p s = add_failures-tally p.failure_details s.sts_failure_types
sts_failures-sessions PolicyType.tlsa p s = sym (tally-nil s.sts_failure_types)
sts_failures-sessions PolicyType.no_policy_found p s = sym (tally-nil s.sts_failure_types)

pub tlsa_failures-sessions :
    (t : PolicyType) (p : PolicyResult) (s : TlsSummary)
    → (tls_sessions t p s).tlsa_failure_types
      ≡ tally (if_tlsa t (failure_events p)) s.tlsa_failure_types
unfolding tls_sessions
tlsa_failures-sessions PolicyType.sts p s = sym (tally-nil s.tlsa_failure_types)
tlsa_failures-sessions PolicyType.tlsa p s =
    add_failures-tally p.failure_details s.tlsa_failure_types
tlsa_failures-sessions PolicyType.no_policy_found p s = sym (tally-nil s.tlsa_failure_types)

-- The type of a policy changes none of the other maps.
pub others-sessions :
    (t : PolicyType) (p : PolicyResult) (s : TlsSummary)
    → ((tls_sessions t p s).orgs ≡ s.orgs)
      × ((tls_sessions t p s).domains ≡ s.domains)
      × ((tls_sessions t p s).policy_types ≡ s.policy_types)
unfolding tls_sessions
others-sessions PolicyType.sts p s = (refl, refl, refl)
others-sessions PolicyType.tlsa p s = (refl, refl, refl)
others-sessions PolicyType.no_policy_found p s = (refl, refl, refl)
