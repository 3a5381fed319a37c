-- ===== src/Http/Sources/Order.antt =====
-- src/http/sources.rs: the order of the answer.
use dmarc_report_viewer.Common.{
  String, Option-cases, or_empty, ℕ, ◌≤◌, ◌≡◌, refl, inl, inr, List, [], ◌∷◌, map, Bool-cases, ltb,
  ltb_iff, arith, All, All-map, if-cases,
}
use mathlib.Core.List.{Perm}
use mathlib.Core.List.Perm as Perm
use dmarc_report_viewer.Common.Ip.{IpAddr, ip_eq}
use dmarc_report_viewer.Common.Map.Keys.{IsDistinct, insert-IsDistinct}
use dmarc_report_viewer.Common.Sums.{foldl-keeps}
use dmarc_report_viewer.Tls.{FailureDetails}
use dmarc_report_viewer.State.{AppState}
use dmarc_report_viewer.Background.{values}
use dmarc_report_viewer.Http.{ok_json}
use dmarc_report_viewer.Http.Sources.{
  Source, SourceDetails, IpMap, place, sort_by_count, ip_map, handler, touch, dmarc_record,
  dmarc_report, tls_failure, tls_policy, tls_report,
}

-- The counts fall, or stay the same.
abbrev pub IsDescending : List Source → Type 0
IsDescending [] = Unit
IsDescending (s ∷ rest) = All (λ t. t.details.count ≤ s.details.count) rest × IsDescending rest

All-place :
    (P : Source → Type 0) (s : Source) (xs : List Source) → P s → All P xs → All P (place s xs)
unfolding place
All-place P s [] p a = (p, tt)
All-place P s (t ∷ rest) p a =
    if-cases (All P) (ltb s.details.count t.details.count) (λ _. (a.0, All-place P s rest p a.1))
      (p, a)

All-below :
    (n m : ℕ) (xs : List Source)
    → n ≤ m
    → All (λ t. t.details.count ≤ n) xs
    → All (λ t. t.details.count ≤ m) xs
All-below n m xs h = All-map _ _ (λ t p. omega (arith, h, p)) xs

place-IsDescending : (s : Source) (xs : List Source) → IsDescending xs → IsDescending (place s xs)
unfolding place
place-IsDescending s [] h = (tt, tt)
place-IsDescending s (t ∷ rest) h = elim (Bool-cases (ltb s.details.count t.details.count)) [
  | inl e ↦
      rw (e, place)
        (
          All-place _ s rest (ground (arith, ltb_iff s.details.count t.details.count)) h.0,
          place-IsDescending s rest h.1,
        )
  | inr e ↦
      let le : t.details.count ≤ s.details.count =
        ground (arith, ltb_iff s.details.count t.details.count) in
      rw (e, place) ((le, All-below _ _ rest le h.0), h)
]

sort_by_count-IsDescending : (xs : List Source) → IsDescending (sort_by_count xs)
unfolding sort_by_count
sort_by_count-IsDescending [] = tt
sort_by_count-IsDescending (s ∷ rest) =
    place-IsDescending s (sort_by_count rest) (sort_by_count-IsDescending rest)

place-Perm : (s : Source) (xs : List Source) → Perm (place s xs) (s ∷ xs)
unfolding place
place-Perm s [] = Perm.refl (s ∷ [])
place-Perm s (t ∷ rest) =
    if-cases (λ l. Perm l (s ∷ t ∷ rest)) (ltb s.details.count t.details.count)
      (λ _. Perm.trans (Perm.cons t (place-Perm s rest)) (Perm.swap s t rest))
      (Perm.refl (s ∷ t ∷ rest))

sort_by_count-Perm : (xs : List Source) → Perm (sort_by_count xs) xs
unfolding sort_by_count
sort_by_count-Perm [] = Perm.refl []
sort_by_count-Perm (s ∷ rest) =
    Perm.trans (place-Perm s (sort_by_count rest)) (Perm.cons s (sort_by_count-Perm rest))

abbrev pub to_source : IpAddr × SourceDetails → Source
to_source (ip, details) = record { ip = ip; details = details }

tls_failure-IsDistinct :
    (domain : String) (m : IpMap) (f : FailureDetails)
    → IsDistinct m
    → IsDistinct (tls_failure domain m f)
unfolding tls_failure touch
tls_failure-IsDistinct domain m f h = elim (Option-cases f.sending_mta_ip) [
  | inl e ↦ rw (e, tls_failure) h
  | inr (ip, e) ↦ rw (e, tls_failure) (insert-IsDistinct ip _ m h)
]

ip_map-IsDistinct : {L : Type 0} (state : AppState L) → IsDistinct (ip_map state)
unfolding ip_map dmarc_report dmarc_record touch tls_report tls_policy
ip_map-IsDistinct state =
    foldl-keeps IsDistinct tls_report
      (λ m r.
        foldl-keeps IsDistinct tls_policy
          (λ m p.
            foldl-keeps IsDistinct (tls_failure p.policy.policy_domain)
              (tls_failure-IsDistinct p.policy.policy_domain) (or_empty p.failure_details) m)
          r.policies m)
      (map (λ w. w.report) (values state.tls_reports)) _
      (foldl-keeps IsDistinct dmarc_report
        (λ m r.
          foldl-keeps IsDistinct (dmarc_record r.policy_published.domain)
            (λ m x h. insert-IsDistinct x.row.source_ip _ m h) r.records m)
        (map (λ w. w.report) (values state.dmarc_reports)) [] tt)

-- The answer lists each IP address of the reports once with its details, by falling counts.
pub handler_lem :
    {L : Type 0} (state : AppState L)
    → (sources : List Source) × (handler state ≡ ok_json sources)
      × IsDescending sources
      × Perm sources (map to_source (ip_map state))
      × IsDistinct (ip_map state)
unfolding handler
handler_lem state = (
  sort_by_count (map to_source (ip_map state)),
  refl,
  sort_by_count-IsDescending (map to_source (ip_map state)),
  sort_by_count-Perm (map to_source (ip_map state)),
  ip_map-IsDistinct state,
)
