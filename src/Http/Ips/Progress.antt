-- ===== src/Http/Ips/Progress.antt =====
-- src/http/ips.rs: the tasks of a batch come to their end.
use mathlib.Core.Path.{subst}
use mathlib.Core.List.{append_assoc}
use dmarc_report_viewer.Common.{
  ◌≡◌, refl, String, Option, none, some, List, [], ◌∷◌, ◌++◌, All, inl, inr, Option-cases,
}
use dmarc_report_viewer.Common.Ip.{IpAddr, ip_eq}
use dmarc_report_viewer.Common.Result.{Result, ok, err, Result-cases}
use dmarc_report_viewer.CacheMap
use dmarc_report_viewer.DnsClientCached.{HostCache}
use dmarc_report_viewer.Http.Ips.Tasks.{
  Task, waiting, asking, finished, Batch, hit, miss, answered, failed, pick, Run, here, next,
}

-- The address of a task, and what joining it gives
abbrev pub ip_of : Task → IpAddr
ip_of (waiting ip) = ip
ip_of (asking ip) = ip
ip_of (finished ip result) = ip

abbrev pub joined : Task → Option (Result (Option String))
joined (waiting ip) = none
joined (asking ip) = none
joined (finished ip result) = some result

abbrev pub IsFinished : Task → Type 0
IsFinished task = (result : Result (Option String)) × (joined task ≡ some result)

module _ (resolve : IpAddr → Result (Option String)) where
  Run-trans : {s t u : Batch} → Run resolve s t → Run resolve t u → Run resolve s u
  Run-trans run here = run
  Run-trans run (next more step) = next (Run-trans run more) step

  abbrev batch : HostCache → List Task → Batch
  batch cache tasks = record { cache = cache; tasks = tasks }

  -- Where a run leaves the cache and a task that it has finished
  abbrev Ends : HostCache → List Task → Task → List Task → Type 0
  Ends cache before task rest =
      (after : HostCache) × (moved : Task) × Run resolve (batch cache (before ++ task ∷ rest))
        (batch after (before ++ moved ∷ rest))
      × IsFinished moved

  finish_asking :
      (cache : HostCache) (before : List Task) (ip : IpAddr) (rest : List Task)
      → Ends cache before (asking ip) rest
  finish_asking cache before ip rest = elim (Result-cases (resolve ip)) [
    | inl (host, r) ↦ (
      CacheMap.insert cache ip host,
      finished ip (ok host),
      next here (pick before rest (answered ip host r refl) refl refl),
      (ok host, refl),
    )
    | inr (message, r) ↦ (
      cache,
      finished ip (err message),
      next here (pick before rest (failed ip message r) refl refl),
      (err message, refl),
    )
  ]

  finish_one :
      (cache : HostCache) (before : List Task) (task : Task) (rest : List Task)
      → Ends cache before task rest
  finish_one cache before (asking ip) rest = finish_asking cache before ip rest
  finish_one cache before (finished ip result) rest =
      (cache, finished ip result, here, (result, refl))
  finish_one cache before (waiting ip) rest = elim (Option-cases (CacheMap.get cache ip)) [
    | inr (host, g) ↦ (
      cache,
      finished ip (ok host),
      next here (pick before rest (hit ip host g) refl refl),
      (ok host, refl),
    )
    | inl g ↦
        let (after, moved, run, end) = finish_asking cache before ip rest in
        (after, moved, Run-trans (next here (pick before rest (miss ip g) refl refl)) run, end)
  ]

  pub finish_all :
      (tasks : List Task) (cache : HostCache) (before : List Task)
      → (after : HostCache) × (ended : List Task) × Run resolve
          (batch cache (before ++ tasks))
          (batch after (before ++ ended))
        × All IsFinished ended
  finish_all [] cache before = (cache, [], here, tt)
  finish_all (task ∷ rest) cache before =
      let (after, moved, run, end) = finish_one cache before task rest in
      let (last, ended, more, ends) = finish_all rest after (before ++ moved ∷ []) in
      (
        last,
        moved ∷ ended,
        Run-trans run (
            subst (λ l. Run resolve (batch after (before ++ moved ∷ rest)) (batch last l))
              (append_assoc before (moved ∷ []) ended)
              (subst
                (λ l. Run resolve (batch after l) (batch last ((before ++ moved ∷ []) ++ ended)))
                (append_assoc before (moved ∷ []) rest) more)),
        (end, ends),
      )
