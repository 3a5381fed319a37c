-- ===== src/Http/Ips/Tasks.antt =====
-- src/http/ips.rs and src/dns_client_cached.rs: the tasks of a batch, which run in any order on one cache.
use dmarc_report_viewer.Common.{◌≡◌, String, Option, none, some, List, ◌∷◌, ◌++◌}
use dmarc_report_viewer.Common.Ip.{IpAddr, ip_eq}
use dmarc_report_viewer.Common.Result.{Result, ok, err}
use dmarc_report_viewer.CacheMap
use dmarc_report_viewer.DnsClientCached.{HostCache}

-- A task before it looks into the cache, while the network is asked, and at its end
pub data Task : Type 0 where
  waiting asking : IpAddr → Task
  finished : IpAddr → Result (Option String) → Task

pub record Batch : Type 0 where
  pub cache : HostCache
  pub tasks : List Task

-- `resolve` is what the network answers for each address.
module _ (resolve : IpAddr → Result (Option String)) where
  -- The two critical sections of `host_from_ip`, each one move
  pub data Move : HostCache → Task → HostCache → Task → Type 0 where
    hit :
        {cache : HostCache} (ip : IpAddr) (host : Option String)
        → CacheMap.get cache ip ≡ some host
        → Move cache (waiting ip) cache (finished ip (ok host))
    miss :
        {cache : HostCache} (ip : IpAddr)
        → CacheMap.get cache ip ≡ none
        → Move cache (waiting ip) cache (asking ip)
    answered :
        {cache after : HostCache} (ip : IpAddr) (host : Option String)
        → resolve ip ≡ ok host
        → after ≡ CacheMap.insert cache ip host
        → Move cache (asking ip) after (finished ip (ok host))
    failed :
        {cache : HostCache} (ip : IpAddr) (message : String)
        → resolve ip ≡ err message
        → Move cache (asking ip) cache (finished ip (err message))

  -- One task moves, or another request keeps an answer in the cache.
  pub data Step : Batch → Batch → Type 0 where
    pick :
        {cache after : HostCache} {task moved : Task} (before rest : List Task) {s t : Batch}
        → Move cache task after moved
        → s ≡ record { cache = cache; tasks = before ++ task ∷ rest }
        → t ≡ record { cache = after; tasks = before ++ moved ∷ rest }
        → Step s t
    other :
        (ip : IpAddr) (host : Option String) {s t : Batch}
        → resolve ip ≡ ok host
        → t ≡ record s { cache = CacheMap.insert s.cache ip host }
        → Step s t

  pub data Run (s : Batch) : Batch → Type 0 where
    here : Run s s
    next : {t u : Batch} → Run s t → Step t u → Run s u
