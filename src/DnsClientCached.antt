-- ===== src/DnsClientCached.antt =====
-- src/dns_client_cached.rs: host names of IP addresses, with a cache in front of the DNS client.
-- The cache is locked twice, before and after the query, so it may change while the query runs.
pub mod Answers
use dmarc_report_viewer.Common.{ℕ, String, Option, none, some}
use dmarc_report_viewer.Common.Ip.{IpAddr, ip_eq}
use dmarc_report_viewer.Common.Result.{Result, ok, err}
use dmarc_report_viewer.CacheMap
use dmarc_report_viewer.CacheMap.{CacheMap}

abbrev pub HostCache : Type 0
HostCache = CacheMap IpAddr (Option String)

unfoldable pub new : ℕ → Result HostCache
unfolding CacheMap.new
new max_cache_size = CacheMap.new max_cache_size

-- `host_from_ip`: the answer, and the cache after it, for the answer that the network would give and
-- for what other requests make of the cache meanwhile.
unfoldable pub host_from_ip :
    IpAddr
    → Result (Option String)
    → (HostCache → HostCache)
    → HostCache
    → Result (Option String) × HostCache
unfolding CacheMap.get CacheMap.insert
host_from_ip ip query meanwhile cache = elim (CacheMap.get cache ip) [
  | some cached ↦ (ok cached, cache)
  | none ↦ elim query [
    | ok response ↦ (ok response, CacheMap.insert (meanwhile cache) ip response)
    | err e ↦ (err e, meanwhile cache)
  ]
]
