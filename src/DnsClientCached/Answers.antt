-- ===== src/DnsClientCached/Answers.antt =====
-- src/dns_client_cached.rs: an answer is kept, an error is not.
use dmarc_report_viewer.Common.{
  String, ◌≡◌, refl, sym, ap, ◌∙◌, Option, none, some, Option-cases, inl, inr,
}
use dmarc_report_viewer.Common.Ip.{IpAddr, ip_eq}
use dmarc_report_viewer.Common.Result.{Result, ok, err}
use dmarc_report_viewer.CacheMap
use dmarc_report_viewer.CacheMap.Bounds.{get-insert_self}
use dmarc_report_viewer.DnsClientCached.{HostCache, host_from_ip}

hit :
    (ip : IpAddr) (query : Result (Option String)) (meanwhile : HostCache → HostCache)
    (cache : HostCache) (host : Option String)
    → CacheMap.get cache ip ≡ some host
    → host_from_ip ip query meanwhile cache ≡ (ok host, cache)
unfolding host_from_ip
hit ip query meanwhile cache host h = rw (h, host_from_ip) refl

ask :
    (ip : IpAddr) (response : Option String) (meanwhile : HostCache → HostCache) (cache : HostCache)
    → CacheMap.get cache ip ≡ none
    → host_from_ip ip (ok response) meanwhile cache
      ≡ (ok response, CacheMap.insert (meanwhile cache) ip response)
unfolding host_from_ip
ask ip response meanwhile cache h = rw (h, host_from_ip) refl

fail :
    (ip : IpAddr) (e : String) (meanwhile : HostCache → HostCache) (cache : HostCache)
    → CacheMap.get cache ip ≡ none
    → host_from_ip ip (err e) meanwhile cache ≡ (err e, meanwhile cache)
unfolding host_from_ip
fail ip e meanwhile cache h = rw (h, host_from_ip) refl

ok-inj : {x y : Option String} → ok x ≡ ok y → x ≡ y
ok-inj p = cc

err≢ok : {m : String} {x : Option String} → ¬ (err m ≡ ok x)
err≢ok p = cc

kept :
    (ip : IpAddr) (query : Result (Option String)) (meanwhile : HostCache → HostCache)
    (cache after : HostCache) (host : Option String)
    → host_from_ip ip query meanwhile cache ≡ (ok host, after)
    → CacheMap.get after ip ≡ some host
kept ip (ok response) meanwhile cache after host h = elim (Option-cases (CacheMap.get cache ip)) [
  | inl miss ↦
      let q = sym (ask ip response meanwhile cache miss) ∙ h in
      let answer : response ≡ host = ok-inj (ap (λ p. p.0) q) in
      sym (ap (λ p. CacheMap.get p.1 ip) q)
      ∙ get-insert_self (meanwhile cache) ip response
      ∙ ap some answer
  | inr (cached, found) ↦
      let q = sym (hit ip (ok response) meanwhile cache cached found) ∙ h in
      sym (ap (λ p. CacheMap.get p.1 ip) q) ∙ found ∙ ap some (ok-inj (ap (λ p. p.0) q))
]
kept ip (err e) meanwhile cache after host h = elim (Option-cases (CacheMap.get cache ip)) [
  | inl miss ↦ let q = ap (λ p. p.0) (sym (fail ip e meanwhile cache miss) ∙ h) in absurd (err≢ok q)
  | inr (cached, found) ↦
      let q = sym (hit ip (err e) meanwhile cache cached found) ∙ h in
      sym (ap (λ p. CacheMap.get p.1 ip) q) ∙ found ∙ ap some (ok-inj (ap (λ p. p.0) q))
]

-- After an answer (a host name, or that there is none) the next request for the address gets the same
-- answer whatever the network would say, and leaves the cache as it is. This holds also where the
-- cache was full, and where other requests changed it while the query ran.
pub answer_again :
    (ip : IpAddr) (query other : Result (Option String)) (meanwhile later : HostCache → HostCache)
    (cache after : HostCache) (host : Option String)
    → host_from_ip ip query meanwhile cache ≡ (ok host, after)
    → host_from_ip ip other later after ≡ (ok host, after)
answer_again ip query other meanwhile later cache after host h =
    hit ip other later after host (kept ip query meanwhile cache after host h)
