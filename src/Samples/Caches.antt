-- ===== src/Samples/Caches.antt =====
-- The cache at small sizes, and the cached host names.
use dmarc_report_viewer.Common.{
  ℕ, ◌+◌, ◌≡◌, refl, none, some, List, [], ◌∷◌, length, nat_eq, add_u64, arith,
}
use dmarc_report_viewer.Common.Map as Map
use dmarc_report_viewer.Common.Result.{ok, err}
use dmarc_report_viewer.Common.Ip.{ip_eq}
use dmarc_report_viewer.CacheMap as CacheMap
use dmarc_report_viewer.CacheMap.{CacheMap, Entry, new, get, insert, oldest}
use dmarc_report_viewer.CacheMap.Bounds.{IsValid, insert_again}
use dmarc_report_viewer.CacheMap.Latest.{drop, get-insert_all}
use dmarc_report_viewer.CacheMap.Runs.{insert_all}
use dmarc_report_viewer.Common.Map.Keys.{IsDistinct}
use dmarc_report_viewer.DnsClientCached.{HostCache, host_from_ip}
use dmarc_report_viewer.DnsClientCached.Answers.{answer_again}
use dmarc_report_viewer.Samples.{sender_ip}

abbrev empty : CacheMap ℕ ℕ
empty = record { map = []; max_size = 2; counter = 0 }

abbrev calls : List (ℕ × ℕ)
calls = (1, 10) ∷ (2, 20) ∷ (3, 30) ∷ (4, 40) ∷ []

empty-new : new 2 ≡ ok empty
unfolding new
empty-new = refl

calls-IsDistinct : IsDistinct calls
unfolding Map.get
calls-IsDistinct = (refl, (refl, (refl, (refl, tt))))

get-insert_all_example : get (insert_all empty calls) 3 ≡ Map.get 3 (drop 2 calls)
get-insert_all_example = get-insert_all 2 calls 3 empty-new (omega arith) calls-IsDistinct

-- A full cache
abbrev full : CacheMap ℕ ℕ
full = record {
  map = (1, record { inserted = 0; value = 10 }) ∷ (2, record { inserted = 1; value = 20 }) ∷ [];
  max_size = 2;
  counter = 2;
}

full-IsValid : IsValid full
unfolding Map.get
full-IsValid = record {
  positive = omega arith;
  bounded = omega arith;
  distinct = (refl, (refl, tt));
}

second : get full 2 ≡ some 20
unfolding get Map.get
second = refl

first : oldest full.map ≡ some (1, record { inserted = 0; value = 10 })
unfolding oldest
first = refl

insert_again_example : (length (insert full 2 21).map + 1 ≡ 2) × (get (insert full 2 21) 1 ≡ none)
insert_again_example =
    insert_again full 2 21 20 (1, record { inserted = 0; value = 10 }) full-IsValid refl second
      first refl

abbrev no_hosts : HostCache
no_hosts = record { map = []; max_size = 1; counter = 0 }

abbrev one_host : HostCache
one_host = record {
  map = (sender_ip, record { inserted = 0; value = some "mx.example.org" }) ∷ [];
  max_size = 1;
  counter = add_u64 0 1;
}

asked :
    host_from_ip sender_ip (ok (some "mx.example.org")) (λ c. c) no_hosts
    ≡ (ok (some "mx.example.org"), one_host)
unfolding host_from_ip Map.get Map.insert CacheMap.make_room
asked = refl

answer_again_example :
    host_from_ip sender_ip (err "no network") (λ c. c) one_host
    ≡ (ok (some "mx.example.org"), one_host)
answer_again_example =
    answer_again sender_ip (ok (some "mx.example.org")) (err "no network") (λ c. c) (λ c. c)
      no_hosts one_host (some "mx.example.org") asked
