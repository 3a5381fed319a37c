-- ===== src/Http/Ips/Batch.antt =====
-- src/http/ips.rs: the answer to a batch of addresses, in whatever order its tasks run.
use mathlib.Core.Path.{subst}
use dmarc_report_viewer.Common.{
  ◌≤◌, ◌≡◌, refl, sym, ap, ◌∙◌, String, Option, none, some, List, [], ◌∷◌, ◌++◌, map, Bool, true,
  false, ltb, length, All, All-append, inl, inr, arith,
}
use dmarc_report_viewer.Common.Ip.{IpAddr, ip_eq}
use dmarc_report_viewer.Common.Result.{Result, ok, err}
use dmarc_report_viewer.CacheMap
use dmarc_report_viewer.CacheMap.Entries.{get-insert_inv}
use dmarc_report_viewer.DnsClientCached.{HostCache}
use dmarc_report_viewer.Http.{ok_json}
use dmarc_report_viewer.Http.Ips.{flat, join_tasks, max_ip_count, dns_batch_handler}
use dmarc_report_viewer.Http.Ips.Tasks.{
  Task, waiting, asking, finished, Batch, Move, hit, miss, answered, failed, Step, pick, other, Run,
  here, next,
}
use dmarc_report_viewer.Http.Ips.Progress.{ip_of, joined, IsFinished, finish_all}

-- What all elements meet, those before a place, the one there and the others meet.
All-at {ℓ κ} :
    {A : Type ℓ} (P : A → Type κ) (before : List A) (a : A) (rest : List A)
    → All P (before ++ a ∷ rest)
    → All P before × P a × All P rest
All-at P [] a rest h = (tt, h.0, h.1)
All-at P (b ∷ before) a rest h = let (p, q, r) = All-at P before a rest h.1 in ((h.0, p), q, r)

map-at {ℓ κ} :
    {A : Type ℓ} {B : Type κ} (f : A → B) (before : List A) (a b : A) (rest : List A)
    → f a ≡ f b
    → map f (before ++ a ∷ rest) ≡ map f (before ++ b ∷ rest)
map-at f [] a b rest h = ap (λ y. y ∷ map f rest) h
map-at f (c ∷ before) a b rest h = ap (λ l. f c ∷ l) (map-at f before a b rest h)

-- The name of an answer: none where it has none, or is an error
abbrev pub name_of : Result (Option String) → Option String
name_of (ok name) = name
name_of (err e) = none

flat-name_of : (r : Result (Option String)) → flat r ≡ name_of r
flat-name_of (ok name) = refl
flat-name_of (err e) = refl

module _ (resolve : IpAddr → Result (Option String)) where
  -- The cache says what the network says.
  abbrev pub Agrees : HostCache → Type 0
  Agrees cache =
      (ip : IpAddr) (host : Option String)
      → CacheMap.get cache ip ≡ some host
      → resolve ip ≡ ok host

  -- A finished task has the answer of the network.
  abbrev IsRight : Task → Type 0
  IsRight (waiting ip) = Unit
  IsRight (asking ip) = Unit
  IsRight (finished ip result) = result ≡ resolve ip

  Agrees-insert :
      (cache : HostCache) (ip : IpAddr) (host : Option String)
      → Agrees cache
      → resolve ip ≡ ok host
      → Agrees (CacheMap.insert cache ip host)
  Agrees-insert cache ip host a h j found g = elim (get-insert_inv cache ip j host found g) [
    | inl (same, value) ↦ ap resolve (sym same) ∙ h ∙ ap ok value
    | inr before ↦ a j found before
  ]

  Move-IsRight :
      {cache after : HostCache} {task moved : Task}
      → Move resolve cache task after moved
      → Agrees cache
      → Agrees after × IsRight moved × (ip_of moved ≡ ip_of task)
  Move-IsRight (hit ip host g) a = (a, sym (a ip host g), refl)
  Move-IsRight (miss ip g) a = (a, tt, refl)
  Move-IsRight {cache} (answered ip host r e) a =
      (subst Agrees (sym e) (Agrees-insert cache ip host a r), sym r, refl)
  Move-IsRight (failed ip message r) a = (a, sym r, refl)

  -- What holds at every point of a run for the addresses `ips`
  record IsConsistent (ips : List IpAddr) (s : Batch) : Type 0 where
    pub agrees : Agrees s.cache
    pub right : All IsRight s.tasks
    pub same_ips : map ip_of s.tasks ≡ ips

  Step-IsConsistent :
      {ips : List IpAddr} {s t : Batch} → Step resolve s t → IsConsistent ips s → IsConsistent ips t
  Step-IsConsistent {ips} (pick {cache} {after} {task} {moved} before rest move from to) c =
      let d = subst (IsConsistent ips) from c in
      let (p, q, r) = All-at IsRight before task rest d.right in
      let (agrees, right, same) = Move-IsRight move d.agrees in
      subst (IsConsistent ips) (sym to) (record {
        agrees = agrees;
        right = All-append IsRight before (moved ∷ rest) p (right, r);
        same_ips = map-at ip_of before moved task rest same ∙ d.same_ips;
      })
  Step-IsConsistent {ips} (other ip host {s} r to) c = subst (IsConsistent ips) (sym to) (record {
    agrees = Agrees-insert s.cache ip host c.agrees r;
    right = c.right;
    same_ips = c.same_ips;
  })

  Run-IsConsistent :
      {ips : List IpAddr} {s t : Batch} → Run resolve s t → IsConsistent ips s → IsConsistent ips t
  Run-IsConsistent here c = c
  Run-IsConsistent (next run step) c = Step-IsConsistent step (Run-IsConsistent run c)

  waiting-IsConsistent :
      (cache : HostCache) (ips : List IpAddr)
      → Agrees cache
      → IsConsistent ips (record { cache = cache; tasks = map waiting ips })
  waiting-IsConsistent cache ips a = record { agrees = a; right = right ips; same_ips = same ips }
    where
      right : (ips : List IpAddr) → All IsRight (map waiting ips)
      right [] = tt
      right (ip ∷ ips) = (tt, right ips)

      same : (ips : List IpAddr) → map ip_of (map waiting ips) ≡ ips
      same [] = refl
      same (ip ∷ ips) = ap (λ l. ip ∷ l) (same ips)

  join-finished :
      (tasks : List Task)
      → All IsRight tasks
      → All IsFinished tasks
      → join_tasks (map joined tasks) ≡ some (map (λ ip. name_of (resolve ip)) (map ip_of tasks))
  unfolding join_tasks
  join-finished [] r f = refl
  join-finished (waiting ip ∷ tasks) r f = absurd (ground arith)
  join-finished (asking ip ∷ tasks) r f = absurd (ground arith)
  join-finished (finished ip result ∷ tasks) r f =
      rw (join-finished tasks r.1 f.1, ← r.0, flat-name_of result) refl

  -- For a batch of 100 addresses at most, on a cache that says what the network says, and a writer of JSON
  -- that does not fail: the tasks can all come to their end, and whatever order they and other requests run
  -- in, the answer then lists what the network says of each address, in the order of the addresses, with
  -- an error as no name.
  pub dns_batch_handler-Run :
      (prints : List (Option String) → Bool) (ips : List IpAddr) (cache : HostCache)
      → length ips ≤ 100
      → Agrees cache
      → prints (map (λ ip. name_of (resolve ip)) ips) ≡ true
      → ((after : HostCache) × (ended : List Task) × Run resolve
            (record { cache = cache; tasks = map waiting ips })
            (record { cache = after; tasks = ended })
          × All IsFinished ended)
        × ((s : Batch)
            → Run resolve (record { cache = cache; tasks = map waiting ips }) s
            → All IsFinished s.tasks
            → dns_batch_handler prints ips (map joined s.tasks)
              ≡ ok_json (map (λ ip. name_of (resolve ip)) ips))
  unfolding dns_batch_handler
  dns_batch_handler-Run prints ips cache few agrees writes = (
    finish_all resolve (map waiting ips) cache [],
    λ s run ended.
        let c = Run-IsConsistent run (waiting-IsConsistent cache ips agrees) in
        let results =
          join-finished s.tasks c.right ended
          ∙ ap (λ l. some (map (λ ip. name_of (resolve ip)) l)) c.same_ips in
        let within : ltb max_ip_count (length ips) ≡ false = ground arith in
        rw (within, results, writes) refl,
  )
