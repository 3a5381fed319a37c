-- ===== src/CacheMap/Runs.antt =====
-- src/cache_map.rs: sequences of insertions into a new cache, against the queue without stamps.
use dmarc_report_viewer.Common.{
  ℕ, suc, ◌+◌, ◌<◌, ◌≡◌, refl, ap, ◌∙◌, arith, Eq, length, leb, List, [], ◌∷◌, map, u64_mod,
  add_u64_lem, Bool-cases, inl, inr,
}
use mathlib.Core.Option
use mathlib.Core.List.{map-append}
use dmarc_report_viewer.Common.Map
use dmarc_report_viewer.Common.Map.{remove}
use dmarc_report_viewer.Common.Result.{ok}
use dmarc_report_viewer.CacheMap.{CacheMap, Entry, new, get, insert, make_room}
use dmarc_report_viewer.CacheMap.Bounds.{new-IsValid, max_size-make_room, counter-make_room}
use dmarc_report_viewer.CacheMap.Fifo.{tail, push, Tracks, insert-Tracks}

module _ {ℓ κ} {K : Type ℓ} {V : Type κ} ⦃e : Eq K⦄ where
  unfoldable pub insert_all : CacheMap K V → List (K × V) → CacheMap K V
  insert_all c [] = c
  insert_all c ((k, v) ∷ calls) = insert_all (insert c k v) calls

  unfoldable pub fifo : ℕ → List (K × V) → List (K × V) → List (K × V)
  fifo size q [] = q
  fifo size q ((k, v) ∷ calls) = fifo size (push size k v q) calls

  abbrev values : List (K × Entry V) → List (K × V)
  values = map (λ d. (d.0, d.1.value))

  remove-values : (k : K) (q : List (K × Entry V)) → values (remove k q) ≡ remove k (values q)
  unfolding remove
  remove-values k [] = refl
  remove-values k ((j, x) ∷ q) = ground (arith, remove-values k q)

  length-values : (q : List (K × Entry V)) → length (values q) ≡ length q
  length-values [] = refl
  length-values (d ∷ q) = ap suc (length-values q)

  tail-values : (q : List (K × Entry V)) → values (tail q) ≡ tail (values q)
  tail-values [] = refl
  tail-values (d ∷ q) = refl

  push-values :
      (size : ℕ) (k : K) (x : Entry V) (q : List (K × Entry V))
      → values (push size k x q) ≡ push size k x.value (values q)
  push-values size k x q = elim (Bool-cases (leb size (length q))) [
    | inl full ↦
        rw (full, ap (leb size) (length-values q) ∙ full, map-append, remove-values, tail-values)
    | inr room ↦ rw (room, ap (leb size) (length-values q) ∙ room, map-append, remove-values)
  ]

  get-values :
      (k : K) (q : List (K × Entry V))
      → Option.map (λ x. x.value) (Map.get k q) ≡ Map.get k (values q)
  unfolding Map.get
  get-values k [] = refl
  get-values k ((j, x) ∷ q) = ground (arith, get-values k q)

  get_of_Tracks :
      (c : CacheMap K V) (q : List (K × Entry V)) (k : K)
      → Tracks c q
      → get c k ≡ Map.get k (values q)
  unfolding get
  get_of_Tracks c q k t = rw t.same (get-values k q)

  insert_all-Tracks :
      (calls : List (K × V)) (c : CacheMap K V) (q : List (K × Entry V)) (k : K)
      → Tracks c q
      → c.counter + length calls < u64_mod
      → get (insert_all c calls) k ≡ Map.get k (fifo c.max_size (values q) calls)
  unfolding insert_all fifo insert
  insert_all-Tracks [] c q k t room = get_of_Tracks c q k t
  insert_all-Tracks ((j, v) ∷ calls) c q k t room =
      let next : (insert c j v).counter ≡ c.counter + 1 =
        omega (arith, counter-make_room c, add_u64_lem (make_room c).counter 1) in
      let entry : Entry V = record { inserted = c.counter; value = v } in
      insert_all-Tracks calls (insert c j v) (push c.max_size j entry q) k
        (insert-Tracks c q j v t (omega arith)) (omega (arith, next))
      ∙ ap (λ (n : ℕ). Map.get k (fifo n (values (push c.max_size j entry q)) calls))
          (max_size-make_room c)
      ∙ ap (λ (r : List (K × V)). Map.get k (fifo c.max_size r calls))
          (push-values c.max_size j entry q)

  -- A lookup answers what the queue holds, in which a key that is inserted again moves to the end and
  -- a full queue first drops its head.
  pub get-fifo :
      (n : ℕ) (calls : List (K × V)) (k : K) {c : CacheMap K V}
      → new n ≡ ok c
      → length calls < u64_mod
      → get (insert_all c calls) k ≡ Map.get k (fifo n [] calls)
  unfolding new
  get-fifo n calls k {c} made room =
      let empty : c ≡ record { map = []; max_size = n; counter = 0 } = ground arith in
      rw empty (
        insert_all-Tracks calls (record { map = []; max_size = n; counter = 0 }) [] k
          (record {
            valid = rw (← empty) (new-IsValid n made);
            distinct = tt;
            same = λ j. refl;
            size = refl;
            ordered = omega arith;
          })
          (omega arith))
