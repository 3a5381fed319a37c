-- ===== src/CacheMap/Fifo.antt =====
-- src/cache_map.rs: the cache against a queue of its keys, the oldest first.
use mathlib.Core.Path.{subst}
use dmarc_report_viewer.Common.{
  ℕ, suc, ◌+◌, ◌≤◌, ◌<◌, ◌≡◌, refl, ap, none, some, arith, Eq, ◌==◌, length, leb, if◌then◌else◌, In,
  here, add_u64, add_u64_lem, u64_mod, Bool-cases, Option-cases, In-cons, sym, ◌∙◌, inl, inr,
  is_none, List, [], ◌∷◌, ◌++◌, length-append,
}
use dmarc_report_viewer.Common.Map
use dmarc_report_viewer.Common.Map.{remove, length-insert, get-insert, get-remove}
use dmarc_report_viewer.Common.Map.Keys.{
  IsDistinct, remove-IsDistinct, remove_absent, length-remove, get_of_In, In-of_get,
}
use dmarc_report_viewer.CacheMap.{CacheMap, Entry, oldest, prune, make_room, insert}
use dmarc_report_viewer.CacheMap.Oldest.{nil_of_oldest, In-oldest, oldest-le}
use dmarc_report_viewer.CacheMap.Ascending.{
  Ascending, Ascending-weaken, Ascending-le, Ascending-append, Ascending-remove,
}
use dmarc_report_viewer.CacheMap.Bounds.{IsValid, insert-IsValid, counter-make_room}

abbrev pub tail {ℓ} : {A : Type ℓ} → List A → List A
tail [] = []
tail (x ∷ xs) = xs

module _ {ℓ κ} {K : Type ℓ} {V : Type κ} ⦃e : Eq K⦄ where
  -- The queue that the cache promises to be: a full one drops its head, a key that is inserted
  -- again moves to the end.
  abbrev pub push : ℕ → K → V → List (K × V) → List (K × V)
  push size k v q = remove k (if leb size (length q) then tail q else q) ++ (k, v) ∷ []

  get-push :
      (k j : K) (v : V) (q : List (K × V))
      → Map.get j (remove k q ++ (k, v) ∷ []) ≡ (if k == j then some v else Map.get j q)
  unfolding Map.get remove
  get-push k j v [] = refl
  get-push k j v ((i, w) ∷ q) =
      ground (arith, e.equals_iff k j, e.equals_iff i k, e.equals_iff i j, get-push k j v q)

  length-push :
      (k : K) (v : V) (q : List (K × V))
      → IsDistinct q
      → length (remove k q ++ (k, v) ∷ [])
        ≡ (if is_none (Map.get k q) then length q + 1 else length q)
  length-push k v q d = elim (Option-cases (Map.get k q)) [
    | inl h ↦
        ground (arith, length-append (remove k q) ((k, v) ∷ []), ap length (remove_absent k q h))
    | inr (w, h) ↦ ground (arith, length-append (remove k q) ((k, v) ∷ []), length-remove k w q d h)
  ]

  append-IsDistinct :
      (k : K) (v : V) (q : List (K × V))
      → IsDistinct q
      → Map.get k q ≡ none
      → IsDistinct (q ++ (k, v) ∷ [])
  unfolding Map.get
  append-IsDistinct k v [] d h = (refl, tt)
  append-IsDistinct k v ((i, w) ∷ q) d h =
      let absent : Map.get k q ≡ none = ground arith in
      let same =
        ap (λ (r : List (K × V)). Map.get i (r ++ (k, v) ∷ [])) (remove_absent k q absent) in
      (
        ground (arith, get-push k i v q, same, e.equals_iff i k, e.equals_iff k i),
        append-IsDistinct k v q d.1 absent,
      )

  push-IsDistinct :
      (k : K) (v : V) (q : List (K × V)) → IsDistinct q → IsDistinct (remove k q ++ (k, v) ∷ [])
  push-IsDistinct k v q d =
      append-IsDistinct k v (remove k q) (remove-IsDistinct k q d)
        (ground (arith, get-remove k k q, e.equals_iff k k))

-- The cache holds what the stamped queue holds.
pub record Tracks {ℓ κ} {K : Type ℓ} {V : Type κ} ⦃e : Eq K⦄ (c : CacheMap K V)
    (q : List (K × Entry V)) : Type (ℓ ⊔ κ) where
  pub valid : IsValid c
  pub distinct : IsDistinct q
  pub same : (k : K) → Map.get k c.map ≡ Map.get k q
  pub size : length c.map ≡ length q
  pub ordered : Ascending 0 q c.counter

module _ {ℓ κ} {K : Type ℓ} {V : Type κ} ⦃e : Eq K⦄ where
  -- The oldest entry of the map is the head of the queue.
  oldest-head :
      (c : CacheMap K V) (h : K × Entry V) (q : List (K × Entry V)) (o : K × Entry V)
      → Tracks c (h ∷ q)
      → oldest c.map ≡ some o
      → o ≡ h
  oldest-head c h q o t f =
      let held : Map.get o.0 c.map ≡ some o.1 =
        get_of_In o.0 o.1 c.map t.valid.distinct (In-oldest c.map o f) in
      let first : Map.get h.0 (h ∷ q) ≡ some h.1 =
        get_of_In h.0 h.1 (h ∷ q) t.distinct (here refl) in
      let stored : In h c.map = In-of_get h.0 h.1 c.map (t.same h.0 ∙ first) in
      elim (In-cons (In-of_get o.0 o.1 (h ∷ q) (sym (t.same o.0) ∙ held))) [
        | inl p ↦ p
        | inr i ↦ absurd (
            omega (
              arith,
              oldest-le c.map o h f stored,
              Ascending-le (suc h.1.inserted) c.counter q o t.ordered.1 i,
            ))
      ]

  prune-Tracks :
      (c : CacheMap K V) (h : K × Entry V) (q : List (K × Entry V))
      → Tracks c (h ∷ q)
      → Tracks (prune c) q
  unfolding prune Map.get
  prune-Tracks c (j, x) q t = elim (Option-cases (oldest c.map)) [
    | inl f ↦ absurd (omega (arith, t.size, ap length (nil_of_oldest c.map f)))
    | inr (o, f) ↦
        let p : o ≡ (j, x) = oldest-head c (j, x) q o t f in
        rw (f ∙ ap some p, prune)
          (record {
            valid = record {
              positive = t.valid.positive;
              bounded = omega (arith, size, t.size, t.valid.bounded);
              distinct = remove-IsDistinct j c.map t.valid.distinct;
            };
            distinct = t.distinct.1;
            same =
                λ k. ground (arith, get-remove j k c.map, t.same k, t.distinct.0, e.equals_iff j k);
            size = omega (arith, size, t.size);
            ordered = Ascending-weaken (suc x.inserted) 0 c.counter q (omega arith) t.ordered.1;
          })
  ]
    where
      size : length (remove j c.map) + 1 ≡ length c.map
      size = length-remove j x c.map t.valid.distinct (t.same j ∙ ground (arith, e.equals_iff j j))

  prune-tail :
      (c : CacheMap K V) (q : List (K × Entry V))
      → Tracks c q
      → c.max_size ≤ length q
      → Tracks (prune c) (tail q)
  prune-tail c [] t full = absurd (omega (arith, t.valid.positive))
  prune-tail c (h ∷ q) t full = prune-Tracks c h q t

  make_room-Tracks :
      (c : CacheMap K V) (q : List (K × Entry V))
      → Tracks c q
      → Tracks (make_room c) (if leb c.max_size (length q) then tail q else q)
  unfolding make_room
  make_room-Tracks c q t = elim (Bool-cases (leb c.max_size (length q))) [
    | inl full ↦
        rw (full, ap (leb c.max_size) t.size ∙ full, make_room) (prune-tail c q t (ground arith))
    | inr room ↦ rw (room, ap (leb c.max_size) t.size ∙ room, make_room) t
  ]

  put-Tracks :
      (c : CacheMap K V) (q : List (K × Entry V)) (k : K) (v : V)
      → Tracks c q
      → c.counter + 1 < u64_mod
      → (c' : CacheMap K V)
      → c'.map ≡ Map.insert k (record { inserted = c.counter; value = v }) c.map
      → c'.counter ≡ add_u64 c.counter 1
      → IsValid c'
      → Tracks c' (remove k q ++ (k, record { inserted = c.counter; value = v }) ∷ [])
  put-Tracks c q k v t room c' stored stamp valid = record {
    valid = valid;
    distinct = push-IsDistinct k entry q t.distinct;
    same = λ j. ground (arith, stored, get-insert k j entry c.map, get-push k j entry q, t.same j);
    size = ground (
      arith,
      stored,
      length-insert k entry c.map,
      length-push k entry q t.distinct,
      t.same k,
      t.size,
    );
    ordered =
        let next : c'.counter ≡ suc c.counter = omega (arith, stamp, add_u64_lem c.counter 1) in
        rw next (
          Ascending-append 0 c.counter (remove k q) k v
            (Ascending-remove 0 c.counter k q t.ordered));
  }
    where
      entry : Entry V
      entry = record { inserted = c.counter; value = v }

  -- An insertion into the cache is a push onto the queue.
  pub insert-Tracks :
      (c : CacheMap K V) (q : List (K × Entry V)) (k : K) (v : V)
      → Tracks c q
      → c.counter + 1 < u64_mod
      → Tracks (insert c k v) (push c.max_size k (record { inserted = c.counter; value = v }) q)
  unfolding insert
  insert-Tracks c q k v t room =
      subst (λ n. Tracks (insert c k v) (push c.max_size k (record { inserted = n; value = v }) q))
        (counter-make_room c)
        (put-Tracks (make_room c) _ k v (make_room-Tracks c q t) (rw (counter-make_room c) room)
          (insert c k v) refl refl (insert-IsValid c k v t.valid))
