-- ===== src/CacheMap/Bounds.antt =====
-- src/cache_map.rs: the invariant of the cache, and its size.
use dmarc_report_viewer.Common.{
  ℕ, ap, false, ◌+◌, ◌≤◌, ◌<◌, ◌≡◌, none, some, arith, Eq, ◌==◌, length, leb, Bool-cases,
  Option-cases, inl, inr,
}
use dmarc_report_viewer.Common.Map.{remove, length-insert, get-insert, get-remove}
use dmarc_report_viewer.Common.Map.Keys.{
  IsDistinct, insert-IsDistinct, remove-IsDistinct, length-remove, get_of_In,
}
use dmarc_report_viewer.Common.Result.{ok}
use dmarc_report_viewer.CacheMap.{CacheMap, Entry, new, oldest, get, prune, make_room, insert}
use dmarc_report_viewer.CacheMap.Oldest.{nil_of_oldest, In-oldest}

module _ {ℓ κ} {K : Type ℓ} {V : Type κ} ⦃e : Eq K⦄ where
  pub record IsValid (c : CacheMap K V) : Type κ where
    pub positive : 1 ≤ c.max_size
    pub bounded : length c.map ≤ c.max_size
    pub distinct : IsDistinct c.map

  -- A new cache is valid, and there is one exactly for a positive size.
  pub new-IsValid : (n : ℕ) {c : CacheMap K V} → new n ≡ ok c → IsValid c
  unfolding new
  new-IsValid n h = ground arith

  -- A full cache loses one entry; any other is left alone.
  pub length-make_room : (c : CacheMap K V) → IsValid c → length (make_room c).map + 1 ≤ c.max_size
  unfolding make_room prune
  length-make_room c v = elim (Option-cases (oldest c.map)) [
    | inl h ↦ ground (arith, ap length (nil_of_oldest c.map h))
    | inr (o, h) ↦ ground (
      arith,
      length-remove o.0 o.1 c.map v.distinct
          (get_of_In o.0 o.1 c.map v.distinct (In-oldest c.map o h)),
    )
  ]

  pub max_size-make_room : (c : CacheMap K V) → (make_room c).max_size ≡ c.max_size
  unfolding make_room prune
  max_size-make_room c = ground arith

  pub counter-make_room : (c : CacheMap K V) → (make_room c).counter ≡ c.counter
  unfolding make_room prune
  counter-make_room c = ground arith

  make_room-IsDistinct : (c : CacheMap K V) → IsDistinct c.map → IsDistinct (make_room c).map
  unfolding make_room prune
  make_room-IsDistinct c d = elim (Bool-cases (leb c.max_size (length c.map))) [
    | inl full ↦ elim (Option-cases (oldest c.map)) [
      | inl h ↦ rw (full, make_room, h, prune) d
      | inr (o, h) ↦ rw (full, make_room, h, prune) (remove-IsDistinct o.0 c.map d)
    ]
    | inr room ↦ rw (room, make_room) d
  ]

  -- An insertion keeps the invariant: never more than `max_size` entries, never a key twice.
  pub insert-IsValid : (c : CacheMap K V) (k : K) (v : V) → IsValid c → IsValid (insert c k v)
  unfolding insert
  insert-IsValid c k v h = record {
    positive = rw max_size-make_room h.positive;
    bounded = ground (
      arith,
      length-make_room c h,
      max_size-make_room c,
      length-insert k (record { inserted = (make_room c).counter; value = v }) (make_room c).map,
    );
    distinct = insert-IsDistinct k _ (make_room c).map (make_room-IsDistinct c h.distinct);
  }

  -- What was inserted last is found.
  pub get-insert_self : (c : CacheMap K V) (k : K) (v : V) → get (insert c k v) k ≡ some v
  unfolding insert get
  get-insert_self c k v = ground (
    arith,
    get-insert k k (record { inserted = (make_room c).counter; value = v }) (make_room c).map,
    e.equals_iff k k,
  )

  -- Below the size limit an insertion changes no other key.
  pub get-insert_ne :
      (c : CacheMap K V) (k j : K) (v : V)
      → length c.map < c.max_size
      → (k == j) ≡ false
      → get (insert c k v) j ≡ get c j
  unfolding insert get make_room
  get-insert_ne c k j v room other =
      ground (arith, get-insert k j (record { inserted = c.counter; value = v }) c.map)

  -- Inserting a stored key into a full cache still deletes the oldest entry, although no room is
  -- needed: where that entry has another key, the cache is left with one entry less than it may
  -- hold, and the oldest key is gone.
  pub insert_again :
      (c : CacheMap K V) (k : K) (v w : V) (o : K × Entry V)
      → IsValid c
      → length c.map ≡ c.max_size
      → get c k ≡ some w
      → oldest c.map ≡ some o
      → (o.0 == k) ≡ false
      → (length (insert c k v).map + 1 ≡ c.max_size) × (get (insert c k v) o.0 ≡ none)
  unfolding insert get make_room prune
  insert_again c k v w o h full old first other =
      let stored = get_of_In o.0 o.1 c.map h.distinct (In-oldest c.map o first) in
      let entry : Entry V = record { inserted = c.counter; value = v } in
      let rest = remove o.0 c.map in
      (
        ground (
          arith,
          length-remove o.0 o.1 c.map h.distinct stored,
          length-insert k entry rest,
          get-remove o.0 k c.map,
        ),
        ground (
          arith,
          get-insert k o.0 entry rest,
          get-remove o.0 o.0 c.map,
          e.equals_iff k o.0,
          e.equals_iff o.0 k,
          e.equals_iff o.0 o.0,
        ),
      )
