-- ===== src/CacheMap/Entries.antt =====
-- src/cache_map.rs: where what is found after an insertion comes from.
use dmarc_report_viewer.Common.{
  ◌≡◌, some, ◌⊎◌, inl, inr, arith, Eq, ◌==◌, length, leb, Bool-cases, Option-cases,
}
use dmarc_report_viewer.Common.Map.{get-insert, get-remove}
use dmarc_report_viewer.CacheMap.{CacheMap, Entry, oldest, get, prune, make_room, insert}

module _ {ℓ κ} {K : Type ℓ} {V : Type κ} ⦃e : Eq K⦄ where
  -- What is found after room is made was there before.
  get-make_room :
      (c : CacheMap K V) (j : K) (w : V) → get (make_room c) j ≡ some w → get c j ≡ some w
  unfolding get make_room prune
  get-make_room c j w h = elim (Bool-cases (leb c.max_size (length c.map))) [
    | inr room ↦ rw (room, make_room) at h
    | inl full ↦ elim (Option-cases (oldest c.map)) [
      | inl n ↦ rw (full, n, make_room, prune) at h
      | inr (o, n) ↦ ground (arith, get-remove o.0 j c.map)
    ]
  ]

  -- What is found after an insertion is the new value under its key, or was there before.
  pub get-insert_inv :
      (c : CacheMap K V) (k j : K) (v w : V)
      → get (insert c k v) j ≡ some w
      → ((k ≡ j) × (v ≡ w)) ⊎ (get c j ≡ some w)
  unfolding insert get
  get-insert_inv c k j v w h =
      let entry : Entry V = record { inserted = (make_room c).counter; value = v } in
      elim (Bool-cases (k == j)) [
        | inl same ↦
            inl ((e.equals_iff k j).0 same, ground (arith, get-insert k j entry (make_room c).map))
        | inr other ↦
            inr (get-make_room c j w (ground (arith, get-insert k j entry (make_room c).map)))
      ]
