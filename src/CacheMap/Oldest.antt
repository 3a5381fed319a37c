-- ===== src/CacheMap/Oldest.antt =====
-- src/cache_map.rs: the search of `prune` for the oldest entry.
use mathlib.Core.Path.{subst}
use dmarc_report_viewer.Common.{
  not-In-nil, ◌≤◌, ◌≡◌, refl, none, some, List, [], ◌∷◌, ltb, arith, In, here, there, Bool-cases,
  Option-cases, inl, inr,
}
use dmarc_report_viewer.CacheMap.{Entry, oldest}

module _ {ℓ κ} {K : Type ℓ} {V : Type κ} where
  pub nil_of_oldest : (m : List (K × Entry V)) → oldest m ≡ none → m ≡ []
  unfolding oldest
  nil_of_oldest [] h = refl
  nil_of_oldest ((k, x) ∷ m) h = ground arith

  -- The search returns an entry of the map.
  pub In-oldest : (m : List (K × Entry V)) (c : K × Entry V) → oldest m ≡ some c → In c m
  unfolding oldest
  In-oldest [] c h = cc
  In-oldest ((k, x) ∷ m) c h = elim (Option-cases (oldest m)) [
    | inl e ↦ here (ground arith)
    | inr (b, e) ↦ elim (Bool-cases (ltb b.1.inserted x.inserted)) [
      | inl t ↦ there (In-oldest m c (ground arith))
      | inr t ↦ here (ground arith)
    ]
  ]

  -- No entry of the map is older.
  pub oldest-le :
      (m : List (K × Entry V)) (c d : K × Entry V)
      → oldest m ≡ some c
      → In d m
      → c.1.inserted ≤ d.1.inserted
  unfolding oldest
  oldest-le [] c d h i = elim i [ ]
  oldest-le ((k, x) ∷ m) c d h (here q) = ground arith
  oldest-le ((k, x) ∷ m) c d h (there i) = elim (Option-cases (oldest m)) [
    | inl e ↦ absurd (not-In-nil (subst (In d) (nil_of_oldest m e) i))
    | inr (b, e) ↦ ground (arith, oldest-le m b d e i)
  ]
