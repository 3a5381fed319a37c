-- ===== src/CacheMap/Ascending.antt =====
-- src/cache_map.rs: entries whose stamps ascend.
use dmarc_report_viewer.Common.{
  ℕ, suc, ◌≤◌, arith, Eq, ◌==◌, In, here, there, Bool-cases, inl, inr, List, [], ◌∷◌, ◌++◌,
}
use dmarc_report_viewer.Common.Map.{remove}
use dmarc_report_viewer.CacheMap.{Entry}

module _ {ℓ κ} {K : Type ℓ} {V : Type κ} where
  -- The stamps ascend from `lo` and stay below `hi`.
  abbrev pub Ascending : ℕ → List (K × Entry V) → ℕ → Type 0
  Ascending lo [] hi = lo ≤ hi
  Ascending lo ((k, x) ∷ q) hi = (lo ≤ x.inserted) × Ascending (suc x.inserted) q hi

  pub Ascending-weaken :
      (lo lo' hi : ℕ) (q : List (K × Entry V)) → lo' ≤ lo → Ascending lo q hi → Ascending lo' q hi
  Ascending-weaken lo lo' hi [] h a = omega arith
  Ascending-weaken lo lo' hi ((k, x) ∷ q) h a = (omega arith, a.1)

  pub Ascending-le :
      (lo hi : ℕ) (q : List (K × Entry V)) (d : K × Entry V)
      → Ascending lo q hi
      → In d q
      → lo ≤ d.1.inserted
  Ascending-le lo hi [] d a i = elim i [ ]
  Ascending-le lo hi ((k, x) ∷ q) d a (here p) = rw p a.0
  Ascending-le lo hi ((k, x) ∷ q) d a (there i) =
      omega (arith, Ascending-le (suc x.inserted) hi q d a.1 i)

  pub Ascending-append :
      (lo hi : ℕ) (q : List (K × Entry V)) (k : K) (v : V)
      → Ascending lo q hi
      → Ascending lo (q ++ (k, record { inserted = hi; value = v }) ∷ []) (suc hi)
  Ascending-append lo hi [] k v a = (a, omega arith)
  Ascending-append lo hi ((j, x) ∷ q) k v a = (a.0, Ascending-append (suc x.inserted) hi q k v a.1)

module _ {ℓ κ} {K : Type ℓ} {V : Type κ} ⦃e : Eq K⦄ where
  pub Ascending-remove :
      (lo hi : ℕ) (k : K) (q : List (K × Entry V))
      → Ascending lo q hi
      → Ascending lo (remove k q) hi
  unfolding remove
  Ascending-remove lo hi k [] a = a
  Ascending-remove lo hi k ((j, x) ∷ q) a = elim (Bool-cases (j == k)) [
    | inl h ↦
        rw (h, remove)
          (Ascending-weaken (suc x.inserted) lo hi (remove k q) (omega arith)
            (Ascending-remove (suc x.inserted) hi k q a.1))
    | inr h ↦ rw (h, remove) (a.0, Ascending-remove (suc x.inserted) hi k q a.1)
  ]
