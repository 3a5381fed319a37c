-- ===== src/Common/Map/Entries.antt =====
-- What every entry of a map meets.
use mathlib.Core.Path.{sym, subst}
use mathlib.Core.List.{List, [], ◌∷◌}
use dmarc_report_viewer.Common.Tests.{Eq, ◌==◌, if-cases}
use dmarc_report_viewer.Common.Lists.{All}
use dmarc_report_viewer.Common.Map.{insert, modify}

module _ {ℓ κ μ} {K : Type ℓ} {V : Type κ} ⦃e : Eq K⦄ (P : K × V → Type μ) where
  pub insert-All : (k : K) (v : V) (m : List (K × V)) → P (k, v) → All P m → All P (insert k v m)
  unfolding insert
  insert-All k v [] p a = (p, tt)
  insert-All k v ((j, w) ∷ m) p a =
      if-cases (All P) (j == k) (λ q. (subst (λ i. P (i, v)) (sym ((e.equals_iff j k).0 q)) p, a.1))
        (a.0, insert-All k v m p a.1)

  pub modify-All :
      (k : K) (f : V → V) (m : List (K × V))
      → ((j : K) (v : V) → P (j, v) → P (j, f v))
      → All P m
      → All P (modify k f m)
  unfolding modify
  modify-All k f [] h a = tt
  modify-All k f ((j, w) ∷ m) h a =
      if-cases (All P) (j == k) (λ _. (h j w a.0, a.1)) (a.0, modify-All k f m h a.1)
