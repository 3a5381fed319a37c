-- ===== src/Common/Map/Keys.antt =====
-- Maps in which no key stands twice.
use Prim.Native.Nat.{◌+◌}
use mathlib.Core.Path.{◌≡◌, refl}
use mathlib.Core.Bool.{false}
use mathlib.Core.Logic.{inl, inr}
use mathlib.Core.Option.{none, some}
use mathlib.Core.List.{List, [], ◌∷◌}
use native.Mathlib.Omega.{arith}
use dmarc_report_viewer.Common.Tests.{Eq, ◌==◌, Bool-cases, is_none}
use dmarc_report_viewer.Common.Lists.{length, In}
use dmarc_report_viewer.Common.Lists.{here, there}
use dmarc_report_viewer.Common.Map.{get, insert, remove, get-insert, get-remove}

module _ {ℓ κ} {K : Type ℓ} {V : Type κ} ⦃e : Eq K⦄ where
  abbrev pub IsDistinct : List (K × V) → Type κ
  IsDistinct [] = Unit
  IsDistinct ((k, v) ∷ m) = (get k m ≡ none) × IsDistinct m

  pub insert-IsDistinct :
      (k : K) (v : V) (m : List (K × V)) → IsDistinct m → IsDistinct (insert k v m)
  unfolding insert get
  insert-IsDistinct k v [] h = (refl, tt)
  insert-IsDistinct k v ((i, w) ∷ m) h = elim (Bool-cases (i == k)) [
    | inl q ↦ rw (q, insert) h
    | inr q ↦
        rw (q, insert)
          (
            ground (arith, get-insert k i v m, e.equals_iff i k, e.equals_iff k i),
            insert-IsDistinct k v m h.1,
          )
  ]

  pub remove-IsDistinct : (k : K) (m : List (K × V)) → IsDistinct m → IsDistinct (remove k m)
  unfolding remove
  remove-IsDistinct k [] h = tt
  remove-IsDistinct k ((i, w) ∷ m) h = elim (Bool-cases (i == k)) [
    | inl q ↦ rw (q, remove) (remove-IsDistinct k m h.1)
    | inr q ↦ rw (q, remove) (ground (arith, get-remove k i m), remove-IsDistinct k m h.1)
  ]

  pub remove_absent : (k : K) (m : List (K × V)) → get k m ≡ none → remove k m ≡ m
  unfolding get remove
  remove_absent k [] h = refl
  remove_absent k ((i, w) ∷ m) h = ground (arith, remove_absent k m)

  pub length-remove :
      (k : K) (v : V) (m : List (K × V))
      → IsDistinct m
      → get k m ≡ some v
      → length (remove k m) + 1 ≡ length m
  unfolding get remove
  length-remove k v [] d h = cc
  length-remove k v ((i, w) ∷ m) d h = elim (Bool-cases (i == k)) [
    | inl q ↦ ground (arith, remove_absent k m, e.equals_iff i k)
    | inr q ↦ ground (arith, length-remove k v m d.1)
  ]

  -- A lookup finds the entries of a map with distinct keys, and only those.
  pub In-of_get : (k : K) (v : V) (m : List (K × V)) → get k m ≡ some v → In (k, v) m
  unfolding get
  In-of_get k v [] h = cc
  In-of_get k v ((i, w) ∷ m) h = elim (Bool-cases (i == k)) [
    | inl q ↦ here (ground (arith, e.equals_iff i k))
    | inr q ↦ there (In-of_get k v m (ground arith))
  ]

  pub get_of_In : (k : K) (v : V) (m : List (K × V)) → IsDistinct m → In (k, v) m → get k m ≡ some v
  unfolding get
  get_of_In k v [] d h = elim h [ ]
  get_of_In k v ((i, w) ∷ m) d (here q) = ground (arith, e.equals_iff i k)
  get_of_In k v ((i, w) ∷ m) d (there h) =
      let found = get_of_In k v m d.1 h in ground (arith, found, e.equals_iff i k)

  -- The key of an entry is found.
  pub found_of_In : (k : K) (v : V) (m : List (K × V)) → In (k, v) m → is_none (get k m) ≡ false
  unfolding get
  found_of_In k v [] h = elim h [ ]
  found_of_In k v ((i, w) ∷ m) (here q) = ground (arith, e.equals_iff i k)
  found_of_In k v ((i, w) ∷ m) (there h) = ground (arith, found_of_In k v m h)
