-- ===== src/Common/BTree.antt =====
-- `BTreeMap<String, V>` as an association list whose keys ascend; a lookup is that of `Map`.
use mathlib.Core.Path.{◌≡◌, refl, subst}
use mathlib.Core.Option.{none, some}
use mathlib.Core.List.{List, [], ◌∷◌}
use mathlib.Core.Bool.{true, false}
use mathlib.Core.Logic.{inl, inr}
use Prim.Native.String.{String}
use native.Mathlib.Omega.{arith}
use dmarc_report_viewer.Common.Tests.{◌==◌, string_eq, if◌then◌else◌, if-cases, Bool-cases}
use dmarc_report_viewer.Common.Lists.{All}
use dmarc_report_viewer.Common.TextOrder.{str_ltb, Less, Less-trans, Less-total, not-Less_self}
use dmarc_report_viewer.Common.Map
use dmarc_report_viewer.Common.Map.Keys.{IsDistinct}

Less-of_str_ltb : (s t : String) → str_ltb s t ≡ true → Less s t
Less-of_str_ltb s t h = ground arith

not-Less_of_str_ltb : (s t : String) → str_ltb s t ≡ false → ¬ Less s t
not-Less_of_str_ltb s t h = ground arith

module _ {ℓ} {V : Type ℓ} where
  unfoldable pub insert : String → V → List (String × V) → List (String × V)
  insert k v [] = (k, v) ∷ []
  insert k v ((j, w) ∷ m) =
      let later = insert k v m in
      if j == k then (k, v) ∷ m else if str_ltb k j then (k, v) ∷ (j, w) ∷ m else (j, w) ∷ later

  -- `extend` with the entries of another map
  unfoldable pub extend : List (String × V) → List (String × V) → List (String × V)
  extend m [] = m
  extend m ((k, v) ∷ more) = extend (insert k v m) more

  pub get-insert :
      (k j : String) (v : V) (m : List (String × V))
      → Map.get j (insert k v m) ≡ (if k == j then some v else Map.get j m)
  unfolding Map.get insert
  get-insert k j v [] = refl
  get-insert k j v ((i, w) ∷ m) = ground (
    arith,
    string_eq.equals_iff k j,
    string_eq.equals_iff i k,
    string_eq.equals_iff i j,
    get-insert k j v m,
  )

  -- Every key of the map is above `k`.
  abbrev pub Above : String → List (String × V) → Type 0
  Above k [] = Unit
  Above k ((j, w) ∷ m) = Less k j × Above k m

  abbrev pub IsSorted : List (String × V) → Type 0
  IsSorted [] = Unit
  IsSorted ((k, v) ∷ m) = Above k m × IsSorted m

  Above-trans : (k j : String) (m : List (String × V)) → Less k j → Above j m → Above k m
  Above-trans k j [] h a = tt
  Above-trans k j ((i, w) ∷ m) h a = (Less-trans k j i h a.0, Above-trans k j m h a.1)

  Above-insert :
      (i k : String) (v : V) (m : List (String × V)) → Less i k → Above i m → Above i (insert k v m)
  unfolding insert
  Above-insert i k v [] h a = (h, tt)
  Above-insert i k v ((j, w) ∷ m) h a = elim (Bool-cases (j == k)) [
    | inl e ↦ rw (e, insert) (h, a.1)
    | inr e ↦ elim (Bool-cases (str_ltb k j)) [
      | inl l ↦ rw (e, l, insert) (h, a)
      | inr l ↦ rw (e, l, insert) (a.0, Above-insert i k v m h a.1)
    ]
  ]

  pub insert-IsSorted :
      (k : String) (v : V) (m : List (String × V)) → IsSorted m → IsSorted (insert k v m)
  unfolding insert
  insert-IsSorted k v [] s = (tt, tt)
  insert-IsSorted k v ((j, w) ∷ m) s = elim (Bool-cases (j == k)) [
    | inl e ↦ rw (e, insert) (rw (← (string_eq.equals_iff j k).0 e) s)
    | inr e ↦ elim (Bool-cases (str_ltb k j)) [
      | inl l ↦
          let h : Less k j = Less-of_str_ltb k j l in
          rw (e, l, insert) ((h, Above-trans k j m h s.0), s)
      | inr l ↦ rw (e, l, insert) (Above-insert j k v m (later l e) s.0, insert-IsSorted k v m s.1)
    ]
  ]
    where
      later : str_ltb k j ≡ false → (j == k) ≡ false → Less j k
      later l e = elim (Less-total j k) [
        | inl p ↦ ground (arith, string_eq.equals_iff j k)
        | inr (inl h) ↦ h
        | inr (inr h) ↦ absurd (not-Less_of_str_ltb k j l h)
      ]

  get_of_Above : (k : String) (m : List (String × V)) → Above k m → Map.get k m ≡ none
  unfolding Map.get
  get_of_Above k [] a = refl
  get_of_Above k ((j, w) ∷ m) a = elim (Bool-cases (j == k)) [
    | inl e ↦ absurd (not-Less_self k (subst (Less k) ((string_eq.equals_iff j k).0 e) a.0))
    | inr e ↦ rw e (get_of_Above k m a.1)
  ]

  -- No key stands twice in a sorted map.
  pub IsSorted-IsDistinct : (m : List (String × V)) → IsSorted m → IsDistinct m
  IsSorted-IsDistinct [] s = tt
  IsSorted-IsDistinct ((k, v) ∷ m) s = (get_of_Above k m s.0, IsSorted-IsDistinct m s.1)

  -- What an entry and all the others meet, all meet after an insertion.
  pub insert-All {κ} :
      (P : String × V → Type κ) (k : String) (v : V) (m : List (String × V))
      → P (k, v)
      → All P m
      → All P (insert k v m)
  unfolding insert
  insert-All P k v [] p a = (p, tt)
  insert-All P k v ((j, w) ∷ m) p a =
      if-cases (All P) (j == k) (λ _. (p, a.1))
        (if-cases (All P) (str_ltb k j) (λ _. (p, a)) (a.0, insert-All P k v m p a.1))

  pub extend-All {κ} :
      (P : String × V → Type κ) (m more : List (String × V))
      → All P m
      → All P more
      → All P (extend m more)
  unfolding extend
  extend-All P m [] a b = a
  extend-All P m ((k, v) ∷ more) a b =
      extend-All P (insert k v m) more (insert-All P k v m b.0 a) b.1
