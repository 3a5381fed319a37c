-- ===== src/Common/Map.antt =====
-- `HashMap` as an association list. A new key goes to the end; iteration order is not relied on.
pub mod Keys
pub mod Entries
pub mod Order
use Prim.Native.Nat.{◌+◌}
use mathlib.Core.Path.{◌≡◌, refl}
use mathlib.Core.Logic.{inl, inr}
use mathlib.Core.Option
use mathlib.Core.Option.{Option, none, some}
use mathlib.Core.List.{List, [], ◌∷◌, map}
use native.Mathlib.Omega.{arith}
use dmarc_report_viewer.Common.Tests.{Eq, ◌==◌, if◌then◌else◌, is_none, Option-cases}
use dmarc_report_viewer.Common.Lists.{length}

module _ {ℓ κ} {K : Type ℓ} {V : Type κ} ⦃e : Eq K⦄ where
  unfoldable pub get : K → List (K × V) → Option V
  get k [] = none
  get k ((j, v) ∷ m) = if j == k then some v else get k m

  unfoldable pub insert : K → V → List (K × V) → List (K × V)
  insert k v [] = (k, v) ∷ []
  insert k v ((j, w) ∷ m) = let rest = insert k v m in if j == k then (j, v) ∷ m else (j, w) ∷ rest

  unfoldable pub remove : K → List (K × V) → List (K × V)
  remove k [] = []
  remove k ((j, v) ∷ m) = let rest = remove k m in if j == k then rest else (j, v) ∷ rest

  -- `if let Some(v) = map.get_mut(k) { … }`
  unfoldable pub modify : K → (V → V) → List (K × V) → List (K × V)
  modify k f [] = []
  modify k f ((j, v) ∷ m) =
      let rest = modify k f m in if j == k then (j, f v) ∷ m else (j, v) ∷ rest

  pub get-insert :
      (k j : K) (v : V) (m : List (K × V))
      → get j (insert k v m) ≡ (if k == j then some v else get j m)
  unfolding get insert
  get-insert k j v [] = refl
  get-insert k j v ((i, w) ∷ m) =
      ground (arith, e.equals_iff k j, e.equals_iff i k, e.equals_iff i j, get-insert k j v m)

  pub get-remove :
      (k j : K) (m : List (K × V)) → get j (remove k m) ≡ (if k == j then none else get j m)
  unfolding get remove
  get-remove k j [] = ground arith
  get-remove k j ((i, w) ∷ m) =
      ground (arith, e.equals_iff k j, e.equals_iff i k, e.equals_iff i j, get-remove k j m)

  -- An insertion adds an entry exactly when the key is new.
  pub length-insert :
      (k : K) (v : V) (m : List (K × V))
      → length (insert k v m) ≡ (if is_none (get k m) then length m + 1 else length m)
  unfolding get insert
  length-insert k v [] = refl
  length-insert k v ((i, w) ∷ m) = ground (arith, e.equals_iff i k, length-insert k v m)

  pub get-modify :
      (k j : K) (f : V → V) (m : List (K × V))
      → get j (modify k f m) ≡ (if k == j then Option.map f (get j m) else get j m)
  unfolding get modify
  get-modify k j f [] = ground arith
  get-modify k j f ((i, w) ∷ m) =
      ground (arith, e.equals_iff k j, e.equals_iff i k, e.equals_iff i j, get-modify k j f m)

  pub is_none-get-modify :
      (k j : K) (f : V → V) (m : List (K × V)) → is_none (get j (modify k f m)) ≡ is_none (get j m)
  unfolding get modify
  is_none-get-modify k j f [] = refl
  is_none-get-modify k j f ((i, w) ∷ m) = ground (arith, is_none-get-modify k j f m)

-- What is found after a modification comes from what was found before it.
pub get-modify-inv {ℓ κ} :
    {K : Type ℓ} {V : Type κ} ⦃e : Eq K⦄ (k j : K) (f : V → V) (m : List (K × V)) (v : V)
    → get j (modify k f m) ≡ some v
    → (w : V) × (get j m ≡ some w) × (v ≡ (if k == j then f w else w))
get-modify-inv k j f m v h = elim (Option-cases (get j m)) [
  | inl q ↦ absurd (ground (arith, get-modify k j f m))
  | inr (w, q) ↦ (w, q, ground (arith, get-modify k j f m))
]

-- Whether a key is there is known from the keys.
pub is_none-get-keys {ℓ κ} :
    {K : Type ℓ} {V : Type κ} ⦃e : Eq K⦄ (k : K) (m n : List (K × V))
    → map (λ x. x.0) m ≡ map (λ x. x.0) n
    → is_none (get k m) ≡ is_none (get k n)
unfolding get
is_none-get-keys k [] [] h = refl
is_none-get-keys k [] ((j, v) ∷ n) h = cc
is_none-get-keys k ((i, w) ∷ m) [] h = cc
is_none-get-keys k ((i, w) ∷ m) ((j, v) ∷ n) h =
    let tail : map (λ x. x.0) m ≡ map (λ x. x.0) n = cc in
    let head : i ≡ j = cc in ground (arith, is_none-get-keys k m n tail)
